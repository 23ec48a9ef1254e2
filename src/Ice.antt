-- ===== src/Ice.antt =====
-- The servers that a peer connection is given: js_sdk/vdoninja-sdk.js, "TURN" section.
pub mod Turn
pub mod Storage
pub mod Setup
