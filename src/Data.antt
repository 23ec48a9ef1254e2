-- ===== src/Data.antt =====
-- js_sdk/vdoninja-sdk.js: data to peers over their channels, subscriptions, and requests with
-- responses.
pub mod Send
pub mod Target
pub mod Topics
