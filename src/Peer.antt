-- ===== src/Peer.antt =====
-- js_sdk/vdoninja-sdk.js: the state of an instance as far as its peer connections need it, and the
-- primitive steps on it. Connection records are mutable objects, shared by the table, the timers'
-- callbacks and suspended functions: each has an address, and `pair[type] === connection` compares
-- addresses. Listeners of the emitted events are taken not to call back into the SDK.
pub mod Types
pub mod State
pub mod Lookup
pub mod Create
pub mod Backoff
pub mod View
pub mod Relay
pub mod Registry
pub mod Recovery
pub mod Departure
pub mod Ping
pub mod Health
