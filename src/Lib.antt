-- ===== src/Lib.antt =====
-- Verification of the VDO.Ninja SDK (js_sdk/vdoninja-sdk.js), the WebRTC client that the plugin
-- repository carries: the class VDONinjaSDK.
--
-- The program: one signaling socket, and for each peer up to two peer connections, one that views the
-- peer's stream and one that publishes to it. State changes of a connection start a staged recovery
-- with timers; a failed view is asked for again with growing delays; messages go over data
-- channels or, where that is allowed, over the socket; TURN servers are fetched, cached and chosen.
--
-- The model: `Peer.Types.Sdk` is the instance's state. Connections and failed views are mutable
-- objects that several tables share, so they live in a store and the tables hold their addresses.
-- Each method is a function on that state. Timers are values in `timers` that name their callback,
-- and each callback is a function of its own. An `async` method is cut at its awaits: what waits is an
-- entry of `suspended`, `awaits` or `answers`, and other functions are the rest; only the digests of
-- `joinRoom`, `publish` and `announce` are taken to be there at once. Times are whole milliseconds,
-- view options and offers are numbers.
--
-- The parts, and where they are:
-- - Ice/Turn, Ice/Storage, Ice/Setup: `_processTURNs`, `_getStorage`, `_setStorage`,
--   `_fetchTURNServers`, `_setupTURNServers`, `_getICEConfiguration`, `clearTURNCache`.
-- - Peer/Types, Peer/State, Peer/Lookup, Peer/Create: the state, what changes it, `_getConnection`,
--   `_getConnections`, `_createConnection`.
-- - Peer/Health, Peer/Recovery, Peer/Relay: `_handlePeerConnectionState`, `_recoverConnection`,
--   `_handleConnectionFailed`, `_escalateConnectionToRelay`, `_scheduleRelayPolicyRestore`.
-- - Peer/View, Peer/Backoff: `view`, `_setupViewRetry`, `stopViewing`,
--   `_retryFailedViewerConnection`.
-- - Peer/Ping, Peer/Departure: `_startPingMonitoring`, `sendPing`, `_handleUserLeft`, `_handleBye`,
--   `_handleHangup`.
-- - Data/Send, Data/Target, Data/Topics: `_sendDataInternal`, `sendData`, `subscribe`,
--   `unsubscribe`, `request`, `onRequest`, `_handleDataChannelMessage`.
-- - Session: `connect` and the socket's callbacks, `_attemptReconnect`, `disconnect`.
-- - Peer/Registry, Run: what the operations may change of `this.connections`, and runs of all of them.
-- - Mute: `_monitorOutboundVideoTrack`, `_unmonitorOutboundVideoTrack`,
--   `_scheduleVideoMuteFinalizer`, `_clearAllVideoTrackMonitors` and their neighbours.
-- - Names: `_sanitizeStreamID`, `_sanitizeRoomName`, `_sanitizePassword`, `_getEffectivePassword`,
--   `_stripHashFromStreamID`.
-- - Presence: `joinRoom`, `leaveRoom`, `publish`, `announce`, `stopPublishing`, and the room and the
--   publishing of `_restoreConnectionIntent`; Presence/Requests: `_ensurePasswordHash`,
--   `_handlePlayRequest`, `_handleJoinRoom`.
-- - Signal, Signal/Steps: `_handleICECandidate`, `_handleRemoteICECandidate`, `_handleRemoteICECandidates`,
--   `_handleAnswerSDP`.
-- - Media: `_buildCodecPreferenceList`, `_mergeMediaConfigs`.
-- - Prelude: shared tests, lists, tables, sets and integers. Examples: runs at concrete values.
--
-- No loop needs fuel: each one goes over a list.
--
-- `Presence.State.Presence` holds that state and the monitors of Mute, and adds the fields of rooms
-- and publishing.
--
-- Not modelled: the other signaling handlers, labels and info, cryptography, the making of offers,
-- parsing of media settings, logging and the events for iframes; webrtc-adapter.js and
-- vdoninja-sdk-node.js (a library and glue); the C++ plugin. What the WebRTC implementation, the
-- socket and the TURN service do is given by arguments or by fields of the state.
pub mod Prelude
pub mod Ice
pub mod Peer
pub mod Data
pub mod Session
pub mod Run
pub mod Media
pub mod Mute
pub mod Names
pub mod Presence
pub mod Signal
pub mod Examples
