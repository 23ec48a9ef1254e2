-- ===== src/Peer/Types.antt =====
-- The objects that the peer connection code works on (`_createConnection`), its timers, the
-- events that it emits and what it sends.
use ninja_vst3_plugin.Prelude.{ℕ, String, Bool, Option, List}

pub data Kind : Type 0 where
  viewer : Kind
  publisher : Kind

-- RTCPeerConnection.connectionState and .iceConnectionState.
pub data PeerState : Type 0 where
  new connecting connected disconnected failed closed : PeerState

pub data IceState : Type 0 where
  new checking connected completed disconnected failed closed : IceState

pub data Health : Type 0 where
  connecting connected degraded recovering : Health

-- Each server is the list of its URLs.
pub record RtcConfiguration : Type 0 where
  pub ice_servers : List (List String)
  pub relay : Bool

-- `reports` is false where `getConfiguration` is missing, `configurable` where `setConfiguration`
-- is missing, `accepts` where it throws.
pub record PeerConnection : Type 0 where
  pub peer_state : PeerState
  pub ice_state : IceState
  pub configuration : RtcConfiguration
  pub reports : Bool
  pub configurable : Bool
  pub accepts : Bool
  pub is_closed : Bool

pub data Message : Type 0 where
  ice_restart_request : Message
  ping : ℕ → Message
  pong : ℕ → Message
  bye : Message
  pipe : ℕ → Message

-- `is_open` is `readyState === 'open'`; `sends` is false where `send` throws.
pub record DataChannel : Type 0 where
  pub is_open : Bool
  pub sends : Bool
  pub outbox : List Message

-- `none` in a timer field is null, in `stream_id` null or the empty text.
pub record Connection : Type 0 where
  pub uuid : String
  pub kind : Kind
  pub pc : PeerConnection
  pub data_channel : Option DataChannel
  pub stream_id : Option String
  pub view_options : ℕ
  pub health : Health
  pub recovery_stage : ℕ
  pub recovering : Bool
  pub disconnect_timer : Option ℕ
  pub recovery_timer : Option ℕ
  pub connect_timer : Option ℕ
  pub relay_restore_timer : Option ℕ
  pub ping_timer : Option ℕ
  pub relay_escalated : Bool
  pub original_configuration : Option RtcConfiguration
  pub peer_connected_emitted : Bool
  pub finalized : Bool
  pub missed_pings : ℕ
  pub pending_ping : Option ℕ

-- An entry of `this.connections`: the addresses of a peer's two directions.
pub record Pair : Type 0 where
  pub viewer_side : Option ℕ
  pub publisher_side : Option ℕ

pub data StreamState : Type 0 where
  pending connected disconnected failed : StreamState

-- An entry of `this.streams`.
pub record Stream : Type 0 where
  pub first_seen : ℕ
  pub state : StreamState
  pub last_seen : ℕ
  pub uuid : Option String

-- An entry of `this._failedViewerConnections`, a mutable object.
pub record FailedView : Type 0 where
  pub uuid : String
  pub view_options : ℕ
  pub retry_count : ℕ
  pub last_retry : ℕ
  pub timer : Option ℕ

-- The text that `reason` grows to: the first one, with `-relay` and `-timeout` behind it.
pub data Reason : Type 0 where
  state_failed state_disconnected connect_timeout missed_pings : Reason
  relayed timed_out : Reason → Reason

-- What a timer calls. Connections and failed views are given by address. `view_poll` names the
-- timeout that it stops, and `view_timeout` the view's options, the interval that it stops and the
-- failed view that waits for the result.
pub data Callback : Type 0 where
  grace_over : ℕ → Callback
  recovery_over : ℕ → Reason → Callback
  connect_over : ℕ → Callback
  restore_relay : ℕ → Callback
  ping_tick : ℕ → Callback
  retry_view : String → ℕ → Callback
  retry_after_bye : String → Callback
  view_poll : String → ℕ → Callback
  view_timeout : String → ℕ → ℕ → Option ℕ → Callback
  retry_pending : String → ℕ → Callback
  reconnect : Callback

-- `repeats` tells an interval from a timeout.
pub record Timer : Type 0 where
  pub id : ℕ
  pub delay : ℕ
  pub repeats : Bool
  pub callback : Callback

pub data Phase : Type 0 where
  direct relay : Phase

-- Events carry the address of the connection that they are about.
pub data Event : Type 0 where
  peer_connected : ℕ → Event
  peer_disconnected : ℕ → Event
  connection_recovered : ℕ → Event
  connection_recovering : ℕ → Reason → Phase → ℕ → Event
  connection_failed : ℕ → Reason → Event
  relay_escalated : ℕ → Event
  relay_restored : ℕ → Event
  ice_restart : ℕ → Reason → Event
  direction_state : Kind → Bool → ℕ → Event
  user_left : String → Event
  peer_bye : String → Event
  peer_hangup : String → Event
  peer_gone : String → Event
  viewing_stopped : String → Event
  connected disconnected reconnected reconnect_failed : Event
  reconnecting : ℕ → ℕ → Event

-- A function at its `await`. `recovering_with` is `_recoverConnection`: `known` is the result where
-- it is settled at once, as for a viewer's request; otherwise the environment settles it.
-- `requesting_view` is `view` while the stream ID is hashed, called for the failed view whose address
-- is given or by the application; `stopping` is `stopViewing` while the byes are flushed, and
-- `tearing_down` is `disconnect` likewise.
pub data Suspended : Type 0 where
  recovering_with : ℕ → Reason → Phase → Option Bool → Suspended
  requesting_view : String → ℕ → Option ℕ → Suspended
  stopping : String → Suspended
  tearing_down : Suspended

-- `timers` are those armed; `next_id` numbers the next timer. `is_connected` is `state.connected`;
-- `signaling` is `none` for null, else whether the socket is open; view options and offers are given
-- by numbers. `play_requests` are the play requests sent.
pub record Sdk : Type 0 where
  pub connections : List (String × Pair)
  pub objects : ℕ → Connection
  pub next_object : ℕ
  pub streams : List (String × Stream)
  pub view_intents : List (String × ℕ)
  pub stopped_views : List String
  pub pending_views : List (String × ℕ)
  pub view_retry_timers : List (String × ℕ)
  pub failed_views : List (String × ℕ)
  pub failed_objects : ℕ → FailedView
  pub next_failed : ℕ
  pub timers : List Timer
  pub next_id : ℕ
  pub suspended : List Suspended
  pub events : List Event
  pub now : ℕ
  pub is_connected : Bool
  pub signaling : Option Bool
  pub play_requests : List String
  pub reconnect_attempts : ℕ
  pub max_reconnect_attempts : ℕ
  pub reconnect_delay : ℕ
  pub reconnect_timer : Option ℕ
  pub is_reconnecting : Bool
  pub view_retry_interval : ℕ
  pub auto_recover : Bool
  pub auto_relay : Bool
  pub force_turn : Bool
  pub intentional_disconnect : Bool
  pub configuration : RtcConfiguration
  pub disconnect_grace_period : ℕ
  pub recovery_timeout : ℕ
  pub connection_timeout : ℕ
  pub relay_restore_delay : ℕ
  pub auto_ping_viewer : Bool
  pub auto_ping_interval : ℕ
