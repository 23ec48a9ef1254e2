-- ===== src/Run.antt =====
-- The instance as a state machine: every call of a method, every message, every timer and every
-- settled promise of the parts in Peer, Session and Data, and the end of publishing, is a step. The environment chooses.
pub mod Sends
pub mod Sessions
pub mod Registered
pub mod Removed
use ninja_vst3_plugin.Prelude.{ℕ, String, Bool, Option, List, [], ◌≡◌}
use ninja_vst3_plugin.Peer.Types.{
  Kind, PeerState, IceState, PeerConnection, Connection, DataChannel, Message, Reason, Phase, Sdk,
}
use ninja_vst3_plugin.Peer.State.{modify}
use ninja_vst3_plugin.Peer.Create.{create_connection, channel_received}
use ninja_vst3_plugin.Peer.Recovery.{recovery_resumed}
use ninja_vst3_plugin.Peer.Health.{
  handle_peer_connection_state, grace_elapsed, connect_elapsed, recovery_elapsed,
}
use ninja_vst3_plugin.Peer.Relay.{relay_restore_over}
use ninja_vst3_plugin.Peer.Ping.{start_ping_monitoring, ping_ticked, send_ping}
use ninja_vst3_plugin.Peer.View.{
  track_pending, view_hashed, poll_view, view_timed_out, retry_pending_view, retry_fired,
  stop_viewing, stop_viewing_flushed,
}
use ninja_vst3_plugin.Peer.Departure.{handle_user_left, handle_hangup, handle_bye}
use ninja_vst3_plugin.Session.{
  connect, socket_opened, socket_closed, reconnect_settled, attempt_reconnect, disconnect,
  disconnect_flushed,
}
use ninja_vst3_plugin.Presence.Stopping.{say_stopped_each, stop_each}
use ninja_vst3_plugin.Data.Target.{Target, send_data}

-- The states that the WebRTC implementation reports next.
abbrev pub report : ℕ → PeerState → IceState → Sdk → Sdk
report c peer_state ice_state =
    modify c (λ conn. record conn {
      pc = record conn.pc { peer_state = peer_state; ice_state = ice_state };
    })

pub data Step : Sdk → Sdk → Type 0 where
  created :
      (uuid : String) (kind : Kind) (pc : PeerConnection) (channel : DataChannel)
      (stream_id : Option String) (s : Sdk)
      → Step s (create_connection uuid kind pc channel stream_id s)
  channel_opened : (c : ℕ) (channel : DataChannel) (s : Sdk) → Step s (channel_received c channel s)
  changed :
      (c : ℕ) (peer_state : PeerState) (ice_state : IceState) (s : Sdk)
      → Step s (handle_peer_connection_state c (report c peer_state ice_state s))
  resumed :
      (c : ℕ) (reason : Reason) (phase : Phase) (started : Bool) (s : Sdk)
      → Step s (recovery_resumed c reason phase started s)
  grace_over : (c : ℕ) (s : Sdk) → Step s (grace_elapsed c s)
  connect_over : (c : ℕ) (s : Sdk) → Step s (connect_elapsed c s)
  recovery_over : (c : ℕ) (reason : Reason) (s : Sdk) → Step s (recovery_elapsed c reason s)
  relay_over : (c : ℕ) (s : Sdk) → Step s (relay_restore_over c s)
  monitored : (c : ℕ) (s : Sdk) → Step s (start_ping_monitoring c s)
  ticked : (c : ℕ) (s : Sdk) → Step s (ping_ticked c s)
  pinged : (uuid : String) (s : Sdk) → Step s (send_ping uuid s).1
  viewed : (stream_id : String) (s : Sdk) → Step s (track_pending stream_id s)
  hashed :
      (stream_id : String) (options : ℕ) (waiter : Option ℕ) (s : Sdk)
      → Step s (view_hashed stream_id options waiter s)
  polled :
      (stream_id : String) (interval timeout : ℕ) (s : Sdk)
      → Step s (poll_view stream_id interval timeout s)
  view_late :
      (stream_id : String) (options interval : ℕ) (waiter : Option ℕ) (s : Sdk)
      → Step s (view_timed_out stream_id options interval waiter s)
  view_again :
      (stream_id : String) (options : ℕ) (s : Sdk) → Step s (retry_pending_view stream_id options s)
  failed_again : (stream_id : String) (a : ℕ) (s : Sdk) → Step s (retry_fired stream_id a s)
  stopped : (stream_id : String) (s : Sdk) → Step s (stop_viewing stream_id s)
  stop_flushed : (stream_id : String) (s : Sdk) → Step s (stop_viewing_flushed stream_id s)
  left : (uuid : String) (s : Sdk) → Step s (handle_user_left uuid s)
  hung_up : (uuid : String) (s : Sdk) → Step s (handle_hangup uuid s)
  said_bye : (uuid : String) (s : Sdk) → Step s (handle_bye uuid s)
  connecting : (s : Sdk) → Step s (connect s)
  opened : (s : Sdk) → Step s (socket_opened s)
  closed : (s : Sdk) → Step s (socket_closed s)
  settled : (success : Bool) (s : Sdk) → Step s (reconnect_settled success s)
  disconnecting : (s : Sdk) → Step s (disconnect s)
  disconnected : (s : Sdk) → Step s (disconnect_flushed s)
  publishing_left : (s : Sdk) → Step s (say_stopped_each s.connections s)
  publishing_over : (s : Sdk) → Step s (stop_each s.connections s)
  sent : (m : Message) (target : Target) (s : Sdk) → Step s (send_data m target s).sdk

-- The states of an instance that starts with no connection.
pub data Reach : Sdk → Type 0 where
  start : (s : Sdk) → s.connections ≡ [] → Reach s
  next : {s t : Sdk} → Reach s → Step s t → Reach t
