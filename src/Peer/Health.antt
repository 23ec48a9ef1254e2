-- ===== src/Peer/Health.antt =====
-- `_handlePeerConnectionState` and the callbacks of the grace, connect and recovery timers.
pub mod Connected
use ninja_vst3_plugin.Prelude.{
  ℕ, suc, ◌+◌, String, Bool, true, false, not, ◌&&◌, ◌||◌, Option, none, some, List, [], ◌∷◌, ◌++◌,
  ltb, ◌==◌, if◌then◌else◌,
}
use ninja_vst3_plugin.Prelude.Table.{get, set, delete}
use ninja_vst3_plugin.Peer.Types.{
  Kind, viewer, publisher, PeerState, IceState, Health, PeerConnection, Connection, StreamState,
  FailedView, Reason, state_failed, state_disconnected, connect_timeout, relayed, timed_out, Phase,
  direct, relay, Sdk, Suspended, recovering_with, ice_restart_request, grace_over, recovery_over,
  retry_view, peer_connected, peer_disconnected, connection_recovered, connection_recovering,
  connection_failed, ice_restart, direction_state,
}
use ninja_vst3_plugin.Peer.State.{
  update, modify, emit, arm, disarm, is_current, clear_recovery_timers, stop_ping_monitoring,
  close_pc, set_tracked_stream_state, remove_side, suspend, send, has_open_channel, channel_sends,
}
use ninja_vst3_plugin.Peer.Relay.{escalate_to_relay, schedule_relay_restore}
use ninja_vst3_plugin.Peer.View.{forget_failed_view}
use ninja_vst3_plugin.Peer.Recovery.{recover_connection}

-- The one state made of the two; all that are not acted upon are `other`.
pub data Observed : Type 0 where
  failed disconnected connected other : Observed

abbrev pub peer_is_failed : PeerState → Bool
peer_is_failed PeerState.failed = true
peer_is_failed _ = false

abbrev pub ice_is_failed : IceState → Bool
ice_is_failed IceState.failed = true
ice_is_failed _ = false

abbrev pub peer_is_disconnected : PeerState → Bool
peer_is_disconnected PeerState.disconnected = true
peer_is_disconnected _ = false

abbrev pub ice_is_disconnected : IceState → Bool
ice_is_disconnected IceState.disconnected = true
ice_is_disconnected _ = false

abbrev pub peer_is_connected : PeerState → Bool
peer_is_connected PeerState.connected = true
peer_is_connected _ = false

-- Connected or completed.
abbrev pub ice_is_connected : IceState → Bool
ice_is_connected IceState.connected = true
ice_is_connected IceState.completed = true
ice_is_connected _ = false

abbrev pub is_up : PeerConnection → Bool
is_up pc = peer_is_connected pc.peer_state || ice_is_connected pc.ice_state

unfoldable pub observe : PeerConnection → Observed
observe pc =
    if peer_is_failed pc.peer_state || ice_is_failed pc.ice_state
    then failed
    else if peer_is_disconnected pc.peer_state || ice_is_disconnected pc.ice_state
    then disconnected
    else if is_up pc
    then connected
    else other

abbrev pub is_recovering : Health → Bool
is_recovering Health.recovering = true
is_recovering _ = false

-- The branch for a connected state, part by part.
unfoldable pub set_healthy : ℕ → Sdk → Sdk
set_healthy c s = set_tracked_stream_state c StreamState.connected (
    modify c
      (λ conn. record conn { health = Health.connected; recovering = false; recovery_stage = 0 })
      (clear_recovery_timers c s))

-- The first time a direction is connected.
unfoldable pub announce : ℕ → Bool → Kind → Sdk → Sdk
announce c emitted kind s =
    if emitted
    then s
    else emit (direction_state kind true c) (
        emit (peer_connected c)
          (modify c (λ conn. record conn { peer_connected_emitted = true }) s))

unfoldable pub tell_recovered : ℕ → Bool → Sdk → Sdk
tell_recovered c recovered s = if recovered then emit (connection_recovered c) s else s

unfoldable pub restore_later : ℕ → Bool → Sdk → Sdk
restore_later c escalated s = if escalated then schedule_relay_restore c s else s

unfoldable pub forget_recovered : Kind → Option String → Sdk → Sdk
forget_recovered publisher stream_id s = s
forget_recovered viewer none s = s
forget_recovered viewer (some stream_id) s = forget_failed_view stream_id s

unfoldable pub became_connected : ℕ → Sdk → Sdk
became_connected c s =
    let conn = s.objects c in
    let recovered = ltb 0 conn.recovery_stage || is_recovering conn.health in
    forget_recovered conn.kind conn.stream_id (
      restore_later c conn.relay_escalated (
        tell_recovered c recovered
          (announce c conn.peer_connected_emitted conn.kind (set_healthy c s))))

unfoldable pub arm_grace : ℕ → Option ℕ → Sdk → Sdk
arm_grace c (some timer) s = s
arm_grace c none s =
    modify c (λ conn. record conn { disconnect_timer = some s.next_id })
      (arm s.disconnect_grace_period (grace_over c) s)

unfoldable pub became_disconnected : ℕ → Sdk → Sdk
became_disconnected c s =
    let degraded =
      set_tracked_stream_state c StreamState.disconnected
        (modify c (λ conn. record conn { health = Health.degraded }) s) in
    arm_grace c (s.objects c).disconnect_timer degraded

unfoldable pub became_failed : ℕ → Sdk → Sdk
became_failed c s = recover_connection c state_failed (
    set_tracked_stream_state c StreamState.failed (
      modify c (λ conn. record conn { disconnect_timer = none })
        (disarm (s.objects c).disconnect_timer s)))

-- `_handlePeerConnectionState`
unfoldable pub handle_peer_connection_state : ℕ → Sdk → Sdk
handle_peer_connection_state c s =
    if not (is_current c s) || (s.objects c).finalized then s else elim (observe (s.objects c).pc) [
      | connected ↦ became_connected c s
      | disconnected ↦ became_disconnected c s
      | failed ↦ became_failed c s
      | other ↦ s
    ]

-- The callbacks of the grace, connect and recovery timers.
unfoldable pub grace_elapsed : ℕ → Sdk → Sdk
grace_elapsed c s =
    let fired = modify c (λ conn. record conn { disconnect_timer = none }) s in
    if not (is_current c fired) || is_up (fired.objects c).pc
    then fired
    else recover_connection c state_disconnected fired

unfoldable pub connect_elapsed : ℕ → Sdk → Sdk
connect_elapsed c s =
    let fired = modify c (λ conn. record conn { connect_timer = none }) s in
    if not (is_current c fired) || is_up (fired.objects c).pc
    then fired
    else recover_connection c connect_timeout fired

unfoldable pub recovery_elapsed : ℕ → Reason → Sdk → Sdk
recovery_elapsed c reason s =
    let fired = modify c (λ conn. record conn { recovery_timer = none; recovering = false }) s in
    if not (is_current c fired)
    then fired
    else if is_up (fired.objects c).pc
    then handle_peer_connection_state c fired
    else recover_connection c (timed_out reason) fired
