-- ===== src/Peer/Recovery.antt =====
-- `_requestConnectionICERestart`, `_recoverConnection`, `_handleConnectionFailed`: the two
-- attempts to recover one direction to a peer, and its end.
pub mod Failure
pub mod Progress
pub mod Kept
use ninja_vst3_plugin.Prelude.{
  ℕ, suc, ◌+◌, String, Bool, true, false, not, ◌&&◌, ◌||◌, Option, none, some, List, [], ◌∷◌, ◌++◌,
  ltb, ◌==◌, if◌then◌else◌,
}
use ninja_vst3_plugin.Prelude.Table.{get, set, delete}
use ninja_vst3_plugin.Peer.Types.{
  Kind, viewer, publisher, PeerState, IceState, Health, PeerConnection, Connection, StreamState,
  FailedView, Reason, state_failed, state_disconnected, connect_timeout, relayed, timed_out, Phase,
  direct, relay, Sdk, Suspended, recovering_with, ice_restart_request, grace_over, recovery_over,
  retry_view, peer_connected, peer_disconnected, connection_recovered, connection_recovering,
  connection_failed, ice_restart, direction_state,
}
use ninja_vst3_plugin.Peer.State.{
  update, modify, emit, arm, disarm, is_current, clear_recovery_timers, stop_ping_monitoring,
  close_pc, set_tracked_stream_state, remove_side, suspend, send, has_open_channel, channel_sends,
}
use ninja_vst3_plugin.Peer.Relay.{escalate_to_relay, schedule_relay_restore}
use ninja_vst3_plugin.Peer.View.{forget_failed_view}

-- `_handleConnectionFailed`: the record of the failed view and its timer. The new record's address
-- is `s.next_failed`, and the old record's timer is cleared.
abbrev pub previous_timer : Option ℕ → (ℕ → FailedView) → Option ℕ
previous_timer none objects = none
previous_timer (some a) objects = (objects a).timer

abbrev pub previous_count : Option ℕ → (ℕ → FailedView) → ℕ
previous_count none objects = 0
previous_count (some a) objects = (objects a).retry_count

unfoldable pub remember_failed_view : ℕ → String → ℕ → Sdk → Sdk
remember_failed_view c stream_id view_intent s =
    let previous = get stream_id s.failed_views in
    let cleared = disarm (previous_timer previous s.failed_objects) s in
    let a = s.next_failed in
    let armed = arm 2000 (retry_view stream_id a) cleared in
    record armed {
      failed_objects = update s.failed_objects a (record {
        uuid = (s.objects c).uuid;
        view_options = view_intent;
        retry_count = previous_count previous s.failed_objects;
        last_retry = s.now;
        timer = some s.next_id;
      });
      next_failed = suc a;
      failed_views = set stream_id a s.failed_views;
    }

-- Only a viewer's stream that is still wanted is asked for again.
unfoldable pub keep_for_retry : ℕ → Sdk → Sdk
keep_for_retry c s = elim (s.objects c).kind [
  | publisher ↦ s
  | viewer ↦ elim (s.objects c).stream_id [
    | none ↦ s
    | some stream_id ↦ elim (get stream_id s.view_intents) [
      | none ↦ s
      | some view_intent ↦
          if s.intentional_disconnect then s else remember_failed_view c stream_id view_intent s
    ]
  ]
]

-- The end of a direction: no timers, no pings, a closed connection.
unfoldable pub finalize : ℕ → Sdk → Sdk
finalize c s = close_pc c (
    stop_ping_monitoring c
      (clear_recovery_timers c (modify c (λ conn. record conn { finalized = true }) s)))

-- `_handleConnectionFailed`
unfoldable pub handle_connection_failed : ℕ → Reason → Sdk → Sdk
handle_connection_failed c reason s =
    if (s.objects c).finalized
    then s
    else emit (connection_failed c reason) (
        remove_side (s.objects c).uuid (s.objects c).kind (
          keep_for_retry c (
            emit (direction_state (s.objects c).kind false c)
              (emit (peer_disconnected c) (finalize c s)))))

-- `_requestConnectionICERestart` up to its result: settled, or awaiting the publisher's offer, or an
-- exception of `send`.
pub data Requested : Type 0 where
  settled : Bool → Requested
  offering : Requested
  thrown : Requested

unfoldable pub request_ice_restart : ℕ → Reason → Sdk → Requested × Sdk
request_ice_restart c reason s = elim (s.objects c).kind [
  | publisher ↦ (offering, s)
  | viewer ↦
      if not (has_open_channel (s.objects c))
      then (settled false, s)
      else if channel_sends (s.objects c)
      then (settled true, emit (ice_restart c reason) (send c ice_restart_request s))
      else (thrown, s)
]

-- The end of `_recoverConnection` when no restart was started.
unfoldable pub give_up : ℕ → Reason → Sdk → Sdk
give_up c reason s =
    handle_connection_failed c reason (modify c (λ conn. record conn { recovering = false }) s)

-- `_recoverConnection` at its `await`. An exception ends it.
abbrev pub await_restart : ℕ → Reason → Phase → Requested × Sdk → Sdk
await_restart c reason phase (settled started, s) =
    suspend (recovering_with c reason phase (some started)) s
await_restart c reason phase (offering, s) = suspend (recovering_with c reason phase none) s
await_restart c reason phase (thrown, s) = s

-- `none` is an ICE restart over the relays that cannot begin.
unfoldable pub relay_phase : ℕ → Reason → Bool × Sdk → Sdk
relay_phase c reason (false, s) = give_up c reason s
relay_phase c reason (true, s) =
    await_restart c reason relay (request_ice_restart c (relayed reason) s)

abbrev pub at_stage : ℕ → ℕ → Sdk → Sdk
at_stage c n s = modify c (λ conn. record conn { recovery_stage = n }) s

unfoldable pub direct_attempt : ℕ → Reason → Sdk → Sdk
direct_attempt c reason s = await_restart c reason direct (request_ice_restart c reason s)

-- `s` is the state in which the stage has been entered.
unfoldable pub relay_attempt : ℕ → Reason → Sdk → Sdk
relay_attempt c reason s = relay_phase c reason (escalate_to_relay c s)

-- What the stage reached so far still allows.
unfoldable pub attempt : ℕ → Reason → ℕ → Sdk → Sdk
attempt c reason stage s =
    if stage == 0
    then direct_attempt c reason (at_stage c 1 s)
    else if stage == 1 && s.auto_relay
    then relay_attempt c reason (at_stage c 2 s)
    else give_up c reason s

unfoldable pub mark_recovering : ℕ → Sdk → Sdk
mark_recovering c s =
    modify c
      (λ conn. record conn { recovering = true; health = Health.recovering; recovery_timer = none })
      (disarm (s.objects c).recovery_timer s)

-- From `connection.recovering = true` to the first `await`.
unfoldable pub begin_recovery : ℕ → Reason → Sdk → Sdk
begin_recovery c reason s = attempt c reason (s.objects c).recovery_stage (mark_recovering c s)

-- `_recoverConnection` up to its first `await`.
unfoldable pub recover_connection : ℕ → Reason → Sdk → Sdk
recover_connection c reason s =
    if not (is_current c s) || (s.objects c).finalized || (s.objects c).recovering
    then s
    else if not s.auto_recover || s.intentional_disconnect
    then handle_connection_failed c reason s
    else begin_recovery c reason s

-- The rest of it, once the restart has started or not.
unfoldable pub recovery_resumed : ℕ → Reason → Phase → Bool → Sdk → Sdk
recovery_resumed c reason phase false s = give_up c reason s
recovery_resumed c reason phase true s =
    modify c (λ conn. record conn { recovery_timer = some s.next_id })
      (arm s.recovery_timeout (recovery_over c reason)
        (emit (connection_recovering c reason phase (s.objects c).recovery_stage) s))
