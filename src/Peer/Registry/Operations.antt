-- ===== src/Peer/Registry/Operations.antt =====
-- How each operation lets the table evolve.
use mathlib.Core.Path.{subst}
use ninja_vst3_plugin.Prelude.{
  ◌&&◌, ◌||◌, not, ltb, ◌==◌, sym, ℕ, ◌≡◌, refl, Bool, true, false, none, Bool-cases, inl, inr,
  arith, if_rule,
}
use ninja_vst3_plugin.Peer.Types.{Sdk, Reason, Phase, relay, relayed, StreamState, state_failed}
use ninja_vst3_plugin.Peer.State.{modify, disarm, set_tracked_stream_state, is_current}
use ninja_vst3_plugin.Peer.Registry.{
  IsCalm, IsCalm-refl, IsCalm-trans, Ends, Evolves, calm, ends, after,
}
use ninja_vst3_plugin.Peer.Recovery.{
  finalize, keep_for_retry, remember_failed_view, handle_connection_failed, give_up, await_restart,
  request_ice_restart, relay_phase, relay_attempt, at_stage, attempt, mark_recovering,
  begin_recovery, recover_connection, recovery_resumed,
}
use ninja_vst3_plugin.Peer.Health.{
  is_recovering, set_healthy, announce, tell_recovered, restore_later, became_connected,
  became_disconnected, became_failed, observe, Observed, handle_peer_connection_state,
}
use ninja_vst3_plugin.Peer.Relay.{escalate_to_relay}
use ninja_vst3_plugin.Peer.Registry.Calm.{
  escalate_to_relay-IsCalm, direct_attempt-IsCalm, mark_recovering-IsCalm, set_healthy-IsCalm,
  announce-IsCalm, tell_recovered-IsCalm, restore_later-IsCalm, forget_recovered-IsCalm,
  became_disconnected-IsCalm,
}
use ninja_vst3_plugin.Peer.Recovery.Failure.{failed_state_lem, finalize_frame, finalize_other}

handle_connection_failed_next :
    (c : ℕ) (reason : Reason) (s : Sdk)
    → (handle_connection_failed c reason s).next_object ≡ s.next_object
unfolding handle_connection_failed keep_for_retry remember_failed_view finalize
handle_connection_failed_next c reason s = ground arith

handle_connection_failed-Ends :
    (c : ℕ) (reason : Reason) (s : Sdk)
    → (s.objects c).finalized ≡ false
    → Ends c s (handle_connection_failed c reason s)
handle_connection_failed-Ends c reason s alive =
    let (objects, connections) = failed_state_lem c reason s alive in
    record {
      connections = connections;
      next = handle_connection_failed_next c reason s;
      itself = (let (_, u, k) = finalize_frame c s in rw objects (u, k));
      others = λ d ne. rw (objects, finalize_other c d s ne) (refl, refl, refl);
    }

finalized_lem :
    (c : ℕ) (reason : Reason) (s : Sdk)
    → (s.objects c).finalized ≡ true
    → handle_connection_failed c reason s ≡ s
unfolding handle_connection_failed
finalized_lem c reason s over = rw over refl

pub handle_connection_failed-Evolves :
    (c : ℕ) (reason : Reason) (s : Sdk) → Evolves s (handle_connection_failed c reason s)
handle_connection_failed-Evolves c reason s = elim (Bool-cases (s.objects c).finalized) [
  | inl over ↦ subst (Evolves s) (sym (finalized_lem c reason s over)) (calm (IsCalm-refl s))
  | inr alive ↦ ends c (handle_connection_failed-Ends c reason s alive)
]

pub give_up-Evolves : (c : ℕ) (reason : Reason) (s : Sdk) → Evolves s (give_up c reason s)
unfolding give_up
give_up-Evolves c reason s =
    let idle = modify c (λ conn. record conn { recovering = false }) s in
    after (calm (let quiet : IsCalm s idle = ground arith in quiet))
      (handle_connection_failed-Evolves c reason idle)

requested-IsCalm :
    (c : ℕ) (reason told : Reason) (phase : Phase) (s : Sdk)
    → IsCalm s (await_restart c reason phase (request_ice_restart c told s))
unfolding request_ice_restart
requested-IsCalm c reason told phase s = ground arith

relay_phase-Evolves :
    (c : ℕ) (reason : Reason) (tried : Bool × Sdk) → Evolves tried.1 (relay_phase c reason tried)
unfolding relay_phase
relay_phase-Evolves c reason (false, t) = give_up-Evolves c reason t
relay_phase-Evolves c reason (true, t) = calm (requested-IsCalm c reason (relayed reason) relay t)

relay_attempt-Evolves : (c : ℕ) (reason : Reason) (s : Sdk) → Evolves s (relay_attempt c reason s)
unfolding relay_attempt
relay_attempt-Evolves c reason s =
    after (calm (escalate_to_relay-IsCalm c s))
      (relay_phase-Evolves c reason (escalate_to_relay c s))

at_stage-IsCalm : (c n : ℕ) (s : Sdk) → IsCalm s (at_stage c n s)
at_stage-IsCalm c n s = ground arith

attempt-Evolves :
    (c : ℕ) (reason : Reason) (stage : ℕ) (s : Sdk) → Evolves s (attempt c reason stage s)
unfolding attempt
attempt-Evolves c reason stage s =
    if_rule (Evolves s) (stage == 0)
      (λ _.
        after (calm (at_stage-IsCalm c 1 s))
          (calm (direct_attempt-IsCalm c reason (at_stage c 1 s))))
      (λ _.
        if_rule (Evolves s) (stage == 1 && s.auto_relay)
          (λ _.
            after (calm (at_stage-IsCalm c 2 s)) (relay_attempt-Evolves c reason (at_stage c 2 s)))
          (λ _. give_up-Evolves c reason s))

begin_recovery-Evolves : (c : ℕ) (reason : Reason) (s : Sdk) → Evolves s (begin_recovery c reason s)
unfolding begin_recovery
begin_recovery-Evolves c reason s =
    after (calm (mark_recovering-IsCalm c s))
      (attempt-Evolves c reason (s.objects c).recovery_stage (mark_recovering c s))

pub recover_connection-Evolves :
    (c : ℕ) (reason : Reason) (s : Sdk) → Evolves s (recover_connection c reason s)
unfolding recover_connection
recover_connection-Evolves c reason s =
    if_rule (Evolves s)
      (not (is_current c s) || (s.objects c).finalized || (s.objects c).recovering)
      (λ _. calm (IsCalm-refl s))
      (λ _.
        if_rule (Evolves s) (not s.auto_recover || s.intentional_disconnect)
          (λ _. handle_connection_failed-Evolves c reason s)
          (λ _. begin_recovery-Evolves c reason s))

pub recovery_resumed-Evolves :
    (c : ℕ) (reason : Reason) (phase : Phase) (started : Bool) (s : Sdk)
    → Evolves s (recovery_resumed c reason phase started s)
unfolding recovery_resumed
recovery_resumed-Evolves c reason phase false s = give_up-Evolves c reason s
recovery_resumed-Evolves c reason phase true s = calm (ground arith)

pub became_connected-IsCalm : (c : ℕ) (s : Sdk) → IsCalm s (became_connected c s)
unfolding became_connected
became_connected-IsCalm c s =
    let conn = s.objects c in
    let recovered = ltb 0 conn.recovery_stage || is_recovering conn.health in
    let healthy = set_healthy c s in
    let announced = announce c conn.peer_connected_emitted conn.kind healthy in
    let told = tell_recovered c recovered announced in
    let later = restore_later c conn.relay_escalated told in
    IsCalm-trans (set_healthy-IsCalm c s) (
      IsCalm-trans (announce-IsCalm c conn.peer_connected_emitted conn.kind healthy) (
        IsCalm-trans (tell_recovered-IsCalm c recovered announced) (
          IsCalm-trans (restore_later-IsCalm c conn.relay_escalated told)
            (forget_recovered-IsCalm conn.kind conn.stream_id later))))

became_failed-Evolves : (c : ℕ) (s : Sdk) → Evolves s (became_failed c s)
unfolding became_failed
became_failed-Evolves c s =
    let marked = set_tracked_stream_state c StreamState.failed (
      modify c (λ conn. record conn { disconnect_timer = none })
        (disarm (s.objects c).disconnect_timer s)) in
    after (calm (let quiet : IsCalm s marked = ground arith in quiet))
      (recover_connection-Evolves c state_failed marked)

pub handle_peer_connection_state-Evolves :
    (c : ℕ) (s : Sdk) → Evolves s (handle_peer_connection_state c s)
unfolding handle_peer_connection_state
handle_peer_connection_state-Evolves c s =
    if_rule (Evolves s) (not (is_current c s) || (s.objects c).finalized)
      (λ _. calm (IsCalm-refl s))
      (λ _.
        elim (observe (s.objects c).pc)
          as (λ o. Evolves s (elim o [
            | Observed.connected ↦ became_connected c s
            | Observed.disconnected ↦ became_disconnected c s
            | Observed.failed ↦ became_failed c s
            | Observed.other ↦ s
          ])) [
            | Observed.connected ↦ calm (became_connected-IsCalm c s)
            | Observed.disconnected ↦ calm (became_disconnected-IsCalm c s)
            | Observed.failed ↦ became_failed-Evolves c s
            | Observed.other ↦ calm (IsCalm-refl s)
          ])
