-- ===== src/Peer/Recovery/Progress.antt =====
-- Each call of `_recoverConnection` takes the direction one stage on or ends it.
use ninja_vst3_plugin.Prelude.{
  ℕ, zero, suc, ◌||◌, ◌≤◌, ◌≡◌, ◌⊎◌, inl, inr, Bool, true, false, not, arith, if_rule, ◌==◌,
}
use ninja_vst3_plugin.Peer.Types.{Connection, Reason, relayed, Phase, direct, relay, Sdk}
use ninja_vst3_plugin.Peer.State.{is_current, modify}
use ninja_vst3_plugin.Peer.Relay.{escalate_to_relay}
use ninja_vst3_plugin.Peer.Recovery.{
  Requested, settled, offering, thrown, request_ice_restart, await_restart, relay_phase, give_up,
  at_stage, direct_attempt, relay_attempt, attempt, mark_recovering, begin_recovery,
  recover_connection,
}
use ninja_vst3_plugin.Peer.Recovery.Failure.{IsOver, handle_connection_failed-IsOver}

-- A recovery is under way at the given stage.
pub record IsAt (n : ℕ) (conn : Connection) : Type 0 where
  pub stage : conn.recovery_stage ≡ n
  pub under_way : conn.recovering ≡ true
  pub alive : conn.finalized ≡ false

request_ice_restart_keeps :
    (c : ℕ) (reason : Reason) (n : ℕ) (s : Sdk)
    → IsAt n (s.objects c)
    → IsAt n ((request_ice_restart c reason s).1.objects c)
unfolding request_ice_restart
request_ice_restart_keeps c reason n s v = ground arith

await_restart_keeps :
    (c : ℕ) (reason : Reason) (phase : Phase) (n : ℕ) (r : Requested × Sdk)
    → IsAt n (r.1.objects c)
    → IsAt n ((await_restart c reason phase r).objects c)
await_restart_keeps c reason phase n (settled b, s) v = record {
  stage = v.stage;
  under_way = v.under_way;
  alive = v.alive;
}
await_restart_keeps c reason phase n (offering, s) v = record {
  stage = v.stage;
  under_way = v.under_way;
  alive = v.alive;
}
await_restart_keeps c reason phase n (thrown, s) v = v

escalate_to_relay_keeps :
    (c n : ℕ) (s : Sdk) → IsAt n (s.objects c) → IsAt n ((escalate_to_relay c s).1.objects c)
unfolding escalate_to_relay
escalate_to_relay_keeps c n s v = ground arith

give_up-IsOver :
    (c : ℕ) (reason : Reason) (s : Sdk)
    → (s.objects c).finalized ≡ false
    → IsOver ((give_up c reason s).objects c)
unfolding give_up
give_up-IsOver c reason s e =
    (handle_connection_failed-IsOver c reason
      (modify c (λ conn. record conn { recovering = false }) s) (ground arith)).0

relay_phase_progress :
    (c : ℕ) (reason : Reason) (n : ℕ) (r : Bool × Sdk)
    → IsAt n (r.1.objects c)
    → IsOver ((relay_phase c reason r).objects c) ⊎ IsAt n ((relay_phase c reason r).objects c)
unfolding relay_phase
relay_phase_progress c reason n (false, s) v = inl (give_up-IsOver c reason s v.alive)
relay_phase_progress c reason n (true, s) v = inr (
    await_restart_keeps c reason relay n (request_ice_restart c (relayed reason) s)
      (request_ice_restart_keeps c (relayed reason) n s v))

relay_attempt_progress :
    (c : ℕ) (reason : Reason) (n : ℕ) (s : Sdk)
    → IsAt n (s.objects c)
    → IsOver ((relay_attempt c reason s).objects c) ⊎ IsAt n ((relay_attempt c reason s).objects c)
unfolding relay_attempt
relay_attempt_progress c reason n s v =
    relay_phase_progress c reason n (escalate_to_relay c s) (escalate_to_relay_keeps c n s v)

direct_attempt_keeps :
    (c : ℕ) (reason : Reason) (n : ℕ) (s : Sdk)
    → IsAt n (s.objects c)
    → IsAt n ((direct_attempt c reason s).objects c)
unfolding direct_attempt
direct_attempt_keeps c reason n s v =
    await_restart_keeps c reason direct n (request_ice_restart c reason s)
      (request_ice_restart_keeps c reason n s v)

at_stage-IsAt : (c n k : ℕ) (s : Sdk) → IsAt k (s.objects c) → IsAt n ((at_stage c n s).objects c)
at_stage-IsAt c n k s v = record {
  stage = ground arith;
  under_way = ground arith;
  alive = ground arith;
}

-- Over, or at the next stage, which is the first or the second.
abbrev pub Advanced : ℕ → Connection → Type 0
Advanced n conn = IsOver conn ⊎ (IsAt (suc n) conn × (suc n ≤ 2))

second_lem : {conn : Connection} → IsOver conn ⊎ IsAt 2 conn → Advanced 1 conn
second_lem (inl o) = inl o
second_lem (inr a) = inr (a, omega arith)

attempt_progress :
    (c : ℕ) (reason : Reason) (n : ℕ) (s : Sdk)
    → IsAt n (s.objects c)
    → Advanced n ((attempt c reason n s).objects c)
unfolding attempt
attempt_progress c reason zero s v =
    inr (direct_attempt_keeps c reason 1 (at_stage c 1 s) (at_stage-IsAt c 1 0 s v), omega arith)
attempt_progress c reason (suc zero) s v =
    if_rule (λ (t : Sdk). Advanced 1 (t.objects c)) s.auto_relay
      (λ _.
        second_lem (relay_attempt_progress c reason 2 (at_stage c 2 s) (at_stage-IsAt c 2 1 s v)))
      (λ _. inl (give_up-IsOver c reason s v.alive))
attempt_progress c reason (suc (suc n)) s v =
    let not_zero : (suc (suc n) == 0) ≡ false = ground arith in
    let not_one : (suc (suc n) == 1) ≡ false = ground arith in
    rw (not_zero, not_one) (inl (give_up-IsOver c reason s v.alive))

mark_recovering-IsAt :
    (c : ℕ) (s : Sdk)
    → (s.objects c).finalized ≡ false
    → IsAt (s.objects c).recovery_stage ((mark_recovering c s).objects c)
unfolding mark_recovering
mark_recovering-IsAt c s e = record {
  stage = ground arith;
  under_way = ground arith;
  alive = ground arith;
}

-- A call for a current direction that is neither over nor recovering ends it or begins the next of
-- two stages: an ICE restart, then one over the relays.
pub recover_connection_progress :
    (c : ℕ) (reason : Reason) (s : Sdk)
    → is_current c s ≡ true
    → (s.objects c).finalized ≡ false
    → (s.objects c).recovering ≡ false
    → Advanced (s.objects c).recovery_stage ((recover_connection c reason s).objects c)
unfolding recover_connection begin_recovery
recover_connection_progress c reason s current alive idle =
    rw (current, alive, idle)
      (if_rule (λ (t : Sdk). Advanced (s.objects c).recovery_stage (t.objects c))
        (not s.auto_recover || s.intentional_disconnect)
        (λ _. inl (handle_connection_failed-IsOver c reason s alive).0)
        (λ _.
          attempt_progress c reason (s.objects c).recovery_stage (mark_recovering c s)
            (mark_recovering-IsAt c s alive)))
