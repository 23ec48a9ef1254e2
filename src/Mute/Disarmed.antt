-- ===== src/Mute/Disarmed.antt =====
-- Clearing the monitors disarms the timers of the finalizers.
use ninja_vst3_plugin.Prelude.{
  ℕ, true, false, none, Bool-cases, List, [], ◌∷◌, ◌==◌, ◌≡◌, inl, inr, refl, arith, if_rule,
}
use ninja_vst3_plugin.Mute.State.{Monitors, finish}
use ninja_vst3_plugin.Mute.{monitored, clear_all, flush, flush_each, flush_all, act}
use ninja_vst3_plugin.Mute.Finalizers.{
  is_pending, IsTracked, Calms, Calms-trans, alter-Calms, act-Calms, flush-Calms, flush_each-Calms,
  unmonitor_each-Calms,
}

finish-disarmed : (f : ℕ) (s : Monitors) → ((finish f s).finalizers f).is_armed ≡ false
unfolding finish
finish-disarmed f s = ground arith

flush-disarmed : (f : ℕ) (s : Monitors) → IsTracked s → ((flush f s).finalizers f).is_armed ≡ false
unfolding flush
flush-disarmed f s h =
    let x = s.finalizers f in
    let later =
      Calms-trans (act-Calms x (finish f s))
        (alter-Calms x.monitor (λ y. record y { pending_finalizer = none }) (act x (finish f s))) in
    if_rule (λ (r : Monitors). (r.finalizers f).is_armed ≡ false) x.finished
      (λ over. ground (arith, over, h.unfinished f))
      (λ _. ground (arith, later.armed f, finish-disarmed f s))

-- What is flushed has no timer any more.
flush_each-disarmed :
    (f : ℕ) (fs : List ℕ) (s : Monitors)
    → IsTracked s
    → is_pending f fs ≡ true
    → ((flush_each fs s).finalizers f).is_armed ≡ false
unfolding flush_each
flush_each-disarmed f [] s h here = absurd (ground arith)
flush_each-disarmed f (g ∷ fs) s h here = elim (Bool-cases (g == f)) [
  | inl e ↦
      let same_one : g ≡ f = ground arith in
      ground (arith, same_one, flush-disarmed f s h, (flush_each-Calms fs (flush g s)).armed f)
  | inr ne ↦ flush_each-disarmed f fs (flush g s) ((flush-Calms g s).tracked h) (ground arith)
]

flush_all-disarmed :
    (f : ℕ) (s : Monitors) → IsTracked s → ((flush_all s).finalizers f).is_armed ≡ false
unfolding flush_all
flush_all-disarmed f s h = elim (Bool-cases ((flush_all s).finalizers f).is_armed) [
  | inr idle ↦ idle
  | inl armed ↦
      let before = (flush_each-Calms s.pending s).armed f armed in
      flush_each-disarmed f s.pending s h (h.pends f before)
]

Calms-disarmed :
    {s r : Monitors} (f : ℕ)
    → Calms s r
    → (s.finalizers f).is_armed ≡ false
    → (r.finalizers f).is_armed ≡ false
Calms-disarmed {s} {r} f k idle = elim (Bool-cases (r.finalizers f).is_armed) [
  | inr still ↦ still
  | inl armed ↦ absurd (ground (arith, k.armed f armed, idle))
]

clear_all-disarmed_lem :
    (f : ℕ) (s : Monitors) (entries : List (ℕ × ℕ))
    → s.monitors ≡ entries
    → IsTracked s
    → ((clear_all s).finalizers f).is_armed ≡ false
unfolding clear_all
clear_all-disarmed_lem f s [] same_list h = rw (clear_all, same_list) (flush_all-disarmed f s h)
clear_all-disarmed_lem f s (entry ∷ rest) same_list h =
    let settled = flush_all s in
    rw (clear_all, same_list)
      (Calms-disarmed f (unmonitor_each-Calms (monitored settled.monitors) settled)
        (flush_all-disarmed f s h))

-- Where the armed timers are tracked, clearing all monitors leaves no finalizer's timer armed.
pub clear_all-disarmed :
    (f : ℕ) (s : Monitors) → IsTracked s → ((clear_all s).finalizers f).is_armed ≡ false
clear_all-disarmed f s h = clear_all-disarmed_lem f s s.monitors refl h
