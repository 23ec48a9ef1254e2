-- ===== src/Mute/Held.antt =====
-- A monitored track stays monitored until it is given back.
use ninja_vst3_plugin.Prelude.{
  ℕ, Bool, true, false, not, ◌&&◌, Option, none, some, Option-cases, Bool-cases, List, [], ◌∷◌,
  ◌==◌, ◌≡◌, ◌≢◌, ◌⊎◌, inl, inr, refl, sym, ap, ◌∙◌, arith, if_rule,
}
use ninja_vst3_plugin.Mute.State.{
  Cause, Action, evaluate, report, Finalizer, Monitors, monitor_of, forget, alter,
  is_effectively_muted, send_muted_state, broadcast, finish, set_finalizer, cancel, cancel_of,
}
use ninja_vst3_plugin.Mute.{
  same, dispatch, unmonitor, unmonitor_each, skip_send, send_final, given_back, clean_up, flush,
  flush_each, act,
}
use ninja_vst3_plugin.Mute.Stops.{IsRestored, unmonitor_lem}

-- The track `t` is still monitored by `m`, or `m` has given it back.
abbrev pub IsHeld : ℕ → ℕ → Monitors → Type 0
IsHeld t m s = (monitor_of t s.monitors ≡ some m) ⊎ IsRestored (s.objects m)

pub forget-monitor_of_other :
    (t u : ℕ) (l : List (ℕ × ℕ)) → t ≢ u → monitor_of t (forget u l) ≡ monitor_of t l
unfolding monitor_of forget
forget-monitor_of_other t u [] ne = refl
forget-monitor_of_other t u ((v, m) ∷ rest) ne =
    ground (arith, ne, forget-monitor_of_other t u rest ne)

-- What leaves the listed tracks, and what was given back, as they are.
record Keeps (s r : Monitors) : Type 0 where
  pub entries : r.monitors ≡ s.monitors
  pub back : (m : ℕ) → IsRestored (s.objects m) → IsRestored (r.objects m)

Keeps-trans : {s t u : Monitors} → Keeps s t → Keeps t u → Keeps s u
Keeps-trans a b = record { entries = b.entries ∙ a.entries; back = λ m h. b.back m (a.back m h) }

Keeps-IsHeld : {s r : Monitors} (t m : ℕ) → Keeps s r → IsHeld t m s → IsHeld t m r
Keeps-IsHeld t m k (inl listed) = inl (rw k.entries listed)
Keeps-IsHeld t m k (inr back) = inr (k.back m back)

set_finalizer-Keeps : (m : ℕ) (f : Option ℕ) (s : Monitors) → Keeps s (set_finalizer m f s)
set_finalizer-Keeps m f s = record {
  entries = refl;
  back = λ n h. ground (arith, h.enabled, h.stop, h.poller, h.listeners);
}

cancel_of-Keeps : (m : ℕ) (s : Monitors) → Keeps s (cancel_of m s)
unfolding cancel_of cancel finish
cancel_of-Keeps m s = record {
  entries = ground arith;
  back = λ n h. ground (arith, h.enabled, h.stop, h.poller, h.listeners);
}

broadcast-Keeps :
    (t : ℕ) (muted : Bool) (cause : Cause) (s : Monitors) → Keeps s (broadcast t muted cause s)
unfolding broadcast send_muted_state
broadcast-Keeps t muted cause s = record {
  entries = ground arith;
  back = λ n h. ground (arith, h.enabled, h.stop, h.poller, h.listeners);
}

forget_absent : (t : ℕ) (l : List (ℕ × ℕ)) → monitor_of t l ≡ none → forget t l ≡ l
unfolding monitor_of forget
forget_absent t [] absent = refl
forget_absent t ((u, m) ∷ rest) absent = ground (arith, absent, forget_absent t rest)

-- Giving back the track of `n`.
give_back-Keeps :
    (n t : ℕ) (s : Monitors) → Keeps s (record (alter n given_back s) { monitors = s.monitors })
give_back-Keeps n t s = record {
  entries = refl;
  back = λ m h. ground (arith, h.enabled, h.stop, h.poller, h.listeners);
}

-- Ending the monitoring of one track, in one of its two cases.
pub unmonitor-cases :
    (t : ℕ) (s : Monitors)
    → ((unmonitor t skip_send s).monitors ≡ forget t s.monitors)
      × ((m : ℕ) → IsRestored (s.objects m) → IsRestored ((unmonitor t skip_send s).objects m))
unfolding unmonitor send_final
unmonitor-cases t s = elim (Option-cases (monitor_of t s.monitors)) [
  | inl absent ↦ rw (unmonitor, absent) (sym (forget_absent t s.monitors absent), λ m h. h)
  | inr (n, listed) ↦
      let k = Keeps-trans (cancel_of-Keeps n s) (give_back-Keeps n t (cancel_of n s)) in
      rw (unmonitor, listed) (ap (forget t) (cancel_of-Keeps n s).entries, k.back)
]

unmonitor-IsHeld : (u t m : ℕ) (s : Monitors) → IsHeld t m s → IsHeld t m (unmonitor u skip_send s)
unmonitor-IsHeld u t m s (inr back) = inr ((unmonitor-cases u s).1 m back)
unmonitor-IsHeld u t m s (inl listed) = elim (Bool-cases (t == u)) [
  | inl e ↦
      let same_one : t ≡ u = ground arith in inr (unmonitor_lem u m s (rw (← same_one) listed)).1
  | inr ne ↦ inl (
      ap (monitor_of t) (unmonitor-cases u s).0
      ∙ (forget-monitor_of_other t u s.monitors (ground arith) ∙ listed))
]

clean_up-IsHeld :
    (cleanup : Bool) (u t m : ℕ) (s : Monitors) → IsHeld t m s → IsHeld t m (clean_up cleanup u s)
clean_up-IsHeld true u t m s h = unmonitor-IsHeld u t m s h
clean_up-IsHeld false u t m s h = h

set_last-Keeps :
    (n : ℕ) (b : Bool) (s : Monitors) → Keeps s (alter n (λ x. record x { last_state = b }) s)
set_last-Keeps n b s = record {
  entries = refl;
  back = λ m h. ground (arith, h.enabled, h.stop, h.poller, h.listeners);
}

dispatch-IsHeld :
    (n t m : ℕ) (force cleanup : Bool) (cause : Cause) (s : Monitors)
    → IsHeld t m s
    → IsHeld t m (dispatch n force cleanup cause s)
unfolding dispatch
dispatch-IsHeld n t m force cleanup cause s h =
    let u = (s.objects n).track in
    let now = is_effectively_muted (s.tracks u) in
    let idle = set_finalizer n none s in
    let noted = alter n (λ x. record x { last_state = now }) idle in
    let quiet = Keeps-trans (set_finalizer-Keeps n none s) (set_last-Keeps n now idle) in
    if_rule (IsHeld t m) (not force && same now (s.objects n).last_state)
      (λ _. clean_up-IsHeld cleanup u t m idle (Keeps-IsHeld t m (set_finalizer-Keeps n none s) h))
      (λ _.
        clean_up-IsHeld cleanup u t m (broadcast u now cause noted)
          (Keeps-IsHeld t m (Keeps-trans quiet (broadcast-Keeps u now cause noted)) h))

act-IsHeld : (x : Finalizer) (t m : ℕ) (s : Monitors) → IsHeld t m s → IsHeld t m (act x s)
unfolding act
act-IsHeld x t m s h =
    elim x.action
      as (λ (a : Action). IsHeld t m (elim a [
        | evaluate force cleanup cause ↦ dispatch x.monitor force cleanup cause s
        | report muted cause ↦ broadcast (s.objects x.monitor).track muted cause s
      ])) [
        | evaluate force cleanup cause ↦ dispatch-IsHeld x.monitor t m force cleanup cause s h
        | report muted cause ↦
            Keeps-IsHeld t m (broadcast-Keeps (s.objects x.monitor).track muted cause s) h
      ]

finish-Keeps : (f : ℕ) (s : Monitors) → Keeps s (finish f s)
unfolding finish
finish-Keeps f s = record { entries = refl; back = λ m h. h }

flush-IsHeld : (f t m : ℕ) (s : Monitors) → IsHeld t m s → IsHeld t m (flush f s)
unfolding flush
flush-IsHeld f t m s h =
    let x = s.finalizers f in
    if_rule (IsHeld t m) x.finished (λ _. h)
      (λ _.
        Keeps-IsHeld t m (set_finalizer-Keeps x.monitor none (act x (finish f s)))
          (act-IsHeld x t m (finish f s) (Keeps-IsHeld t m (finish-Keeps f s) h)))

pub flush_each-IsHeld :
    (fs : List ℕ) (t m : ℕ) (s : Monitors) → IsHeld t m s → IsHeld t m (flush_each fs s)
unfolding flush_each
flush_each-IsHeld [] t m s h = h
flush_each-IsHeld (f ∷ fs) t m s h = flush_each-IsHeld fs t m (flush f s) (flush-IsHeld f t m s h)

pub unmonitor_each-IsHeld :
    (ts : List ℕ) (t m : ℕ) (s : Monitors) → IsHeld t m s → IsHeld t m (unmonitor_each ts s)
unfolding unmonitor_each
unmonitor_each-IsHeld [] t m s h = h
unmonitor_each-IsHeld (u ∷ ts) t m s h =
    unmonitor_each-IsHeld ts t m (unmonitor u skip_send s) (unmonitor-IsHeld u t m s h)
