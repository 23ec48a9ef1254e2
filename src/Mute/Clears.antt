-- ===== src/Mute/Clears.antt =====
-- `_clearAllVideoTrackMonitors` gives every monitored track back.
use ninja_vst3_plugin.Prelude.{
  ℕ, none, some, Bool-cases, List, [], ◌∷◌, ◌==◌, ◌≡◌, inl, inr, refl, ap, ◌∙◌, arith,
}
use ninja_vst3_plugin.Mute.State.{Monitors, monitor_of, forget}
use ninja_vst3_plugin.Mute.{unmonitor, unmonitor_each, monitored, clear_all, skip_send, flush_all}
use ninja_vst3_plugin.Mute.Stops.{IsRestored, forget-monitor_of}
use ninja_vst3_plugin.Mute.Held.{
  IsHeld, forget-monitor_of_other, unmonitor-cases, flush_each-IsHeld, unmonitor_each-IsHeld,
}

forget-none :
    (t u : ℕ) (l : List (ℕ × ℕ)) → monitor_of t l ≡ none → monitor_of t (forget u l) ≡ none
forget-none t u l absent = elim (Bool-cases (t == u)) [
  | inl e ↦ let same_one : t ≡ u = ground arith in rw same_one (forget-monitor_of u l)
  | inr ne ↦ forget-monitor_of_other t u l (ground arith) ∙ absent
]

unmonitor_each-none :
    (t : ℕ) (ts : List ℕ) (s : Monitors)
    → monitor_of t s.monitors ≡ none
    → monitor_of t (unmonitor_each ts s).monitors ≡ none
unfolding unmonitor_each
unmonitor_each-none t [] s absent = absent
unmonitor_each-none t (u ∷ ts) s absent =
    unmonitor_each-none t ts (unmonitor u skip_send s)
      (ap (monitor_of t) (unmonitor-cases u s).0 ∙ forget-none t u s.monitors absent)

-- Every entry of the list is taken out by the loop over the list's tracks.
unmonitor_each-monitored :
    (t m : ℕ) (l : List (ℕ × ℕ)) (s : Monitors)
    → monitor_of t l ≡ some m
    → monitor_of t (unmonitor_each (monitored l) s).monitors ≡ none
unfolding unmonitor_each monitor_of
unmonitor_each-monitored t m [] s listed = absurd (ground arith)
unmonitor_each-monitored t m ((u, n) ∷ rest) s listed = elim (Bool-cases (u == t)) [
  | inl e ↦
      let same_one : u ≡ t = ground arith in
      unmonitor_each-none t (monitored rest) (unmonitor u skip_send s)
        (ap (monitor_of t) (unmonitor-cases u s).0 ∙ rw same_one (forget-monitor_of t s.monitors))
  | inr ne ↦ unmonitor_each-monitored t m rest (unmonitor u skip_send s) (ground arith)
]

unmonitor_each-back :
    (ts : List ℕ) (m : ℕ) (s : Monitors)
    → IsRestored (s.objects m)
    → IsRestored ((unmonitor_each ts s).objects m)
unfolding unmonitor_each
unmonitor_each-back [] m s h = h
unmonitor_each-back (u ∷ ts) m s h =
    unmonitor_each-back ts m (unmonitor u skip_send s) ((unmonitor-cases u s).1 m h)

cleared-IsRestored :
    (t m : ℕ) (s : Monitors)
    → IsHeld t m s
    → IsRestored ((unmonitor_each (monitored s.monitors) s).objects m)
cleared-IsRestored t m s (inr back) = unmonitor_each-back (monitored s.monitors) m s back
cleared-IsRestored t m s (inl listed) =
    elim (unmonitor_each-IsHeld (monitored s.monitors) t m s (inl listed)) [
      | inr back ↦ back
      | inl still ↦ absurd (ground (arith, still, unmonitor_each-monitored t m s.monitors s listed))
    ]

clear_all_lem :
    (t m : ℕ) (s : Monitors) (entries : List (ℕ × ℕ))
    → s.monitors ≡ entries
    → monitor_of t entries ≡ some m
    → ((clear_all s).monitors ≡ [])
      × ((clear_all s).pending ≡ [])
      × IsRestored ((clear_all s).objects m)
unfolding clear_all flush_all monitor_of
clear_all_lem t m s [] same_list listed = absurd (ground arith)
clear_all_lem t m s (entry ∷ rest) same_list listed =
    rw (clear_all, same_list)
      (
        refl,
        refl,
        cleared-IsRestored t m (flush_all s)
            (flush_each-IsHeld s.pending t m s (inl (rw same_list listed))),
      )

-- When all monitors are cleared while a track is monitored, none is listed and no finalizer is
-- pending, and this track's `enabled`, `stop`, events and poller are given back.
pub clear_all-IsRestored :
    (t m : ℕ) (s : Monitors)
    → monitor_of t s.monitors ≡ some m
    → ((clear_all s).monitors ≡ [])
      × ((clear_all s).pending ≡ [])
      × IsRestored ((clear_all s).objects m)
clear_all-IsRestored t m s listed = clear_all_lem t m s s.monitors refl listed
