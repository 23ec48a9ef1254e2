-- ===== src/Mute/Stops.antt =====
-- A monitored track that is stopped.
use mathlib.Core.Path.{subst}
use ninja_vst3_plugin.Prelude.{
  ℕ, Bool, true, false, none, some, List, [], ◌∷◌, ◌++◌, ap, sym, ◌≡◌, refl, ◌∙◌, arith,
}
use ninja_vst3_plugin.Mute.State.{
  Cause, stop, Track, Monitor, evaluate, Finalizer, Output, told, changed, Monitors, monitor_of,
  forget, alter, is_effectively_muted, send_muted_state, broadcast, finish, set_finalizer, cancel,
  cancel_of, schedule,
}
use ninja_vst3_plugin.Mute.{
  dispatch, emit_state, finalize_once, unmonitor, skip_send, send_final, flush, act,
}
use ninja_vst3_plugin.Mute.Events.{track_stopped}

finalize_once-finalizing :
    (m : ℕ) (cause : Cause) (s : Monitors) → ((finalize_once m cause s).objects m).finalizing ≡ true
unfolding finalize_once emit_state schedule cancel_of cancel finish
finalize_once-finalizing m cause s = ground arith

pub finalize_once_done :
    (m : ℕ) (cause : Cause) (s : Monitors)
    → (s.objects m).finalizing ≡ true
    → finalize_once m cause s ≡ s
unfolding finalize_once
finalize_once_done m cause s finalizing = rw finalizing refl

-- Once a monitor is finalizing, for whatever cause, another cause changes nothing: a track that is
-- stopped and ends is finalized once.
pub finalize_once_idem :
    (m : ℕ) (first second : Cause) (s : Monitors)
    → finalize_once m second (finalize_once m first s) ≡ finalize_once m first s
finalize_once_idem m first second s =
    finalize_once_done m second (finalize_once m first s) (finalize_once-finalizing m first s)

-- The track is as it was before it was monitored, and no timer of the monitor's is left.
pub record IsRestored (x : Monitor) : Type 0 where
  pub enabled : x.restores_enabled ≡ false
  pub stop : x.restores_stop ≡ false
  pub poller : x.polls ≡ false
  pub listeners : x.listens ≡ false

pub forget-monitor_of : (t : ℕ) (l : List (ℕ × ℕ)) → monitor_of t (forget t l) ≡ none
unfolding monitor_of forget
forget-monitor_of t [] = refl
forget-monitor_of t ((u, m) ∷ rest) = ground (arith, forget-monitor_of t rest)

-- The finalizer `f` of the monitor `m` waits to tell the viewers that `t`, which has ended, is muted.
pub record IsStopping (t m f : ℕ) (s : Monitors) : Type 0 where
  pub listed : monitor_of t s.monitors ≡ some m
  pub watches : (s.objects m).track ≡ t
  pub pends : (s.objects m).pending_finalizer ≡ some f
  pub waits : (s.finalizers f).finished ≡ false
  pub belongs : (s.finalizers f).monitor ≡ m
  pub tells : (s.finalizers f).action ≡ evaluate true true stop
  pub delayed : (s.finalizers f).delay ≡ 500
  pub once : (s.objects m).finalizing ≡ true
  pub dark : (s.tracks t).is_ended ≡ true

pub track_stopped-IsStopping :
    (t m : ℕ) (s : Monitors)
    → monitor_of t s.monitors ≡ some m
    → (s.objects m).track ≡ t
    → (s.objects m).restores_stop ≡ true
    → (s.objects m).finalizing ≡ false
    → IsStopping t m s.next_finalizer (track_stopped m s)
unfolding track_stopped finalize_once emit_state schedule cancel_of cancel finish
track_stopped-IsStopping t m s listed watches replaced first =
    ground (arith, listed, watches, replaced, first)

cancel_of-outputs : (m : ℕ) (s : Monitors) → (cancel_of m s).outputs ≡ s.outputs
unfolding cancel_of cancel finish
cancel_of-outputs m s = ground arith

pub unmonitor_lem :
    (t m : ℕ) (s : Monitors)
    → monitor_of t s.monitors ≡ some m
    → (monitor_of t (unmonitor t skip_send s).monitors ≡ none)
      × IsRestored ((unmonitor t skip_send s).objects m)
      × ((unmonitor t skip_send s).outputs ≡ s.outputs)
unfolding unmonitor send_final
unmonitor_lem t m s listed = (
  ground (arith, listed, forget-monitor_of t (cancel_of m s).monitors),
  ground (arith, listed),
  ground (arith, listed, cancel_of-outputs m s),
)

-- The state in which `dispatch` stops monitoring.
abbrev reported : ℕ → ℕ → Monitors → Monitors
reported t m s =
    broadcast t true stop (alter m (λ x. record x { last_state = true }) (set_finalizer m none s))

dark_lem : (track : Track) → track.is_ended ≡ true → is_effectively_muted track ≡ true
unfolding is_effectively_muted
dark_lem track ended_one = ground arith

dispatch_stopped :
    (t m : ℕ) (s : Monitors)
    → (s.objects m).track ≡ t
    → (s.tracks t).is_ended ≡ true
    → dispatch m true true stop s ≡ unmonitor t skip_send (reported t m s)
unfolding dispatch
dispatch_stopped t m s watches dark = rw (watches, dark_lem (s.tracks t) dark) refl

act_stopped :
    (t m : ℕ) (x : Finalizer) (s : Monitors)
    → x.monitor ≡ m
    → x.action ≡ evaluate true true stop
    → (s.objects m).track ≡ t
    → (s.tracks t).is_ended ≡ true
    → act x s ≡ unmonitor t skip_send (reported t m s)
unfolding act
act_stopped t m x s belongs tells watches dark =
    rw (tells, belongs) (dispatch_stopped t m s watches dark)

flush_waiting :
    (f : ℕ) (s : Monitors)
    → (s.finalizers f).finished ≡ false
    → flush f s ≡ set_finalizer (s.finalizers f).monitor none (act (s.finalizers f) (finish f s))
unfolding flush
flush_waiting f s waits = simp waits

broadcast-monitors :
    (t u : ℕ) (muted : Bool) (cause : Cause) (s : Monitors)
    → (broadcast u muted cause s).monitors ≡ s.monitors
unfolding broadcast send_muted_state
broadcast-monitors t u muted cause s = ground arith

flush_stopping :
    (t m f : ℕ) (s : Monitors)
    → IsStopping t m f s
    → flush f s ≡ set_finalizer m none (unmonitor t skip_send (reported t m (finish f s)))
unfolding finish
flush_stopping t m f s h =
    flush_waiting f s h.waits
    ∙ (ap (λ n. set_finalizer n none (act (s.finalizers f) (finish f s))) h.belongs
        ∙ ap (set_finalizer m none)
            (act_stopped t m (s.finalizers f) (finish f s) h.belongs h.tells h.watches h.dark))

reported-listed :
    (t m f : ℕ) (s : Monitors)
    → monitor_of t s.monitors ≡ some m
    → monitor_of t (reported t m (finish f s)).monitors ≡ some m
unfolding finish
reported-listed t m f s listed = rw (broadcast-monitors t t true stop _) listed

reported-outputs :
    (t m f : ℕ) (s : Monitors)
    → s.publishing ≡ true
    → (reported t m (finish f s)).outputs
      ≡ (s.outputs ++ (told t true none ∷ [])) ++ (changed t true stop ∷ [])
unfolding finish broadcast send_muted_state
reported-outputs t m f s on = simp on

set_finalizer-IsRestored :
    (m : ℕ) (s : Monitors)
    → IsRestored (s.objects m)
    → IsRestored ((set_finalizer m none s).objects m)
set_finalizer-IsRestored m s h = ground (arith, h.enabled, h.stop, h.poller, h.listeners)

track_stopped-outputs :
    (m : ℕ) (s : Monitors)
    → ((track_stopped m s).outputs ≡ s.outputs) × ((track_stopped m s).publishing ≡ s.publishing)
unfolding track_stopped finalize_once emit_state schedule cancel_of cancel finish
track_stopped-outputs m s = (ground arith, ground arith)

-- What the timer of such a finalizer does.
abbrev Done : ℕ → ℕ → List Output → Monitors → Type 0
Done t m outputs s =
    (monitor_of t s.monitors ≡ none)
    × IsRestored (s.objects m)
    × (s.outputs ≡ (outputs ++ (told t true none ∷ [])) ++ (changed t true stop ∷ []))

flush-Done :
    (t m f : ℕ) (s : Monitors)
    → IsStopping t m f s
    → s.publishing ≡ true
    → Done t m s.outputs (flush f s)
flush-Done t m f s h on =
    let (gone, back, same_outputs) =
      unmonitor_lem t m (reported t m (finish f s)) (reported-listed t m f s h.listed) in
    subst (Done t m s.outputs) (sym (flush_stopping t m f s h)) (
      gone,
      set_finalizer-IsRestored m (unmonitor t skip_send (reported t m (finish f s))) back,
      same_outputs ∙ reported-outputs t m f s on,
    )

-- A track that is stopped while its monitor is not yet finalizing is reported once: when the
-- finalizer's timer fires with nothing in between, the viewers of a published stream are told that it
-- is muted, it is monitored no more, and its `enabled`, `stop`, events and poller are given back.
pub flush-track_stopped :
    (t m : ℕ) (s : Monitors)
    → monitor_of t s.monitors ≡ some m
    → (s.objects m).track ≡ t
    → (s.objects m).restores_stop ≡ true
    → (s.objects m).finalizing ≡ false
    → s.publishing ≡ true
    → (monitor_of t (flush s.next_finalizer (track_stopped m s)).monitors ≡ none)
      × IsRestored ((flush s.next_finalizer (track_stopped m s)).objects m)
      × ((flush s.next_finalizer (track_stopped m s)).outputs
          ≡ (s.outputs ++ (told t true none ∷ [])) ++ (changed t true stop ∷ []))
flush-track_stopped t m s listed watches replaced first on =
    let h = track_stopped-IsStopping t m s listed watches replaced first in
    let (outputs, publishes) = track_stopped-outputs m s in
    subst (λ l. Done t m l (flush s.next_finalizer (track_stopped m s))) outputs
      (flush-Done t m s.next_finalizer (track_stopped m s) h (publishes ∙ on))
