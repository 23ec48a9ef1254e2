-- ===== src/Mute/Polls.antt =====
-- A poller that fires before the finalizer of a stopped track.
use ninja_vst3_plugin.Prelude.{ℕ, true, false, none, some, ◌≡◌, arith}
use ninja_vst3_plugin.Mute.State.{
  Cause, poll, Monitors, monitor_of, send_muted_state, broadcast, finish, cancel, cancel_of,
  schedule,
}
use ninja_vst3_plugin.Mute.{dispatch, emit_state, finalize_once, flush}
use ninja_vst3_plugin.Mute.Events.{track_stopped, polled}
use ninja_vst3_plugin.Mute.Stops.{finalize_once_done, IsStopping, track_stopped-IsStopping}

-- A monitor that finalizes without a finalizer.
record IsStuck (t m f : ℕ) (s : Monitors) : Type 0 where
  pub finished : (s.finalizers f).finished ≡ true
  pub listed : monitor_of t s.monitors ≡ some m
  pub polls : (s.objects m).polls ≡ true
  pub nothing : (s.objects m).pending_finalizer ≡ none
  pub once : (s.objects m).finalizing ≡ true

cancel_of-IsStuck :
    (t m f : ℕ) (s : Monitors)
    → IsStopping t m f s
    → (s.objects m).polls ≡ true
    → IsStuck t m f (cancel_of m s)
unfolding cancel_of cancel finish
cancel_of-IsStuck t m f s h polls =
    ground (arith, h.listed, h.pends, h.waits, h.belongs, h.once, polls)

dispatch-IsStuck :
    (t m f : ℕ) (s : Monitors) → IsStuck t m f s → IsStuck t m f (dispatch m false false poll s)
unfolding dispatch broadcast send_muted_state
dispatch-IsStuck t m f s h = ground (arith, h.finished, h.listed, h.polls, h.nothing, h.once)

polled-IsStuck :
    (t m f : ℕ) (s : Monitors)
    → IsStopping t m f s
    → (s.objects m).polls ≡ true
    → IsStuck t m f (polled m s)
unfolding polled emit_state
polled-IsStuck t m f s h polls =
    rw polls (dispatch-IsStuck t m f (cancel_of m s) (cancel_of-IsStuck t m f s h polls))

track_stopped-polls :
    (m : ℕ) (s : Monitors)
    → (s.objects m).polls ≡ true
    → ((track_stopped m s).objects m).polls ≡ true
unfolding track_stopped finalize_once emit_state schedule cancel_of cancel finish
track_stopped-polls m s polls = ground (arith, polls)

flush_finished : (f : ℕ) (s : Monitors) → (s.finalizers f).finished ≡ true → flush f s ≡ s
unfolding flush
flush_finished f s finished = simp finished

-- When the poller of the monitor fires before the finalizer's timer, the finalizer is cancelled: its
-- timer then does nothing, the track stays monitored, its poller still runs, no finalizer pends, and
-- neither another stop nor the track's end starts one again.
pub polled-track_stopped :
    (t m : ℕ) (cause : Cause) (s : Monitors)
    → monitor_of t s.monitors ≡ some m
    → (s.objects m).track ≡ t
    → (s.objects m).restores_stop ≡ true
    → (s.objects m).finalizing ≡ false
    → (s.objects m).polls ≡ true
    → (flush s.next_finalizer (polled m (track_stopped m s)) ≡ polled m (track_stopped m s))
      × (monitor_of t (polled m (track_stopped m s)).monitors ≡ some m)
      × (((polled m (track_stopped m s)).objects m).polls ≡ true)
      × (((polled m (track_stopped m s)).objects m).pending_finalizer ≡ none)
      × (finalize_once m cause (polled m (track_stopped m s)) ≡ polled m (track_stopped m s))
polled-track_stopped t m cause s listed watches replaced first polls =
    let h = track_stopped-IsStopping t m s listed watches replaced first in
    let still =
      polled-IsStuck t m s.next_finalizer (track_stopped m s) h (track_stopped-polls m s polls) in
    (
      flush_finished s.next_finalizer (polled m (track_stopped m s)) still.finished,
      still.listed,
      still.polls,
      still.nothing,
      finalize_once_done m cause (polled m (track_stopped m s)) still.once,
    )
