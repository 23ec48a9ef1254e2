-- ===== src/Mute/Runs.antt =====
-- Runs of the monitors: any sequence of their calls, of the tracks' events and of the timers.
use ninja_vst3_plugin.Prelude.{ℕ, String, Bool, false, ◌≡◌, refl}
use ninja_vst3_plugin.Peer.Types.{Kind}
use ninja_vst3_plugin.Mute.State.{Monitors}
use ninja_vst3_plugin.Mute.{
  unmonitor, clear_all, flush, UnmonitorOptions, monitor, sync_to, tell_stopped,
}
use ninja_vst3_plugin.Mute.Events.{track_stopped, track_ended, track_muted, enabled_set, polled}
use ninja_vst3_plugin.Mute.Finalizers.{IsTracked, IsQuiet-Calms, flush-Calms}
use ninja_vst3_plugin.Mute.Disarmed.{clear_all-disarmed}
use ninja_vst3_plugin.Mute.Tracked.{
  no_timers-IsTracked, unmonitor-IsTracked, monitor-Calms, sync_to-Calms, tell_each-Calms,
  track_stopped-IsTracked, track_ended-IsTracked, track_muted-IsTracked, enabled_set-IsTracked,
  polled-IsTracked, clear_all-IsTracked,
}

pub data Step : Monitors → Monitors → Type 0 where
  published : (publishing : Bool) (s : Monitors) → Step s (record s { publishing = publishing })
  monitored_one : (t : ℕ) (s : Monitors) → Step s (monitor t s)
  unmonitored : (t : ℕ) (options : UnmonitorOptions) (s : Monitors) → Step s (unmonitor t options s)
  stopped : (m : ℕ) (s : Monitors) → Step s (track_stopped m s)
  ended_one : (m : ℕ) (s : Monitors) → Step s (track_ended m s)
  muted_one : (m : ℕ) (muted : Bool) (s : Monitors) → Step s (track_muted m muted s)
  enabled_one : (m : ℕ) (value : Bool) (s : Monitors) → Step s (enabled_set m value s)
  poll_fired : (m : ℕ) (s : Monitors) → Step s (polled m s)
  timer_fired : (f : ℕ) (s : Monitors) → Step s (flush f s)
  synced : (kind : Kind) (uuid : String) (s : Monitors) → Step s (sync_to kind uuid s)
  told_stopped : (s : Monitors) → Step s (tell_stopped s)
  cleared_all : (s : Monitors) → Step s (clear_all s)

-- The states from one without finalizers.
pub data Reach : Monitors → Type 0 where
  start : (s : Monitors) → ((f : ℕ) → (s.finalizers f).is_armed ≡ false) → Reach s
  next : {s t : Monitors} → Reach s → Step s t → Reach t

Step-IsTracked : {s t : Monitors} → Step s t → IsTracked s → IsTracked t
unfolding tell_stopped
Step-IsTracked (published publishing s) h =
    (IsQuiet-Calms (record { finalizers = refl; pending = refl; next = refl })).tracked h
Step-IsTracked (monitored_one t s) h = (monitor-Calms t s).tracked h
Step-IsTracked (unmonitored t options s) h = unmonitor-IsTracked t options s h
Step-IsTracked (stopped m s) h = track_stopped-IsTracked m s h
Step-IsTracked (ended_one m s) h = track_ended-IsTracked m s h
Step-IsTracked (muted_one m muted s) h = track_muted-IsTracked m muted s h
Step-IsTracked (enabled_one m value s) h = enabled_set-IsTracked m value s h
Step-IsTracked (poll_fired m s) h = polled-IsTracked m s h
Step-IsTracked (timer_fired f s) h = (flush-Calms f s).tracked h
Step-IsTracked (synced kind uuid s) h = (sync_to-Calms kind uuid s).tracked h
Step-IsTracked (told_stopped s) h = (tell_each-Calms s.monitors s).tracked h
Step-IsTracked (cleared_all s) h = clear_all-IsTracked s h

-- In every state that a run of the monitors reaches from one without armed timers, each armed timer
-- belongs to a finalizer that exists, is not finished and is pending.
pub Reach-IsTracked : {s : Monitors} → Reach s → IsTracked s
Reach-IsTracked (start s idle) = no_timers-IsTracked s idle
Reach-IsTracked (next run step) = Step-IsTracked step (Reach-IsTracked run)

-- In every state that a run of the monitors reaches from one without armed timers, clearing all of
-- them leaves no finalizer's timer armed.
pub clear_all-no_timers :
    (f : ℕ) (s : Monitors) → Reach s → ((clear_all s).finalizers f).is_armed ≡ false
clear_all-no_timers f s run = clear_all-disarmed f s (Reach-IsTracked run)
