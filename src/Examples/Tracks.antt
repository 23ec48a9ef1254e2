-- ===== src/Examples/Tracks.antt =====
-- The monitors of published tracks.
use ninja_vst3_plugin.Mute.State.{
  send_muted_state, broadcast, stop, Track, Monitor, Finalizer, evaluate, Monitors,
  is_effectively_muted, monitor_of,
}
use ninja_vst3_plugin.Prelude.{Bool, true, false, none, some, List, [], ◌∷◌, ◌≡◌, refl}
use ninja_vst3_plugin.Mute.{watch, clear_all, flush, monitor}
use ninja_vst3_plugin.Mute.Events.{track_stopped, polled}
use ninja_vst3_plugin.Mute.Toggles.{
  last_told, Toggle, to_enabled, to_muted, time_passes, toggles, toggles-last_told,
}
use ninja_vst3_plugin.Mute.Stops.{flush-track_stopped, IsRestored}
use ninja_vst3_plugin.Mute.Polls.{polled-track_stopped}
use ninja_vst3_plugin.Mute.Clears.{clear_all-IsRestored}
use ninja_vst3_plugin.Mute.Runs.{start, next, monitored_one, stopped, clear_all-no_timers}

abbrev camera : Bool → Track
camera redefinable = record {
  is_video = true;
  is_ended = false;
  enabled = true;
  muted = false;
  is_redefinable = redefinable;
  has_events = true;
  has_stop = true;
}

abbrev no_monitor : Monitor
no_monitor = record {
  track = 0;
  last_state = false;
  restores_enabled = false;
  restores_stop = false;
  listens = false;
  polls = false;
  pending_finalizer = none;
  finalizing = false;
}

abbrev no_finalizer : Finalizer
no_finalizer = record {
  monitor = 0;
  action = evaluate false false stop;
  delay = 0;
  finished = true;
  is_armed = false;
}

abbrev pub idle : Bool → Monitors
idle redefinable = record {
  publishing = true;
  tracks = λ _. camera redefinable;
  monitors = [];
  objects = λ _. no_monitor;
  next_monitor = 0;
  finalizers = λ _. no_finalizer;
  pending = [];
  next_finalizer = 0;
  outputs = [];
}

-- The track 5 is disabled, enabled and muted.
abbrev some_toggles : List Toggle
some_toggles = to_enabled false ∷ to_enabled true ∷ time_passes ∷ to_muted true ∷ []

toggles-last_told_example :
    last_told 5 (toggles 0 some_toggles (watch 5 (idle true))).outputs
    ≡ some (is_effectively_muted ((toggles 0 some_toggles (watch 5 (idle true))).tracks 5))
toggles-last_told_example = toggles-last_told 5 some_toggles (idle true) refl refl refl

-- The track 5, monitored, with and without a poller.
abbrev watched : Bool → Monitors
watched redefinable = watch 5 (idle redefinable)

flush-track_stopped_example :
    monitor_of 5 (flush 0 (track_stopped 0 (watched true))).monitors ≡ none
unfolding watch monitor_of broadcast send_muted_state
flush-track_stopped_example = (flush-track_stopped 5 0 (watched true) refl refl refl refl refl).0

polled-track_stopped_example :
    monitor_of 5 (polled 0 (track_stopped 0 (watched false))).monitors ≡ some 0
unfolding watch monitor_of broadcast send_muted_state
polled-track_stopped_example =
    (polled-track_stopped 5 0 stop (watched false) refl refl refl refl refl).1

clear_all-IsRestored_example : IsRestored ((clear_all (watched false)).objects 0)
unfolding watch monitor_of broadcast send_muted_state
clear_all-IsRestored_example = (clear_all-IsRestored 5 0 (watched false) refl).2

clear_all-no_timers_example :
    ((clear_all (track_stopped 0 (monitor 5 (idle true)))).finalizers 0).is_armed ≡ false
clear_all-no_timers_example = clear_all-no_timers 0 (track_stopped 0 (monitor 5 (idle true))) (
    next (next (start (idle true) (λ f. refl)) (monitored_one 5 (idle true)))
      (stopped 0 (monitor 5 (idle true))))
