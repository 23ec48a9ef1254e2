-- ===== src/Mute.antt =====
-- The monitors of the published video tracks: they tell the viewers when a track's picture goes
-- dark or comes back (`_monitorOutboundVideoTrack` and its neighbours). Tracks, monitors and
-- finalizers are objects, each kind at its own addresses; the closures that hold a monitor hold its
-- address. The environment mutes, ends and stops tracks and lets timers fire.
pub mod State
pub mod Toggles
pub mod Stops
pub mod Clears
pub mod Finalizers
pub mod Runs
pub mod Polls
pub mod Disarmed
pub mod Held
pub mod Tracked
pub mod Events
use ninja_vst3_plugin.Prelude.{
  ℕ, suc, String, Bool, true, false, not, ◌&&◌, ◌||◌, Option, none, some, List, [], ◌∷◌, ◌++◌, map,
  filter, ltb, ◌==◌, if◌then◌else◌,
}
use ninja_vst3_plugin.Peer.Types.{Kind, viewer, publisher}
use ninja_vst3_plugin.Peer.State.{update}
use ninja_vst3_plugin.Mute.State.*

pub record UnmonitorOptions : Type 0 where
  pub skip_send : Bool
  pub force_muted : Option Bool
  pub delay : Option ℕ

abbrev pub skip_send : UnmonitorOptions
skip_send = record { skip_send = true; force_muted = none; delay = none }

abbrev pub final_muted : UnmonitorOptions → Bool
final_muted options = elim options.force_muted [ none ↦ true | some b ↦ b ]

abbrev pub final_cause : UnmonitorOptions → Cause
final_cause options = elim options.force_muted [ none ↦ monitor_stopped | some _ ↦ force_muted ]

abbrev pub final_delay : UnmonitorOptions → ℕ
final_delay options = elim options.delay [
  | none ↦ if final_muted options then stop_mute_delay else 0
  | some n ↦ n
]

-- The last report of a monitor that ends.
unfoldable pub send_final : ℕ → UnmonitorOptions → Monitors → Monitors
send_final m options s =
    if not options.skip_send && s.publishing && not (s.objects m).finalizing
    then if ltb 0 (final_delay options)
      then schedule m (final_delay options) (report (final_muted options) (final_cause options)) s
      else broadcast (s.objects m).track (final_muted options) (final_cause options) s
    else s

-- The track's own `enabled`, `stop`, poller and listeners come back or go.
abbrev pub given_back : Monitor → Monitor
given_back x = record x {
  restores_enabled = false;
  restores_stop = false;
  polls = false;
  listens = false;
}

-- _unmonitorOutboundVideoTrack
unfoldable pub unmonitor : ℕ → UnmonitorOptions → Monitors → Monitors
unmonitor t options s = elim (monitor_of t s.monitors) [
  | none ↦ s
  | some m ↦
      let told_last = alter m given_back (send_final m options (cancel_of m s)) in
      record told_last { monitors = forget t told_last.monitors }
]

-- `cleanup` of `emitState`.
abbrev pub clean_up : Bool → ℕ → Monitors → Monitors
clean_up cleanup t s = if cleanup then unmonitor t skip_send s else s

-- mutedNow === monitor.lastState
unfoldable pub same : Bool → Bool → Bool
same true b = b
same false b = not b

-- `dispatch` of `emitState`.
unfoldable pub dispatch : ℕ → Bool → Bool → Cause → Monitors → Monitors
dispatch m force cleanup cause s =
    let idle = set_finalizer m none s in
    let t = (s.objects m).track in
    let muted_now = is_effectively_muted (s.tracks t) in
    if not force && same muted_now (s.objects m).last_state
    then clean_up cleanup t idle
    else clean_up cleanup t
        (broadcast t muted_now cause (alter m (λ x. record x { last_state = muted_now }) idle))

-- emitState
unfoldable pub emit_state : ℕ → Bool → ℕ → Bool → Cause → Monitors → Monitors
emit_state m force delay cleanup cause s =
    let alone = cancel_of m s in
    if ltb 0 delay
    then schedule m delay (evaluate force cleanup cause) alone
    else dispatch m force cleanup cause alone

-- finalizeOnce
unfoldable pub finalize_once : ℕ → Cause → Monitors → Monitors
finalize_once m cause s =
    if (s.objects m).finalizing
    then s
    else emit_state m true stop_mute_delay true cause
        (alter m (λ x. record x { finalizing = true }) s)

-- What a finalizer dispatches.
unfoldable pub act : Finalizer → Monitors → Monitors
act f s = elim f.action [
  | evaluate force cleanup cause ↦ dispatch f.monitor force cleanup cause s
  | report muted cause ↦ broadcast (s.objects f.monitor).track muted cause s
]

-- `flush` of a finalizer, which its timer calls too.
unfoldable pub flush : ℕ → Monitors → Monitors
flush f s =
    if (s.finalizers f).finished
    then s
    else set_finalizer (s.finalizers f).monitor none (act (s.finalizers f) (finish f s))

unfoldable pub flush_each : List ℕ → Monitors → Monitors
flush_each [] s = s
flush_each (f ∷ fs) s = flush_each fs (flush f s)

-- `_cancelPendingVideoMuteFinalizers`, which flushes them.
unfoldable pub flush_all : Monitors → Monitors
flush_all s = flush_each s.pending s

-- A track that is monitored already.
unfoldable pub refresh : ℕ → ℕ → Monitors → Monitors
refresh m t s =
    let muted_now = is_effectively_muted (s.tracks t) in
    send_muted_state t muted_now none (alter m (λ x. record x { last_state = muted_now }) s)

abbrev pub monitor_for : ℕ → Track → Monitor
monitor_for t track = record {
  track = t;
  last_state = is_effectively_muted track;
  restores_enabled = track.is_redefinable;
  restores_stop = track.has_stop;
  listens = track.has_events;
  polls = not track.is_redefinable;
  pending_finalizer = none;
  finalizing = false;
}

-- The rest, for a track that is not.
unfoldable pub watch : ℕ → Monitors → Monitors
watch t s =
    let track = s.tracks t in
    let added = record s {
      objects = update s.objects s.next_monitor (monitor_for t track);
      next_monitor = suc s.next_monitor;
      monitors = s.monitors ++ ((t, s.next_monitor) ∷ []);
    } in
    if s.publishing then broadcast t (is_effectively_muted track) initial added else record added {
      outputs = added.outputs ++ (changed t (is_effectively_muted track) initial ∷ []);
    }

-- _monitorOutboundVideoTrack
unfoldable pub monitor : ℕ → Monitors → Monitors
monitor t s =
    if not (s.tracks t).is_video
    then s
    else (let settled = flush_all s in
        elim (monitor_of t settled.monitors) [
          | some m ↦ refresh m t settled
          | none ↦ watch t settled
        ])

unfoldable pub unmonitor_each : List ℕ → Monitors → Monitors
unmonitor_each [] s = s
unmonitor_each (t ∷ ts) s = unmonitor_each ts (unmonitor t skip_send s)

abbrev pub monitored : List (ℕ × ℕ) → List ℕ
monitored entries = map (λ entry. entry.0) entries

-- _clearAllVideoTrackMonitors
unfoldable pub clear_all : Monitors → Monitors
clear_all s = elim s.monitors [
  | [] ↦ flush_all s
  | _ ∷ _ ↦
      let settled = flush_all s in
      record (unmonitor_each (monitored settled.monitors) settled) { monitors = []; pending = [] }
]

unfoldable pub sync_each : List (ℕ × ℕ) → String → Monitors → Monitors
sync_each [] uuid s = s
sync_each ((_, m) ∷ rest) uuid s =
    sync_each rest uuid
      (send_muted_state (s.objects m).track (s.objects m).last_state (some uuid) s)

-- _syncVideoMuteStateToConnection
unfoldable pub sync_to : Kind → String → Monitors → Monitors
sync_to viewer uuid s = s
sync_to publisher uuid s = if s.publishing then sync_each s.monitors uuid s else s

unfoldable pub tell_each : List (ℕ × ℕ) → Monitors → Monitors
tell_each [] s = s
tell_each ((_, m) ∷ rest) s = tell_each rest (send_muted_state (s.objects m).track true none s)

-- The loop over the monitors in `stopPublishing`.
unfoldable pub tell_stopped : Monitors → Monitors
tell_stopped s = tell_each s.monitors s
