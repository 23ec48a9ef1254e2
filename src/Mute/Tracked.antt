-- ===== src/Mute/Tracked.antt =====
-- Each operation keeps the timers tracked.
use ninja_vst3_plugin.Prelude.{
  ℕ, String, Bool, true, false, not, ◌&&◌, ◌||◌, Option, none, some, List, [], ◌∷◌, ◌≡◌, refl,
  arith, if◌then◌else◌, if_rule, ltb,
}
use ninja_vst3_plugin.Peer.Types.{Kind, viewer, publisher}
use ninja_vst3_plugin.Mute.State.{
  Cause, mute, unmute, ended, stop, enabled_toggle, poll, Track, evaluate, report, Monitors,
  stop_mute_delay, monitor_of, forget, alter, send_muted_state, broadcast, cancel_of,
}
use ninja_vst3_plugin.Mute.{
  same, unmonitor, clear_all, send_final, given_back, flush_all, UnmonitorOptions, emit_state,
  finalize_once, monitor, refresh, watch, final_delay, final_muted, final_cause, sync_to, sync_each,
  tell_each,
}
use ninja_vst3_plugin.Mute.Events.{
  track_stopped, track_ended, track_muted, enabled_set, polled, write_track,
}
use ninja_vst3_plugin.Mute.Finalizers.{
  IsTracked, Calms, Calms-refl, Calms-trans, IsQuiet-Calms, alter-Calms, send_muted_state-Calms,
  broadcast-Calms, cancel_of-Calms, dispatch-Calms, flush_each-Calms, schedule-IsTracked,
  forget-Calms,
}
use ninja_vst3_plugin.Mute.Disarmed.{clear_all-disarmed}

pub no_timers-IsTracked :
    (s : Monitors) → ((f : ℕ) → (s.finalizers f).is_armed ≡ false) → IsTracked s
no_timers-IsTracked s idle = record {
  unfinished = λ f armed. ground (arith, idle f, armed);
  pends = λ f armed. ground (arith, idle f, armed);
  exists = λ f armed. ground (arith, idle f, armed);
}

write_track-Calms : (t : ℕ) (f : Track → Track) (s : Monitors) → Calms s (write_track t f s)
write_track-Calms t f s = IsQuiet-Calms (record { finalizers = refl; pending = refl; next = refl })

emit_state-IsTracked :
    (m : ℕ) (force : Bool) (delay : ℕ) (cleanup : Bool) (cause : Cause) (s : Monitors)
    → IsTracked s
    → IsTracked (emit_state m force delay cleanup cause s)
unfolding emit_state
emit_state-IsTracked m force delay cleanup cause s h =
    let alone = (cancel_of-Calms m s).tracked h in
    if_rule IsTracked (ltb 0 delay)
      (λ _. schedule-IsTracked m delay (evaluate force cleanup cause) (cancel_of m s) alone)
      (λ _. (dispatch-Calms m force cleanup cause (cancel_of m s)).tracked alone)

finalize_once-IsTracked :
    (m : ℕ) (cause : Cause) (s : Monitors) → IsTracked s → IsTracked (finalize_once m cause s)
unfolding finalize_once
finalize_once-IsTracked m cause s h =
    let marked = alter m (λ x. record x { finalizing = true }) s in
    if_rule IsTracked (s.objects m).finalizing (λ _. h)
      (λ _.
        emit_state-IsTracked m true stop_mute_delay true cause marked
          ((alter-Calms m (λ x. record x { finalizing = true }) s).tracked h))

send_final-IsTracked :
    (m : ℕ) (options : UnmonitorOptions) (s : Monitors)
    → IsTracked s
    → IsTracked (send_final m options s)
unfolding send_final
send_final-IsTracked m options s h =
    let last = report (final_muted options) (final_cause options) in
    if_rule IsTracked (not options.skip_send && s.publishing && not (s.objects m).finalizing)
      (λ _.
        if_rule IsTracked (ltb 0 (final_delay options))
          (λ _. schedule-IsTracked m (final_delay options) last s h)
          (λ _.
            (broadcast-Calms (s.objects m).track (final_muted options) (final_cause options)
                s).tracked
              h))
      (λ _. h)

pub unmonitor-IsTracked :
    (t : ℕ) (options : UnmonitorOptions) (s : Monitors)
    → IsTracked s
    → IsTracked (unmonitor t options s)
unfolding unmonitor
unmonitor-IsTracked t options s h =
    elim (monitor_of t s.monitors)
      as (λ (o : Option ℕ). IsTracked (elim o [
        | none ↦ s
        | some m ↦
            let told_last = alter m given_back (send_final m options (cancel_of m s)) in
            record told_last { monitors = forget t told_last.monitors }
      ])) [
        | none ↦ h
        | some m ↦
            (forget-Calms m t (send_final m options (cancel_of m s))).tracked
              (send_final-IsTracked m options (cancel_of m s) ((cancel_of-Calms m s).tracked h))
      ]

watch-Calms : (t : ℕ) (s : Monitors) → Calms s (watch t s)
unfolding watch broadcast send_muted_state
watch-Calms t s = IsQuiet-Calms (ground arith)

refresh-Calms : (m t : ℕ) (s : Monitors) → Calms s (refresh m t s)
unfolding refresh send_muted_state
refresh-Calms m t s = IsQuiet-Calms (ground arith)

flush_all-Calms : (s : Monitors) → Calms s (flush_all s)
unfolding flush_all
flush_all-Calms s = flush_each-Calms s.pending s

pub monitor-Calms : (t : ℕ) (s : Monitors) → Calms s (monitor t s)
unfolding monitor
monitor-Calms t s =
    let settled = flush_all s in
    if_rule (Calms s) (not (s.tracks t).is_video) (λ _. Calms-refl s)
      (λ _.
        elim (monitor_of t settled.monitors)
          as (λ (o : Option ℕ).
            Calms s (elim o [ some m ↦ refresh m t settled | none ↦ watch t settled ])) [
              | some m ↦ Calms-trans (flush_all-Calms s) (refresh-Calms m t settled)
              | none ↦ Calms-trans (flush_all-Calms s) (watch-Calms t settled)
            ])

sync_each-Calms : (l : List (ℕ × ℕ)) (uuid : String) (s : Monitors) → Calms s (sync_each l uuid s)
unfolding sync_each
sync_each-Calms [] uuid s = Calms-refl s
sync_each-Calms ((_, m) ∷ rest) uuid s =
    Calms-trans (send_muted_state-Calms (s.objects m).track (s.objects m).last_state (some uuid) s)
      (sync_each-Calms rest uuid
        (send_muted_state (s.objects m).track (s.objects m).last_state (some uuid) s))

pub sync_to-Calms : (kind : Kind) (uuid : String) (s : Monitors) → Calms s (sync_to kind uuid s)
unfolding sync_to
sync_to-Calms viewer uuid s = Calms-refl s
sync_to-Calms publisher uuid s =
    if_rule (Calms s) s.publishing (λ _. sync_each-Calms s.monitors uuid s) (λ _. Calms-refl s)

pub tell_each-Calms : (l : List (ℕ × ℕ)) (s : Monitors) → Calms s (tell_each l s)
unfolding tell_each
tell_each-Calms [] s = Calms-refl s
tell_each-Calms ((_, m) ∷ rest) s =
    Calms-trans (send_muted_state-Calms (s.objects m).track true none s)
      (tell_each-Calms rest (send_muted_state (s.objects m).track true none s))

pub track_stopped-IsTracked : (m : ℕ) (s : Monitors) → IsTracked s → IsTracked (track_stopped m s)
unfolding track_stopped
track_stopped-IsTracked m s h =
    (write_track-Calms (s.objects m).track (λ track. record track { is_ended = true }) _).tracked (
      if_rule IsTracked (s.objects m).restores_stop (λ _. finalize_once-IsTracked m stop s h)
        (λ _. h))

-- What the tests of the event handlers choose between.
chosen-IsTracked :
    (test : Bool) (r q : Monitors) → IsTracked r → IsTracked q → IsTracked (if test then r else q)
chosen-IsTracked true r q h k = h
chosen-IsTracked false r q h k = k

pub track_ended-IsTracked : (m : ℕ) (s : Monitors) → IsTracked s → IsTracked (track_ended m s)
unfolding track_ended
track_ended-IsTracked m s h =
    let t = (s.objects m).track in
    let written = write_track t (λ track. record track { is_ended = true }) s in
    let k = (write_track-Calms t (λ track. record track { is_ended = true }) s).tracked h in
    chosen-IsTracked (s.objects m).listens (finalize_once m ended written) written
      (finalize_once-IsTracked m ended written k) k

pub track_muted-IsTracked :
    (m : ℕ) (muted : Bool) (s : Monitors) → IsTracked s → IsTracked (track_muted m muted s)
unfolding track_muted
track_muted-IsTracked m muted s h =
    let t = (s.objects m).track in
    let cause = if muted then mute else unmute in
    let written = write_track t (λ track. record track { muted = muted }) s in
    let k = (write_track-Calms t (λ track. record track { muted = muted }) s).tracked h in
    chosen-IsTracked (s.objects m).listens (emit_state m false 0 false cause written) written
      (emit_state-IsTracked m false 0 false cause written k) k

pub enabled_set-IsTracked :
    (m : ℕ) (value : Bool) (s : Monitors) → IsTracked s → IsTracked (enabled_set m value s)
unfolding enabled_set
enabled_set-IsTracked m value s h =
    let t = (s.objects m).track in
    let written = write_track t (λ track. record track { enabled = value }) s in
    let k = (write_track-Calms t (λ track. record track { enabled = value }) s).tracked h in
    chosen-IsTracked (not (s.objects m).restores_enabled || same (s.tracks t).enabled value) written
      (emit_state m false 0 false enabled_toggle written) k
      (emit_state-IsTracked m false 0 false enabled_toggle written k)

pub polled-IsTracked : (m : ℕ) (s : Monitors) → IsTracked s → IsTracked (polled m s)
unfolding polled
polled-IsTracked m s h =
    chosen-IsTracked (s.objects m).polls (emit_state m false 0 false poll s) s
      (emit_state-IsTracked m false 0 false poll s h) h

pub clear_all-IsTracked : (s : Monitors) → IsTracked s → IsTracked (clear_all s)
clear_all-IsTracked s h = no_timers-IsTracked (clear_all s) (λ f. clear_all-disarmed f s h)
