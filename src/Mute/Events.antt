-- ===== src/Mute/Events.antt =====
-- What the environment does to a monitored track, and the poller.
use ninja_vst3_plugin.Prelude.{ℕ, Bool, true, false, not, ◌||◌, if◌then◌else◌}
use ninja_vst3_plugin.Peer.State.{update}
use ninja_vst3_plugin.Mute.State.{stop, enabled_toggle, mute, unmute, ended, poll, Track, Monitors}
use ninja_vst3_plugin.Mute.{same, emit_state, finalize_once}

abbrev pub write_track : ℕ → (Track → Track) → Monitors → Monitors
write_track t f s = record s { tracks = update s.tracks t (f (s.tracks t)) }

-- `stop` of a track, replaced or its own, which ends it.
unfoldable pub track_stopped : ℕ → Monitors → Monitors
track_stopped m s =
    let t = (s.objects m).track in
    write_track t (λ track. record track { is_ended = true })
      (if (s.objects m).restores_stop then finalize_once m stop s else s)

-- An assignment to `enabled`, by the replaced setter or the track's own.
unfoldable pub enabled_set : ℕ → Bool → Monitors → Monitors
enabled_set m value s =
    let t = (s.objects m).track in
    let written = write_track t (λ track. record track { enabled = value }) s in
    if not (s.objects m).restores_enabled || same (s.tracks t).enabled value
    then written
    else emit_state m false 0 false enabled_toggle written

-- 'mute' and 'unmute', after the track itself changed.
unfoldable pub track_muted : ℕ → Bool → Monitors → Monitors
track_muted m muted s =
    let t = (s.objects m).track in
    let written = write_track t (λ track. record track { muted = muted }) s in
    if (s.objects m).listens
    then emit_state m false 0 false (if muted then mute else unmute) written
    else written

-- 'ended', after the track itself ended.
unfoldable pub track_ended : ℕ → Monitors → Monitors
track_ended m s =
    let t = (s.objects m).track in
    let written = write_track t (λ track. record track { is_ended = true }) s in
    if (s.objects m).listens then finalize_once m ended written else written

-- The poller's callback; without a poller nothing happens.
unfoldable pub polled : ℕ → Monitors → Monitors
polled m s = if (s.objects m).polls then emit_state m false 0 false poll s else s
