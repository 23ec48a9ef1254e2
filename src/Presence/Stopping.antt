-- ===== src/Presence/Stopping.antt =====
-- The end of the socket, and `stopPublishing`. The tracks of a media stream are given.
use ninja_vst3_plugin.Prelude.{
  ℕ, zero, suc, String, true, false, not, ◌&&◌, Option, none, some, List, [], ◌∷◌, if◌then◌else◌,
}
use ninja_vst3_plugin.Peer.Types.{publisher, Pair, Sdk, bye}
use ninja_vst3_plugin.Peer.State.{update, has_open_channel, remove_side}
use ninja_vst3_plugin.Peer.Recovery.{finalize}
use ninja_vst3_plugin.Session.{socket_closed}
use ninja_vst3_plugin.Data.Send.{only_publisher, send_data_internal}
use ninja_vst3_plugin.Mute.State.{Track}
use ninja_vst3_plugin.Mute.{clear_all, tell_stopped}
use ninja_vst3_plugin.Presence.State.{
  Presence, is_publishing, set_publishing, announce_news, stopped,
}
use ninja_vst3_plugin.Presence.{is_there}

-- signaling.onclose, with what it resets of rooms and publishing.
unfoldable pub lost_socket : Presence → Presence
lost_socket s = set_publishing false (record s { sdk = socket_closed s.sdk; has_joined = false })

-- The bye to a viewer whose channel is open.
abbrev pub say_stopped : String → Option ℕ → Sdk → Sdk
say_stopped uuid none s = s
say_stopped uuid (some c) s =
    if has_open_channel (s.objects c)
    then (send_data_internal bye (some uuid) none only_publisher false s).sdk
    else s

unfoldable pub say_stopped_each : List (String × Pair) → Sdk → Sdk
say_stopped_each [] s = s
say_stopped_each ((uuid, pair) ∷ rest) s =
    say_stopped_each rest (say_stopped uuid pair.publisher_side s)

-- `stopPublishing` up to its byes.
unfoldable pub stop_publishing : Presence → Presence
stop_publishing s =
    let unwanted = record s { publication = none } in
    if not (is_publishing s) && not (is_there s.publication) then unwanted else record unwanted {
      monitors = tell_stopped s.monitors;
      sdk = say_stopped_each s.sdk.connections s.sdk;
      flushes = suc s.flushes;
    }

-- A publisher direction's end in `stopPublishing`.
abbrev pub stop_side : String → Option ℕ → Sdk → Sdk
stop_side uuid none s = s
stop_side uuid (some c) s = remove_side uuid publisher (finalize c s)

unfoldable pub stop_each : List (String × Pair) → Sdk → Sdk
stop_each [] s = s
stop_each ((uuid, pair) ∷ rest) s = stop_each rest (stop_side uuid pair.publisher_side s)

-- The local stream's tracks are stopped.
unfoldable pub stop_tracks : List ℕ → (ℕ → Track) → ℕ → Track
stop_tracks [] tracks = tracks
stop_tracks (t ∷ ts) tracks =
    stop_tracks ts (update tracks t (record (tracks t) { is_ended = true }))

-- `stopPublishing` once the byes are flushed or 100 ms are over; the tracks of the local stream, if
-- there is one, are given.
unfoldable pub stop_publishing_flushed : List ℕ → Presence → Presence
stop_publishing_flushed local_tracks s =
    let cleared = clear_all s.monitors in
    announce_news stopped (record s {
      sdk = stop_each s.sdk.connections s.sdk;
      monitors = record cleared {
        tracks =
            (if is_there s.local_stream
              then stop_tracks local_tracks cleared.tracks
              else cleared.tracks);
        publishing = false;
      };
      local_stream = none;
      stream_id = none;
    })

-- The byes of a `stopPublishing` are flushed or 100 ms are over.
unfoldable pub flush_elapsed : List ℕ → Presence → Presence
flush_elapsed local_tracks s = elim s.flushes [
  | zero ↦ s
  | suc n ↦ stop_publishing_flushed local_tracks (record s { flushes = n })
]
