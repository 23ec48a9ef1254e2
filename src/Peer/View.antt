-- ===== src/Peer/View.antt =====
-- `view`, `_setupViewRetry` and `stopViewing`. Stream IDs are given sanitized; hashing a stream ID
-- is where `view` first suspends itself.
pub mod Retries
pub mod Stops
pub mod Retried
use ninja_vst3_plugin.Prelude.{
  ℕ, suc, ◌+◌, String, Bool, true, false, not, ◌&&◌, Option, none, some, List, [], ◌∷◌, ◌++◌, any,
  ◌==◌, str_eq, if◌then◌else◌,
}
use ninja_vst3_plugin.Prelude.Table.{get, set, has, delete}
use ninja_vst3_plugin.Prelude.Members.{contains, add_member, drop_member}
use ninja_vst3_plugin.Peer.Types.{
  Kind, viewer, Connection, Pair, Stream, StreamState, FailedView, Sdk, Suspended, requesting_view,
  stopping, view_poll, view_timeout, retry_pending, retry_view, viewing_stopped,
}
use ninja_vst3_plugin.Peer.State.{
  update, modify, emit, arm, arm_interval, disarm, cleared, suspend, remove_side, close_pc, say_bye,
  clear_recovery_timers,
}
use ninja_vst3_plugin.Peer.Lookup.{get_connections}
use ninja_vst3_plugin.Peer.Backoff.{retry_delay}

-- `existing?.firstSeen || now`
abbrev pub first_seen : Option Stream → ℕ → ℕ
first_seen none now = now
first_seen (some stream) now = if stream.first_seen == 0 then now else stream.first_seen

abbrev pub known_uuid : Option Stream → Option String
known_uuid none = none
known_uuid (some stream) = stream.uuid

unfoldable pub track_pending : String → Sdk → Sdk
track_pending stream_id s =
    let existing = get stream_id s.streams in
    record s {
      streams =
          set stream_id
            (record {
              first_seen = first_seen existing s.now;
              state = StreamState.pending;
              last_seen = s.now;
              uuid = known_uuid existing;
            })
            s.streams;
    }

-- `view` up to its first `await`; `none` is the error 'Not connected to signaling server'. The last
-- argument is the failed view that waits for the result.
unfoldable pub view : String → ℕ → Option ℕ → Sdk → Option Sdk
view stream_id options waiter s =
    if s.is_connected
    then some (suspend (requesting_view stream_id options waiter) (track_pending stream_id s))
    else none

abbrev pub is_open : Option Bool → Bool
is_open none = false
is_open (some open_now) = open_now

-- The catch block of `_retryFailedViewerConnection`.
unfoldable pub schedule_retry : String → ℕ → Sdk → Sdk
schedule_retry stream_id a s =
    let armed = arm (retry_delay (s.failed_objects a).retry_count) (retry_view stream_id a) s in
    record armed {
      failed_objects =
          update s.failed_objects a (record (s.failed_objects a) { timer = some s.next_id });
    }

-- The end of the failed view's entry; its object and its timer stay.
abbrev pub drop_failed_view : String → Sdk → Sdk
drop_failed_view stream_id s = record s { failed_views = delete stream_id s.failed_views }

abbrev pub count_retry : ℕ → Sdk → Sdk
count_retry a s = record s {
  failed_objects =
      update s.failed_objects a
        (record (s.failed_objects a) { retry_count = suc (s.failed_objects a).retry_count });
}

-- Whether the stream is still to be viewed.
abbrev pub is_wanted : String → Sdk → Bool
is_wanted stream_id s =
    not s.intentional_disconnect
    && (has stream_id s.view_intents && not (contains stream_id s.stopped_views))

-- `_retryFailedViewerConnection` up to its `await`; `view` is its `try` block.
unfoldable pub retry_failed_viewer : String → Sdk → Sdk
retry_failed_viewer stream_id s = elim (get stream_id s.failed_views) [
  | none ↦ s
  | some a ↦
      if is_wanted stream_id s
      then (let counted = count_retry a s in
          elim (view stream_id (s.failed_objects a).view_options (some a) counted) [
            | none ↦ schedule_retry stream_id a counted
            | some t ↦ t
          ])
      else drop_failed_view stream_id s
]

-- The callback of the timer that `schedule_retry` arms.
unfoldable pub retry_fired : String → ℕ → Sdk → Sdk
retry_fired stream_id a s = retry_failed_viewer stream_id (record s {
  failed_objects = update s.failed_objects a (record (s.failed_objects a) { timer = none });
})

-- An error of `view`, or its result null, as its caller takes it.
abbrev pub without_view : String → Option ℕ → Sdk → Sdk
without_view stream_id none s = s
without_view stream_id (some a) s = schedule_retry stream_id a s

-- The rest of `view` once the stream ID is hashed: the intent is remembered and the request sent.
-- The result is a poll every 100 ms against a timeout of 15 s.
unfoldable pub view_hashed : String → ℕ → Option ℕ → Sdk → Sdk
view_hashed stream_id options waiter s =
    let remembered = record s {
      view_intents = set stream_id options s.view_intents;
      stopped_views = drop_member stream_id s.stopped_views;
      pending_views = set stream_id options s.pending_views;
    } in
    if is_open s.signaling
    then arm 15000 (view_timeout stream_id options s.next_id waiter) (
        arm_interval 100 (view_poll stream_id (suc s.next_id))
          (record remembered { play_requests = s.play_requests ++ (stream_id ∷ []) }))
    else without_view stream_id waiter
        (record remembered { pending_views = delete stream_id remembered.pending_views })

-- conn && conn.streamID === streamID
abbrev pub views : String → Connection → Bool
views stream_id conn = elim conn.stream_id [ none ↦ false | some other ↦ str_eq other stream_id ]

abbrev pub side_views : String → Sdk → Pair → Bool
side_views stream_id s pair = elim pair.viewer_side [
  | none ↦ false
  | some c ↦ views stream_id (s.objects c)
]

-- The interval's callback. `interval` is the interval's own number.
unfoldable pub poll_view : String → ℕ → ℕ → Sdk → Sdk
poll_view stream_id interval timeout s =
    if any (λ (entry : String × Pair). side_views stream_id s entry.1) s.connections
    then (let stopped = disarm (some timeout) (disarm (some interval) s) in
        record stopped { pending_views = delete stream_id stopped.pending_views })
    else s

unfoldable pub setup_view_retry : String → ℕ → ℕ → Sdk → Sdk
setup_view_retry stream_id options delay s =
    let cleared = disarm (get stream_id s.view_retry_timers) s in
    let armed = arm delay (retry_pending stream_id options) cleared in
    record armed { view_retry_timers = set stream_id cleared.next_id armed.view_retry_timers }

-- The callback of `view`'s timeout.
unfoldable pub view_timed_out : String → ℕ → ℕ → Option ℕ → Sdk → Sdk
view_timed_out stream_id options interval waiter s =
    without_view stream_id waiter
      (setup_view_retry stream_id options s.view_retry_interval (disarm (some interval) s))

abbrev pub or_same : Sdk → Option Sdk → Sdk
or_same s none = s
or_same s (some t) = t

-- The callback of `_setupViewRetry`'s timer. An error of `view` is caught and logged.
unfoldable pub retry_pending_view : String → ℕ → Sdk → Sdk
retry_pending_view stream_id options s =
    let fired = record s { view_retry_timers = delete stream_id s.view_retry_timers } in
    if s.is_connected && not s.intentional_disconnect
    then or_same fired (view stream_id options none fired)
    else fired

abbrev pub failed_timer : Option ℕ → (ℕ → FailedView) → Option ℕ
failed_timer none objects = none
failed_timer (some a) objects = (objects a).timer

-- clearTimeout of a failed view's timer, and the end of its entry.
abbrev pub forget_failed_view : String → Sdk → Sdk
forget_failed_view stream_id s = record s {
  timers = cleared (failed_timer (get stream_id s.failed_views) s.failed_objects) s.timers;
  failed_views = delete stream_id s.failed_views;
}

unfoldable pub say_byes : List ℕ → Sdk → Sdk
say_byes [] s = s
say_byes (c ∷ cs) s = say_byes cs (say_bye c s)

-- What `stopViewing` forgets before its byes.
unfoldable pub forget_view : String → Sdk → Sdk
forget_view stream_id s =
    let unwanted = record s {
      view_intents = delete stream_id s.view_intents;
      stopped_views = add_member stream_id s.stopped_views;
    } in
    let unscheduled = disarm (get stream_id s.view_retry_timers) unwanted in
    forget_failed_view stream_id (record unscheduled {
      view_retry_timers = delete stream_id unscheduled.view_retry_timers;
      pending_views = delete stream_id unscheduled.pending_views;
    })

-- `stopViewing` up to its byes.
unfoldable pub stop_viewing : String → Sdk → Sdk
stop_viewing stream_id s =
    let forgotten = forget_view stream_id s in
    suspend (stopping stream_id)
      (say_byes (get_connections none (some viewer) (some stream_id) forgotten) forgotten)

-- The end of a viewer direction in `stopViewing`.
unfoldable pub finish_viewer : String → ℕ → Sdk → Sdk
finish_viewer uuid c s =
    remove_side uuid viewer
      (close_pc c (modify c (λ conn. record conn { finalized = true }) (clear_recovery_timers c s)))

abbrev pub finish_side : String → String → Option ℕ → Sdk → Sdk
finish_side stream_id uuid none s = s
finish_side stream_id uuid (some c) s =
    if views stream_id (s.objects c) then finish_viewer uuid c s else s

unfoldable pub finish_viewers : String → List (String × Pair) → Sdk → Sdk
finish_viewers stream_id [] s = s
finish_viewers stream_id ((uuid, pair) ∷ rest) s =
    finish_viewers stream_id rest (finish_side stream_id uuid pair.viewer_side s)

-- `stopViewing` once the byes are flushed or 100 ms are over.
unfoldable pub stop_viewing_flushed : String → Sdk → Sdk
stop_viewing_flushed stream_id s =
    emit (viewing_stopped stream_id) (finish_viewers stream_id s.connections s)
