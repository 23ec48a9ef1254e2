-- ===== src/Peer/View/Stops.antt =====
-- What is left of a view that the application stops.
use ninja_vst3_plugin.Prelude.{
  ℕ, String, Bool, true, false, Option, none, some, any, ◌==◌, ◌∙◌, List, [], ◌∷◌, ◌≡◌, refl, arith,
  eq_iff,
}
use ninja_vst3_plugin.Peer.Types.{Sdk, Timer, viewer}
use ninja_vst3_plugin.Peer.View.{forget_view, failed_timer, say_byes, stop_viewing}
use ninja_vst3_plugin.Prelude.Table.{get, has, get-delete}
use ninja_vst3_plugin.Prelude.Members.{contains, contains-add_member}
use ninja_vst3_plugin.Peer.State.{cleared, without_timer, say_bye}
use ninja_vst3_plugin.Peer.Lookup.{get_connections}

-- What `stopViewing` and a retry read.
abbrev pub Unwanted : String → Sdk → Type 0
Unwanted stream_id s =
    (contains stream_id s.stopped_views ≡ true)
    × (has stream_id s.view_intents ≡ false)
    × (get stream_id s.view_retry_timers ≡ none)
    × (get stream_id s.failed_views ≡ none)
    × (get stream_id s.pending_views ≡ none)

say_bye-Unwanted :
    (stream_id : String) (c : ℕ) (s : Sdk)
    → (Unwanted stream_id s → Unwanted stream_id (say_bye c s)) × ((say_bye c s).timers ≡ s.timers)
unfolding say_bye
say_bye-Unwanted stream_id c s = (λ u. ground arith, ground arith)

say_byes-Unwanted :
    (stream_id : String) (cs : List ℕ) (s : Sdk)
    → Unwanted stream_id s
    → Unwanted stream_id (say_byes cs s) × ((say_byes cs s).timers ≡ s.timers)
unfolding say_byes
say_byes-Unwanted stream_id [] s u = (u, refl)
say_byes-Unwanted stream_id (c ∷ cs) s u =
    let (kept, same) = say_bye-Unwanted stream_id c s in
    let (rest, all_same) = say_byes-Unwanted stream_id cs (say_bye c s) (kept u) in
    (rest, all_same ∙ same)

abbrev pub is_armed : ℕ → List Timer → Bool
is_armed i timers = any (λ t. t.id == i) timers

pub cleared_lem :
    (i : ℕ) (o : Option ℕ) (timers : List Timer)
    → (is_armed i (cleared (some i) timers) ≡ false)
      × (is_armed i timers ≡ false → is_armed i (cleared o timers) ≡ false)
unfolding cleared without_timer
cleared_lem i none [] = ground arith
cleared_lem i (some j) [] = ground arith
cleared_lem i none (t ∷ ts) = ground (arith, cleared_lem i none ts)
cleared_lem i (some j) (t ∷ ts) = ground (arith, cleared_lem i (some j) ts)

forget_view-Unwanted : (stream_id : String) (s : Sdk) → Unwanted stream_id (forget_view stream_id s)
unfolding forget_view
forget_view-Unwanted stream_id s = (
  ground
      (arith, contains-add_member stream_id stream_id s.stopped_views, eq_iff stream_id stream_id),
  ground (arith, get-delete stream_id stream_id s.view_intents, eq_iff stream_id stream_id),
  ground (arith, get-delete stream_id stream_id s.view_retry_timers, eq_iff stream_id stream_id),
  ground (arith, get-delete stream_id stream_id s.failed_views, eq_iff stream_id stream_id),
  ground (arith, get-delete stream_id stream_id s.pending_views, eq_iff stream_id stream_id),
)

-- A timer that a field held is not armed.
abbrev pub Stopped : Option ℕ → List Timer → Type 0
Stopped none timers = Unit {0}
Stopped (some i) timers = is_armed i timers ≡ false

cleared-Stopped : (o : Option ℕ) (timers : List Timer) → Stopped o (cleared o timers)
cleared-Stopped none timers = tt
cleared-Stopped (some i) timers = (cleared_lem i none timers).0

Stopped-cleared :
    (o p : Option ℕ) (timers : List Timer) → Stopped o timers → Stopped o (cleared p timers)
Stopped-cleared none p timers h = tt
Stopped-cleared (some i) p timers h = (cleared_lem i p timers).1 h

-- The timers of the stream's retry and of its failed view.
abbrev pub Unscheduled : String → Sdk → List Timer → Type 0
Unscheduled stream_id s timers =
    Stopped (get stream_id s.view_retry_timers) timers
    × Stopped (failed_timer (get stream_id s.failed_views) s.failed_objects) timers

forget_view-Unscheduled :
    (stream_id : String) (s : Sdk) → Unscheduled stream_id s (forget_view stream_id s).timers
unfolding forget_view
forget_view-Unscheduled stream_id s =
    let retry = get stream_id s.view_retry_timers in
    let other = failed_timer (get stream_id s.failed_views) s.failed_objects in
    (
      Stopped-cleared retry other (cleared retry s.timers) (cleared-Stopped retry s.timers),
      cleared-Stopped other (cleared retry s.timers),
    )

-- After `stopViewing` the stream is unwanted, whatever was known of it: no intent, no retry, no failed
-- view and no pending request is left, and neither the timer of its retry nor the timer of its failed
-- view is armed. The interval and the timeout of a `view` under way are not among them.
pub stop_viewing-Unwanted :
    (stream_id : String) (s : Sdk)
    → Unwanted stream_id (stop_viewing stream_id s)
      × Unscheduled stream_id s (stop_viewing stream_id s).timers
unfolding stop_viewing
stop_viewing-Unwanted stream_id s =
    let forgotten = forget_view stream_id s in
    let (kept, same) =
      say_byes-Unwanted stream_id (get_connections none (some viewer) (some stream_id) forgotten)
        forgotten (forget_view-Unwanted stream_id s) in
    (kept, rw same (forget_view-Unscheduled stream_id s))
