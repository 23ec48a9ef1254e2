-- ===== src/Peer/View/Retried.antt =====
-- A view under way when the application stops it.
use ninja_vst3_plugin.Prelude.{
  get_last?-concat, ◌++◌, ℕ, String, true, false, Option, none, some, ◌==◌, ◌∙◌, List, [], ◌∷◌, ◌≡◌,
  ◌≢◌, refl, arith, eq_iff, if◌then◌else◌, ap,
}
use mathlib.Core.List.{get_last?}
use ninja_vst3_plugin.Peer.Types.{
  requesting_view, Sdk, Timer, Callback, view_timeout, retry_pending, viewer,
}
use ninja_vst3_plugin.Peer.View.{
  view, view_hashed, track_pending, setup_view_retry, view_timed_out, retry_pending_view,
  forget_view, failed_timer, say_byes, stop_viewing, is_open,
}
use ninja_vst3_plugin.Prelude.Table.{get}
use ninja_vst3_plugin.Prelude.Members.{contains, contains-drop_member}
use ninja_vst3_plugin.Peer.State.{cleared, without_timer, say_bye}
use ninja_vst3_plugin.Peer.Lookup.{get_connections}
use ninja_vst3_plugin.Peer.View.Stops.{stop_viewing-Unwanted}

-- What the armed timer of a number calls.
unfoldable pub callback_of : ℕ → List Timer → Option Callback
callback_of i [] = none
callback_of i (t ∷ ts) = let rest = callback_of i ts in if t.id == i then some t.callback else rest

callback_of-cleared :
    (i : ℕ) (o : Option ℕ) (timers : List Timer)
    → o ≢ some i
    → callback_of i (cleared o timers) ≡ callback_of i timers
unfolding callback_of cleared without_timer
callback_of-cleared i none timers ne = refl
callback_of-cleared i (some j) [] ne = refl
callback_of-cleared i (some j) (t ∷ ts) ne =
    ground (arith, ne, callback_of-cleared i (some j) ts ne)

-- What the byes leave as it is.
record IsKept (s t : Sdk) : Type 0 where
  pub connected : t.is_connected ≡ s.is_connected
  pub going : t.intentional_disconnect ≡ s.intentional_disconnect
  pub socket : t.signaling ≡ s.signaling
  pub requests : t.play_requests ≡ s.play_requests
  pub timers : t.timers ≡ s.timers

say_bye-IsKept : (c : ℕ) (s : Sdk) → IsKept s (say_bye c s)
unfolding say_bye
say_bye-IsKept c s = ground arith

say_byes-IsKept : (cs : List ℕ) (s : Sdk) → IsKept s (say_byes cs s)
unfolding say_byes
say_byes-IsKept [] s = ground arith
say_byes-IsKept (c ∷ cs) s =
    let one = say_bye-IsKept c s in
    let rest = say_byes-IsKept cs (say_bye c s) in
    record {
      connected = rest.connected ∙ one.connected;
      going = rest.going ∙ one.going;
      socket = rest.socket ∙ one.socket;
      requests = rest.requests ∙ one.requests;
      timers = rest.timers ∙ one.timers;
    }

stop_viewing-IsKept :
    (stream_id : String) (s : Sdk)
    → IsKept
        (record s {
          timers =
              cleared
                (failed_timer (get stream_id s.failed_views) s.failed_objects)
                (cleared (get stream_id s.view_retry_timers) s.timers);
        })
        (stop_viewing stream_id s)
unfolding stop_viewing forget_view
stop_viewing-IsKept stream_id s =
    let kept =
      say_byes-IsKept
        (get_connections none (some viewer) (some stream_id) (forget_view stream_id s))
        (forget_view stream_id s) in
    record {
      connected = kept.connected;
      going = kept.going;
      socket = kept.socket;
      requests = kept.requests;
      timers = kept.timers;
    }

timed_out_lem :
    (stream_id : String) (options interval : ℕ) (s : Sdk)
    → get_last? (view_timed_out stream_id options interval none s).timers
      ≡ some (record {
        id = s.next_id;
        delay = s.view_retry_interval;
        repeats = false;
        callback = retry_pending stream_id options;
      })
unfolding view_timed_out setup_view_retry
timed_out_lem stream_id options interval s =
    get_last?-concat
      (cleared (get stream_id s.view_retry_timers) (cleared (some interval) s.timers)) _

retried_lem :
    (stream_id : String) (options interval : ℕ) (s : Sdk)
    → s.is_connected ≡ true
    → s.intentional_disconnect ≡ false
    → ((retry_pending_view stream_id options
          (view_timed_out stream_id options interval none s)).suspended
        ≡ s.suspended ++ (requesting_view stream_id options none ∷ []))
      × ((retry_pending_view stream_id options
            (view_timed_out stream_id options interval none s)).signaling
          ≡ s.signaling)
      × ((retry_pending_view stream_id options
            (view_timed_out stream_id options interval none s)).play_requests
          ≡ s.play_requests)
unfolding retry_pending_view view_timed_out setup_view_retry view track_pending
retried_lem stream_id options interval s connected going = ground (arith, connected, going)

hashed_lem :
    (stream_id : String) (options : ℕ) (s : Sdk)
    → is_open s.signaling ≡ true
    → ((view_hashed stream_id options none s).play_requests ≡ s.play_requests ++ (stream_id ∷ []))
      × (contains stream_id (view_hashed stream_id options none s).stopped_views ≡ false)
unfolding view_hashed
hashed_lem stream_id options s open_now = (
  ground (arith, open_now),
  ground (
    arith,
    open_now,
    eq_iff stream_id stream_id,
    contains-drop_member stream_id stream_id s.stopped_views,
  ),
)

-- The timeout of a view is armed, under a number that is neither that of the stream's retry nor that
-- of its failed view, and the application stops the stream. The stream is then stopped, but the
-- timeout is still armed; when it fires it arms a retry of the stream; when that fires, with the socket
-- connected and the application not disconnected, `view` suspends itself for its hash; and when it goes
-- on over an open socket, it asks for the stream once more and takes it out of the stopped ones.
pub stop_viewing-retried :
    (stream_id : String) (options interval i : ℕ) (s : Sdk)
    → callback_of i s.timers ≡ some (view_timeout stream_id options interval none)
    → get stream_id s.view_retry_timers ≢ some i
    → failed_timer (get stream_id s.failed_views) s.failed_objects ≢ some i
    → s.is_connected ≡ true
    → s.intentional_disconnect ≡ false
    → is_open s.signaling ≡ true
    → (contains stream_id (stop_viewing stream_id s).stopped_views ≡ true)
      × (callback_of i (stop_viewing stream_id s).timers
          ≡ some (view_timeout stream_id options interval none))
      × (get_last?
            (view_timed_out stream_id options interval none (stop_viewing stream_id s)).timers
          ≡ some (record {
            id = (stop_viewing stream_id s).next_id;
            delay = (stop_viewing stream_id s).view_retry_interval;
            repeats = false;
            callback = retry_pending stream_id options;
          }))
      × ((retry_pending_view stream_id options
            (view_timed_out stream_id options interval none (stop_viewing stream_id s))).suspended
          ≡ (stop_viewing stream_id s).suspended ++ (requesting_view stream_id options none ∷ []))
      × ((view_hashed stream_id options none (
            retry_pending_view stream_id options (
              view_timed_out stream_id options interval none
                (stop_viewing stream_id s)))).play_requests
          ≡ s.play_requests ++ (stream_id ∷ []))
      × (contains stream_id
            (view_hashed stream_id options none (
              retry_pending_view stream_id options (
                view_timed_out stream_id options interval none
                  (stop_viewing stream_id s)))).stopped_views
          ≡ false)
stop_viewing-retried stream_id options interval i s armed not_retry not_failed connected going
      open_now =
    let t = stop_viewing stream_id s in
    let kept = stop_viewing-IsKept stream_id s in
    let retry = get stream_id s.view_retry_timers in
    let failed = failed_timer (get stream_id s.failed_views) s.failed_objects in
    let (suspends, same_socket, same_requests) =
      retried_lem stream_id options interval t (kept.connected ∙ connected) (kept.going ∙ going) in
    let (asks, wanted) =
      hashed_lem stream_id options
        (retry_pending_view stream_id options (view_timed_out stream_id options interval none t))
        (ap is_open (same_socket ∙ kept.socket) ∙ open_now) in
    (
      (stop_viewing-Unwanted stream_id s).0.0,
      ap (callback_of i) kept.timers
          ∙ (callback_of-cleared i failed (cleared retry s.timers) not_failed
              ∙ (callback_of-cleared i retry s.timers not_retry ∙ armed)),
      timed_out_lem stream_id options interval t,
      suspends,
      asks ∙ ap (λ l. l ++ (stream_id ∷ [])) (same_requests ∙ kept.requests),
      wanted,
    )
