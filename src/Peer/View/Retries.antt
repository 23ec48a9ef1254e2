-- ===== src/Peer/View/Retries.antt =====
-- What becomes of a failed view when its retry is due.
use ninja_vst3_plugin.Prelude.{
  ℕ, suc, String, true, false, none, some, [], ◌∷◌, ◌++◌, ◌≡◌, arith, eq_iff,
}
use ninja_vst3_plugin.Prelude.Table.{get, get-delete}
use ninja_vst3_plugin.Peer.Types.{Sdk, retry_view, requesting_view}
use ninja_vst3_plugin.Peer.Backoff.{retry_delay}
use ninja_vst3_plugin.Peer.View.{
  is_wanted, track_pending, view, schedule_retry, retry_failed_viewer,
}

-- A failed view whose retry is due and that is no longer wanted is forgotten, and nothing is armed
-- or sent for it. One that is wanted stays, its count grows by one, and it goes on: while the socket
-- is connected by a view that waits for its result, otherwise by one more retry after the delay
-- for its new count, whose timer it remembers.
pub retry_failed_viewer_lem :
    (stream_id : String) (a : ℕ) (s : Sdk)
    → get stream_id s.failed_views ≡ some a
    → (is_wanted stream_id s ≡ false
        → (get stream_id (retry_failed_viewer stream_id s).failed_views ≡ none)
          × ((retry_failed_viewer stream_id s).timers ≡ s.timers)
          × ((retry_failed_viewer stream_id s).suspended ≡ s.suspended))
      × (is_wanted stream_id s ≡ true
          → ((retry_failed_viewer stream_id s).failed_views ≡ s.failed_views)
            × (((retry_failed_viewer stream_id s).failed_objects a).retry_count
                ≡ suc (s.failed_objects a).retry_count)
            × (s.is_connected ≡ true
                → (retry_failed_viewer stream_id s).suspended
                  ≡ s.suspended
                    ++ (requesting_view stream_id (s.failed_objects a).view_options (some a) ∷ []))
            × (s.is_connected ≡ false
                → ((retry_failed_viewer stream_id s).timers
                    ≡ s.timers
                      ++ (record {
                        id = s.next_id;
                        delay = retry_delay (suc (s.failed_objects a).retry_count);
                        repeats = false;
                        callback = retry_view stream_id a;
                      }
                          ∷ []))
                  × (((retry_failed_viewer stream_id s).failed_objects a).timer ≡ some s.next_id)))
unfolding retry_failed_viewer view schedule_retry track_pending
retry_failed_viewer_lem stream_id a s found = (
  λ unwanted. (
    ground (arith, get-delete stream_id stream_id s.failed_views, eq_iff stream_id stream_id),
    ground arith,
    ground arith,
  ),
  λ wanted. (
    ground arith,
    ground arith,
    λ connected. ground arith,
    λ disconnected. (ground arith, ground arith),
  ),
)

-- A failed view whose retry is due and that is no longer wanted is forgotten, and nothing is armed
-- or sent for it.
pub retry_failed_viewer_unwanted :
    (stream_id : String) (a : ℕ) (s : Sdk)
    → get stream_id s.failed_views ≡ some a
    → is_wanted stream_id s ≡ false
    → (get stream_id (retry_failed_viewer stream_id s).failed_views ≡ none)
      × ((retry_failed_viewer stream_id s).timers ≡ s.timers)
      × ((retry_failed_viewer stream_id s).suspended ≡ s.suspended)
retry_failed_viewer_unwanted stream_id a s found unwanted =
    (retry_failed_viewer_lem stream_id a s found).0 unwanted

-- A failed view that is wanted and due while the socket is connected stays, is counted once more,
-- and is asked for again by a view that waits for its result.
pub retry_failed_viewer_connected :
    (stream_id : String) (a : ℕ) (s : Sdk)
    → get stream_id s.failed_views ≡ some a
    → is_wanted stream_id s ≡ true
    → s.is_connected ≡ true
    → ((retry_failed_viewer stream_id s).failed_views ≡ s.failed_views)
      × (((retry_failed_viewer stream_id s).failed_objects a).retry_count
          ≡ suc (s.failed_objects a).retry_count)
      × ((retry_failed_viewer stream_id s).suspended
          ≡ s.suspended
            ++ (requesting_view stream_id (s.failed_objects a).view_options (some a) ∷ []))
retry_failed_viewer_connected stream_id a s found wanted connected =
    let (kept, counted, asked, _) = (retry_failed_viewer_lem stream_id a s found).1 wanted in
    (kept, counted, asked connected)

-- A failed view that is wanted and due while the socket is not connected stays, is counted once more,
-- and is retried after the delay for its new count by a timer that its record holds.
pub retry_failed_viewer_disconnected :
    (stream_id : String) (a : ℕ) (s : Sdk)
    → get stream_id s.failed_views ≡ some a
    → is_wanted stream_id s ≡ true
    → s.is_connected ≡ false
    → ((retry_failed_viewer stream_id s).failed_views ≡ s.failed_views)
      × (((retry_failed_viewer stream_id s).failed_objects a).retry_count
          ≡ suc (s.failed_objects a).retry_count)
      × ((retry_failed_viewer stream_id s).timers
          ≡ s.timers
            ++ (record {
              id = s.next_id;
              delay = retry_delay (suc (s.failed_objects a).retry_count);
              repeats = false;
              callback = retry_view stream_id a;
            }
                ∷ []))
      × (((retry_failed_viewer stream_id s).failed_objects a).timer ≡ some s.next_id)
retry_failed_viewer_disconnected stream_id a s found wanted disconnected =
    let (kept, counted, _, later) = (retry_failed_viewer_lem stream_id a s found).1 wanted in
    let (armed, held) = later disconnected in (kept, counted, armed, held)
