-- ===== src/Peer/Recovery/Kept.antt =====
-- What a failed view leaves for its retry.
use ninja_vst3_plugin.Prelude.{
  ℕ, get_last?-concat, ◌≡◌, ap, ◌∙◌, ◌⊎◌, String, true, false, none, some, arith, eq_iff,
}
use ninja_vst3_plugin.Prelude.Table.{get, get-set}
use ninja_vst3_plugin.Peer.Types.{
  Kind, viewer, publisher, Reason, Event, Sdk, connection_failed, retry_view, direction_state,
  peer_disconnected,
}
use ninja_vst3_plugin.Peer.State.{emit, remove_side, cleared}
use mathlib.Core.List.{get_last?}
use ninja_vst3_plugin.Peer.Recovery.{
  previous_count, previous_timer, remember_failed_view, keep_for_retry, finalize,
  handle_connection_failed,
}

-- The record of a failed view at address `a`, and its timer, which is the last one armed.
pub record IsKept (stream_id : String) (wanted a timer count : ℕ) (t : Sdk) : Type 0 where
  pub listed : get stream_id t.failed_views ≡ some a
  pub counted : (t.failed_objects a).retry_count ≡ count
  pub options : (t.failed_objects a).view_options ≡ wanted
  pub timed : (t.failed_objects a).timer ≡ some timer
  pub armed :
      get_last? t.timers
      ≡ some
          (record { id = timer; delay = 2000; repeats = false; callback = retry_view stream_id a })

remember_failed_view-IsKept :
    (c : ℕ) (stream_id : String) (wanted : ℕ) (s : Sdk)
    → IsKept stream_id wanted s.next_failed s.next_id
        (previous_count (get stream_id s.failed_views) s.failed_objects)
        (remember_failed_view c stream_id wanted s)
unfolding remember_failed_view
remember_failed_view-IsKept c stream_id wanted s = record {
  listed =
      ground (
        arith,
        get-set stream_id stream_id s.next_failed s.failed_views,
        eq_iff stream_id stream_id,
      );
  counted = ground arith;
  options = ground arith;
  timed = ground arith;
  armed =
      get_last?-concat
        (cleared (previous_timer (get stream_id s.failed_views) s.failed_objects) s.timers) _;
}

keep_for_retry_wanted :
    (c : ℕ) (stream_id : String) (wanted : ℕ) (s : Sdk)
    → (s.objects c).kind ≡ viewer
    → (s.objects c).stream_id ≡ some stream_id
    → get stream_id s.view_intents ≡ some wanted
    → s.intentional_disconnect ≡ false
    → keep_for_retry c s ≡ remember_failed_view c stream_id wanted s
unfolding keep_for_retry
keep_for_retry_wanted c stream_id wanted s k str w i = rw (k, keep_for_retry) (rw str (rw w (rw i)))

keep_for_retry_unwanted :
    (c : ℕ) (stream_id : String) (s : Sdk)
    → (s.objects c).stream_id ≡ some stream_id
    → ((s.objects c).kind ≡ publisher)
      ⊎ (get stream_id s.view_intents ≡ none)
      ⊎ (s.intentional_disconnect ≡ true)
    → keep_for_retry c s ≡ s
unfolding keep_for_retry
keep_for_retry_unwanted c stream_id s str h = ground (arith, str, h)

-- The state in which `_handleConnectionFailed` looks for a stream to retry.
abbrev ended : ℕ → Sdk → Sdk
ended c s =
    emit (direction_state (s.objects c).kind false c) (emit (peer_disconnected c) (finalize c s))

ended_frame :
    (c : ℕ) (s : Sdk)
    → ((ended c s).connections ≡ s.connections)
      × (((ended c s).objects c).kind ≡ (s.objects c).kind)
      × (((ended c s).objects c).stream_id ≡ (s.objects c).stream_id)
      × ((ended c s).view_intents ≡ s.view_intents)
      × ((ended c s).intentional_disconnect ≡ s.intentional_disconnect)
      × ((ended c s).next_failed ≡ s.next_failed)
      × ((ended c s).next_id ≡ s.next_id)
      × ((ended c s).failed_views ≡ s.failed_views)
      × ((ended c s).failed_objects ≡ s.failed_objects)
unfolding finalize
ended_frame c s = ground arith

IsKept-frame :
    {stream_id : String} {wanted a timer count : ℕ} {t : Sdk} (e : Event) (uuid : String)
    (kind : Kind)
    → IsKept stream_id wanted a timer count t
    → IsKept stream_id wanted a timer count (emit e (remove_side uuid kind t))
IsKept-frame e uuid kind v = record {
  listed = v.listed;
  counted = v.counted;
  options = v.options;
  timed = v.timed;
  armed = v.armed;
}

failed-keep :
    (c : ℕ) (reason : Reason) (s : Sdk)
    → (s.objects c).finalized ≡ false
    → handle_connection_failed c reason s
      ≡ emit
          (connection_failed c reason)
          (remove_side (s.objects c).uuid (s.objects c).kind (keep_for_retry c (ended c s)))
unfolding handle_connection_failed
failed-keep c reason s e = rw e

-- A viewer's stream that is still wanted gets a record for its retry, which counts on from the last
-- one, and a timer of two seconds that retries it; nothing is kept for a publisher, or for a stream
-- that is not wanted any more, or once the application has disconnected.
pub handle_connection_failed_retry :
    (c : ℕ) (reason : Reason) (s : Sdk) (stream_id : String)
    → (s.objects c).finalized ≡ false
    → (s.objects c).stream_id ≡ some stream_id
    → ((wanted : ℕ)
        → (s.objects c).kind ≡ viewer
        → get stream_id s.view_intents ≡ some wanted
        → s.intentional_disconnect ≡ false
        → IsKept stream_id wanted s.next_failed s.next_id
            (previous_count (get stream_id s.failed_views) s.failed_objects)
            (handle_connection_failed c reason s))
      × (((s.objects c).kind ≡ publisher)
            ⊎ (get stream_id s.view_intents ≡ none)
            ⊎ (s.intentional_disconnect ≡ true)
          → ((handle_connection_failed c reason s).failed_views ≡ s.failed_views)
            × ((handle_connection_failed c reason s).next_id ≡ s.next_id))
unfolding remember_failed_view finalize
handle_connection_failed_retry c reason s stream_id e str =
    let same = ended_frame c s in
    let str' : ((ended c s).objects c).stream_id ≡ some stream_id = same.2 ∙ str in
    (
      λ wanted k w i.
          let kept = remember_failed_view-IsKept c stream_id wanted (ended c s) in
          rw
            (
              failed-keep c reason s e,
              keep_for_retry_wanted c stream_id wanted (ended c s) (same.1 ∙ k) str'
                  (ap (get stream_id) same.3 ∙ w) (same.4 ∙ i),
            )
            (IsKept-frame _ (s.objects c).uuid (s.objects c).kind
              (rw (same.5, same.6, same.7, same.8) at kept)),
      λ h.
          rw
            (
              failed-keep c reason s e,
              keep_for_retry_unwanted c stream_id (ended c s) str' (rw (same.1, same.3, same.4) h),
            )
            (same.7, same.6),
    )

-- A viewer's stream that is still wanted gets, when its direction fails, a record for its retry,
-- which counts on from the last one, and a timer of two seconds that retries it.
pub handle_connection_failed-IsKept :
    (c : ℕ) (reason : Reason) (s : Sdk) (stream_id : String) (wanted : ℕ)
    → (s.objects c).finalized ≡ false
    → (s.objects c).stream_id ≡ some stream_id
    → (s.objects c).kind ≡ viewer
    → get stream_id s.view_intents ≡ some wanted
    → s.intentional_disconnect ≡ false
    → IsKept stream_id wanted s.next_failed s.next_id
        (previous_count (get stream_id s.failed_views) s.failed_objects)
        (handle_connection_failed c reason s)
handle_connection_failed-IsKept c reason s stream_id wanted alive named is_viewer intent going =
    (handle_connection_failed_retry c reason s stream_id alive named).0 wanted is_viewer intent
      going

-- Nothing is kept for a direction that fails as a publisher's, or for a stream that is not wanted any
-- more, or once the application has disconnected: the failed views are as they were and no timer is
-- numbered.
pub handle_connection_failed_unwanted :
    (c : ℕ) (reason : Reason) (s : Sdk) (stream_id : String)
    → (s.objects c).finalized ≡ false
    → (s.objects c).stream_id ≡ some stream_id
    → ((s.objects c).kind ≡ publisher)
      ⊎ (get stream_id s.view_intents ≡ none)
      ⊎ (s.intentional_disconnect ≡ true)
    → ((handle_connection_failed c reason s).failed_views ≡ s.failed_views)
      × ((handle_connection_failed c reason s).next_id ≡ s.next_id)
handle_connection_failed_unwanted c reason s stream_id alive named unwanted =
    (handle_connection_failed_retry c reason s stream_id alive named).1 unwanted
