-- ===== src/Session/Teardown.antt =====
-- What `disconnect` leaves of the connections.
use mathlib.Core.Path.{subst}
use ninja_vst3_plugin.Prelude.{
  ℕ, String, false, Option, none, some, List, [], ◌∷◌, ◌≡◌, refl, arith, All,
}
use ninja_vst3_plugin.Peer.Types.{Timer, Sdk}
use ninja_vst3_plugin.Peer.State.{cleared}
use ninja_vst3_plugin.Peer.Recovery.Failure.{IsOver}
use ninja_vst3_plugin.Session.{
  disconnect_flushed, addresses, tear_down, tear_down_all, clear_view_timers,
}
use ninja_vst3_plugin.Peer.View.Stops.{is_armed, cleared_lem}

tear_down-IsOver : (c : ℕ) (s : Sdk) → IsOver ((tear_down c s).objects c)
unfolding tear_down
tear_down-IsOver c s = ground arith

tear_down-other : (c d : ℕ) (s : Sdk) → IsOver (s.objects d) → IsOver ((tear_down c s).objects d)
unfolding tear_down
tear_down-other c d s torn = ground arith

tear_down_all-other :
    (cs : List ℕ) (d : ℕ) (s : Sdk) → IsOver (s.objects d) → IsOver ((tear_down_all cs s).objects d)
unfolding tear_down_all
tear_down_all-other [] d s over = over
tear_down_all-other (c ∷ cs) d s over =
    tear_down_all-other cs d (tear_down c s) (tear_down-other c d s over)

tear_down_all-IsOver :
    (cs : List ℕ) (s : Sdk) → All (λ c. IsOver ((tear_down_all cs s).objects c)) cs
unfolding tear_down_all
tear_down_all-IsOver [] s = tt
tear_down_all-IsOver (c ∷ cs) s = (
  tear_down_all-other cs c (tear_down c s) (tear_down-IsOver c s),
  tear_down_all-IsOver cs (tear_down c s),
)

cleared-not_armed :
    (i : ℕ) (o : Option ℕ) (timers : List Timer)
    → is_armed i timers ≡ false
    → is_armed i (cleared o timers) ≡ false
cleared-not_armed i o timers h = (cleared_lem i o timers).1 h

clear_view_timers-kept :
    (i : ℕ) (l : List (String × ℕ)) (timers : List Timer)
    → is_armed i timers ≡ false
    → is_armed i (clear_view_timers l timers) ≡ false
unfolding clear_view_timers
clear_view_timers-kept i [] timers h = h
clear_view_timers-kept i ((_, j) ∷ rest) timers h =
    clear_view_timers-kept i rest (cleared (some j) timers) (cleared-not_armed i (some j) timers h)

clear_view_timers_lem :
    (l : List (String × ℕ)) (timers : List Timer)
    → All (λ entry. is_armed entry.1 (clear_view_timers l timers) ≡ false) l
unfolding clear_view_timers
clear_view_timers_lem [] timers = tt
clear_view_timers_lem ((_, i) ∷ rest) timers = (
  clear_view_timers-kept i rest (cleared (some i) timers) (cleared_lem i none timers).0,
  clear_view_timers_lem rest (cleared (some i) timers),
)

tear_down_all-view_retry_timers :
    (cs : List ℕ) (s : Sdk) → (tear_down_all cs s).view_retry_timers ≡ s.view_retry_timers
unfolding tear_down_all tear_down
tear_down_all-view_retry_timers [] s = refl
tear_down_all-view_retry_timers (c ∷ cs) s = tear_down_all-view_retry_timers cs (tear_down c s)

-- Once the byes of a `disconnect` are flushed, each connection that a peer had in either direction is
-- over, no connection is listed, no retry of a pending view is armed, and the socket is gone.
pub disconnect_flushed-IsOver :
    (s : Sdk)
    → All (λ c. IsOver ((disconnect_flushed s).objects c)) (addresses s.connections)
      × ((disconnect_flushed s).connections ≡ [])
      × All (λ entry. is_armed entry.1 (disconnect_flushed s).timers ≡ false) s.view_retry_timers
      × ((disconnect_flushed s).signaling ≡ none)
      × ((disconnect_flushed s).is_connected ≡ false)
unfolding disconnect_flushed
disconnect_flushed-IsOver s =
    let closed = tear_down_all (addresses s.connections) s in
    (
      tear_down_all-IsOver (addresses s.connections) s,
      refl,
      subst (All (λ entry. is_armed entry.1 (disconnect_flushed s).timers ≡ false))
          (tear_down_all-view_retry_timers (addresses s.connections) s)
          (clear_view_timers_lem closed.view_retry_timers closed.timers),
      refl,
      refl,
    )
