-- ===== src/Peer/Departure/Ends.antt =====
-- What is left of a peer that said bye, hung up or left.
use ninja_vst3_plugin.Prelude.{
  ℕ, ◌≡◌, refl, ◌∙◌, ◌≢◌, inl, inr, String, Option, none, some, arith, Option-cases, eq_iff,
}
use ninja_vst3_plugin.Prelude.Table.{Table, get, get-delete}
use ninja_vst3_plugin.Peer.Types.{Connection, Pair, Sdk}
use ninja_vst3_plugin.Peer.Recovery.{finalize}
use ninja_vst3_plugin.Peer.Recovery.Failure.{IsOver, finalize-IsOver}
use ninja_vst3_plugin.Peer.Departure.{
  close_side, handle_user_left, finalize_side, drop_peer, handle_hangup, retry_left_view,
  handle_bye,
}

-- The connection of a direction, where the peer has it, is over.
abbrev pub SideIsOver : Option ℕ → (ℕ → Connection) → Type 0
SideIsOver none objects = Unit {0}
SideIsOver (some c) objects = IsOver (objects c)

finalize_other : (c d : ℕ) (s : Sdk) → IsOver (s.objects c) → IsOver ((finalize d s).objects c)
unfolding finalize
finalize_other c d s v = ground arith

finalize_side_other :
    (c : ℕ) (o : Option ℕ) (s : Sdk) → IsOver (s.objects c) → IsOver ((finalize_side o s).objects c)
finalize_side_other c none s v = v
finalize_side_other c (some d) s v = finalize_other c d s v

finalize_side_connections :
    (o : Option ℕ) (s : Sdk) → (finalize_side o s).connections ≡ s.connections
unfolding finalize
finalize_side_connections none s = refl
finalize_side_connections (some c) s = refl

drop_peer_over :
    (uuid : String) (v p : Option ℕ) (s : Sdk)
    → SideIsOver v (finalize_side p (finalize_side v s)).objects
      × SideIsOver p (finalize_side p (finalize_side v s)).objects
drop_peer_over uuid none none s = (tt, tt)
drop_peer_over uuid none (some c) s = (tt, finalize-IsOver c s)
drop_peer_over uuid (some d) none s = (finalize-IsOver d s, tt)
drop_peer_over uuid (some d) (some c) s =
    (finalize_other d c (finalize d s) (finalize-IsOver d s), finalize-IsOver c (finalize d s))

-- A peer is gone, by the objects and the table after it and the table before: both its directions
-- are over, and it is the only one missing.
pub record IsGone (uuid : String) (pair : Pair) (before after : Table Pair)
    (objects : ℕ → Connection) : Type 0 where
  pub unlisted : get uuid after ≡ none
  pub viewer_over : SideIsOver pair.viewer_side objects
  pub publisher_over : SideIsOver pair.publisher_side objects
  pub others : (other : String) → uuid ≢ other → get other after ≡ get other before

abbrev pub Gone : String → Pair → Sdk → Sdk → Type 0
Gone uuid pair s t = IsGone uuid pair s.connections t.connections t.objects

drop_peer-IsGone :
    (uuid : String) (pair : Pair) (s : Sdk) → Gone uuid pair s (drop_peer uuid pair s)
unfolding drop_peer
drop_peer-IsGone uuid pair s =
    let once = finalize_side pair.viewer_side s in
    let closed = finalize_side pair.publisher_side once in
    let (v, p) = drop_peer_over uuid pair.viewer_side pair.publisher_side s in
    let same =
      finalize_side_connections pair.publisher_side once
      ∙ finalize_side_connections pair.viewer_side s in
    record {
      unlisted = ground (arith, get-delete uuid uuid closed.connections, eq_iff uuid uuid);
      viewer_over = v;
      publisher_over = p;
      others = λ other ne.
          ground (arith, get-delete uuid other closed.connections, eq_iff uuid other, same);
    }

retry_left_view_frame :
    (uuid : String) (o : Option ℕ) (before s : Sdk)
    → ((retry_left_view uuid o before s).objects ≡ s.objects)
      × ((retry_left_view uuid o before s).connections ≡ s.connections)
unfolding retry_left_view
retry_left_view_frame uuid none before s = (refl, refl)
retry_left_view_frame uuid (some c) before s = ground arith

-- After a bye and after a hangup alike, both directions of the peer are over, with no timer in their
-- fields, its entry is gone and the entries of the other peers are as they were.
pub handle_bye-IsGone :
    (uuid : String) (pair : Pair) (s : Sdk)
    → get uuid s.connections ≡ some pair
    → Gone uuid pair s (handle_bye uuid s) × Gone uuid pair s (handle_hangup uuid s)
unfolding handle_bye handle_hangup
handle_bye-IsGone uuid pair s e =
    let gone = drop_peer-IsGone uuid pair s in
    let (same_objects, same_table) =
      retry_left_view_frame uuid pair.viewer_side s (drop_peer uuid pair s) in
    rw e (rw (same_objects, same_table) gone, gone)

close_side_frame :
    (o : Option ℕ) (s : Sdk)
    → ((close_side o s).timers ≡ s.timers) × ((close_side o s).connections ≡ s.connections)
close_side_frame none s = (refl, refl)
close_side_frame (some c) s = (refl, refl)

-- When the server tells that a peer has left, its entry goes, but every timer stays armed, those of
-- its two directions too.
pub handle_user_left-timers :
    (uuid : String) (s : Sdk)
    → (get uuid (handle_user_left uuid s).connections ≡ none)
      × ((handle_user_left uuid s).timers ≡ s.timers)
unfolding handle_user_left
handle_user_left-timers uuid s = elim (Option-cases (get uuid s.connections)) [
  | inl e ↦ ground (arith, e)
  | inr (pair, e) ↦
      let once = close_side pair.viewer_side s in
      let closed = close_side pair.publisher_side once in
      let (t1, _) = close_side_frame pair.viewer_side s in
      let (t2, _) = close_side_frame pair.publisher_side once in
      rw (e, handle_user_left)
        (ground (arith, get-delete uuid uuid closed.connections, eq_iff uuid uuid), t2 ∙ t1)
]
