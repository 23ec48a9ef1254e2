-- ===== src/Peer/Recovery/Failure.antt =====
-- What `_handleConnectionFailed` leaves behind.
use ninja_vst3_plugin.Prelude.{
  ℕ, ◌≡◌, refl, ap, ◌∙◌, ◌≢◌, ◌⊎◌, inl, inr, String, true, false, none, some, arith, Option-cases,
  Bool-cases, eq_iff,
}
use ninja_vst3_plugin.Prelude.Table.{Table, get, get-set, get-delete}
use ninja_vst3_plugin.Peer.Types.{
  Kind, viewer, publisher, Connection, Pair, Reason, Sdk, direction_state, peer_disconnected,
}
use ninja_vst3_plugin.Peer.State.{
  emit, is_current, is_current_in, without_side, side, drop_side, is_empty_pair,
}
use ninja_vst3_plugin.Peer.Recovery.{
  remember_failed_view, keep_for_retry, finalize, handle_connection_failed,
}

-- The end of a direction: it is finalized and closed, and holds no timer.
pub record IsOver (conn : Connection) : Type 0 where
  pub finalized : conn.finalized ≡ true
  pub closed : conn.pc.is_closed ≡ true
  pub no_disconnect_timer : conn.disconnect_timer ≡ none
  pub no_recovery_timer : conn.recovery_timer ≡ none
  pub no_connect_timer : conn.connect_timer ≡ none
  pub no_restore_timer : conn.relay_restore_timer ≡ none
  pub no_ping_timer : conn.ping_timer ≡ none

keep_for_retry_frame :
    (c : ℕ) (s : Sdk)
    → ((keep_for_retry c s).objects ≡ s.objects)
      × ((keep_for_retry c s).connections ≡ s.connections)
unfolding keep_for_retry remember_failed_view
keep_for_retry_frame c s = ground arith

drop_side_gone : (kind : Kind) (pair : Pair) → side kind (drop_side kind pair) ≡ none
drop_side_gone viewer pair = refl
drop_side_gone publisher pair = refl

without_side-get :
    (uuid : String) (kind : Kind) (m : Table Pair)
    → (get uuid (without_side uuid kind m) ≡ none)
      ⊎ ((pair : Pair) × (get uuid (without_side uuid kind m) ≡ some pair)
          × (side kind pair ≡ none))
unfolding without_side
without_side-get uuid kind m = elim (Option-cases (get uuid m)) [
  | inl e ↦ inl (ground (arith, e))
  | inr (old, e) ↦ elim (Bool-cases (is_empty_pair (drop_side kind old))) [
    | inl empty ↦ inl (ground (arith, e, empty, eq_iff uuid uuid, get-delete uuid uuid m))
    | inr more ↦ inr (
      drop_side kind old,
      ground (arith, e, more, eq_iff uuid uuid, get-set uuid uuid (drop_side kind old) m),
      drop_side_gone kind old,
    )
  ]
]

pub finalize-IsOver : (c : ℕ) (s : Sdk) → IsOver ((finalize c s).objects c)
unfolding finalize
finalize-IsOver c s = ground arith

pub finalize_frame :
    (c : ℕ) (s : Sdk)
    → ((finalize c s).connections ≡ s.connections)
      × (((finalize c s).objects c).uuid ≡ (s.objects c).uuid)
      × (((finalize c s).objects c).kind ≡ (s.objects c).kind)
unfolding finalize
finalize_frame c s = ground arith

pub finalize_other : (c d : ℕ) (s : Sdk) → c ≢ d → (finalize c s).objects d ≡ s.objects d
unfolding finalize
finalize_other c d s ne = ground arith

-- Without its side in the table a connection is not current.
not_current :
    (c : ℕ) (s : Sdk)
    → (get (s.objects c).uuid s.connections ≡ none)
      ⊎ ((pair : Pair) × (get (s.objects c).uuid s.connections ≡ some pair)
          × (side (s.objects c).kind pair ≡ none))
    → is_current c s ≡ false
unfolding is_current_in
not_current c s (inl e) = ground arith
not_current c s (inr (pair, e, gone)) = rw (e, is_current_in) (rw gone)

pub failed_state_lem :
    (c : ℕ) (reason : Reason) (s : Sdk)
    → (s.objects c).finalized ≡ false
    → ((handle_connection_failed c reason s).objects ≡ (finalize c s).objects)
      × ((handle_connection_failed c reason s).connections
          ≡ without_side (s.objects c).uuid (s.objects c).kind s.connections)
unfolding handle_connection_failed
failed_state_lem c reason s e =
    let over =
      emit (direction_state (s.objects c).kind false c)
        (emit (peer_disconnected c) (finalize c s)) in
    let (objects, connections) = keep_for_retry_frame c over in
    rw e (
      objects,
      ap (without_side (s.objects c).uuid (s.objects c).kind)
          (connections ∙ (finalize_frame c s).0),
    )

-- A failed direction is over: it is finalized and closed, none of its timers is in its fields, it is
-- no longer the current connection of its peer, and no other connection is touched.
pub handle_connection_failed-IsOver :
    (c : ℕ) (reason : Reason) (s : Sdk)
    → (s.objects c).finalized ≡ false
    → IsOver ((handle_connection_failed c reason s).objects c)
      × (is_current c (handle_connection_failed c reason s) ≡ false)
      × ((d : ℕ) → c ≢ d → (handle_connection_failed c reason s).objects d ≡ s.objects d)
handle_connection_failed-IsOver c reason s e =
    let (objects, connections) = failed_state_lem c reason s e in
    let (_, same_uuid, same_kind) = finalize_frame c s in
    (
      rw objects (finalize-IsOver c s),
      not_current c (handle_connection_failed c reason s) (
          rw (objects, connections, same_uuid, same_kind)
            (without_side-get (s.objects c).uuid (s.objects c).kind s.connections)),
      λ d ne. rw objects (finalize_other c d s ne),
    )
