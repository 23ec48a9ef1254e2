-- ===== src/Peer/Registry/Endings.antt =====
-- How the timers' callbacks, the departure of peers and the end of a view let the table evolve.
use ninja_vst3_plugin.Prelude.{
  ◌||◌, not, ℕ, ◌≡◌, ◌≢◌, refl, ap, ◌∙◌, String, false, Option, none, some, Option-cases, inl, inr,
  [], ◌∷◌, arith, if_rule,
}
use ninja_vst3_plugin.Prelude.Table.{Table, get, delete}
use ninja_vst3_plugin.Peer.Types.{
  Sdk, viewer, Pair, Reason, Event, connect_timeout, state_disconnected, timed_out, peer_gone,
  peer_hangup, peer_bye, user_left, viewing_stopped, stopping,
}
use ninja_vst3_plugin.Peer.State.{modify, emit, suspend, is_current}
use ninja_vst3_plugin.Peer.Registry.{
  listed, IsPlaced, IsFiledTable, IsFiled, SameObject, SamePlace, IsCalm, IsCalm-refl, IsCalm-trans,
  Ends, Leaves, Evolves, calm, ends, leaves, after,
}
use ninja_vst3_plugin.Peer.Recovery.{finalize}
use ninja_vst3_plugin.Peer.Health.{grace_elapsed, connect_elapsed, recovery_elapsed, is_up}
use ninja_vst3_plugin.Peer.Departure.{
  close_side, handle_user_left, finalize_side, drop_peer, handle_hangup, retry_left_view,
  handle_bye,
}
use ninja_vst3_plugin.Peer.View.{
  views, finish_viewer, finish_side, finish_viewers, stop_viewing, stop_viewing_flushed, say_byes,
  forget_view,
}
use ninja_vst3_plugin.Peer.Lookup.{get_connections}
use ninja_vst3_plugin.Peer.Registry.Calm.{forget_view-IsCalm, say_byes-IsCalm}
use ninja_vst3_plugin.Peer.Registry.Tables.{IsFiledTable-frame}
use ninja_vst3_plugin.Peer.Registry.Operations.{
  recover_connection-Evolves, handle_peer_connection_state-Evolves,
}

pub grace_elapsed-Evolves : (c : ℕ) (s : Sdk) → Evolves s (grace_elapsed c s)
unfolding grace_elapsed
grace_elapsed-Evolves c s =
    let fired = modify c (λ conn. record conn { disconnect_timer = none }) s in
    let quiet : IsCalm s fired = ground arith in
    if_rule (Evolves s) (not (is_current c fired) || is_up (fired.objects c).pc) (λ _. calm quiet)
      (λ _. after (calm quiet) (recover_connection-Evolves c state_disconnected fired))

pub connect_elapsed-Evolves : (c : ℕ) (s : Sdk) → Evolves s (connect_elapsed c s)
unfolding connect_elapsed
connect_elapsed-Evolves c s =
    let fired = modify c (λ conn. record conn { connect_timer = none }) s in
    let quiet : IsCalm s fired = ground arith in
    if_rule (Evolves s) (not (is_current c fired) || is_up (fired.objects c).pc) (λ _. calm quiet)
      (λ _. after (calm quiet) (recover_connection-Evolves c connect_timeout fired))

pub recovery_elapsed-Evolves :
    (c : ℕ) (reason : Reason) (s : Sdk) → Evolves s (recovery_elapsed c reason s)
unfolding recovery_elapsed
recovery_elapsed-Evolves c reason s =
    let fired = modify c (λ conn. record conn { recovery_timer = none; recovering = false }) s in
    let quiet : IsCalm s fired = ground arith in
    if_rule (Evolves s) (not (is_current c fired)) (λ _. calm quiet)
      (λ _.
        if_rule (Evolves s) (is_up (fired.objects c).pc)
          (λ _. after (calm quiet) (handle_peer_connection_state-Evolves c fired))
          (λ _. after (calm quiet) (recover_connection-Evolves c (timed_out reason) fired)))

finalize_others :
    (c d : ℕ) (s : Sdk)
    → ((finalize c s).connections ≡ s.connections)
      × ((finalize c s).next_object ≡ s.next_object)
      × SamePlace (s.objects d) ((finalize c s).objects d)
      × (c ≢ d → SameObject (s.objects d) ((finalize c s).objects d))
unfolding finalize
finalize_others c d s = (refl, refl, ground arith, λ ne. ground arith)

finalize_side_others :
    (c : Option ℕ) (d : ℕ) (s : Sdk)
    → ((finalize_side c s).connections ≡ s.connections)
      × ((finalize_side c s).next_object ≡ s.next_object)
      × SamePlace (s.objects d) ((finalize_side c s).objects d)
      × (c ≢ some d → SameObject (s.objects d) ((finalize_side c s).objects d))
finalize_side_others none d s = (refl, refl, (refl, refl), λ ne. (refl, refl, refl))
finalize_side_others (some c) d s =
    let (table, next, place, same) = finalize_others c d s in
    (table, next, place, λ ne. same (λ e. ne (ap some e)))

drop_peer-Leaves :
    (uuid : String) (pair : Pair) (s : Sdk)
    → get uuid s.connections ≡ some pair
    → Leaves uuid s (drop_peer uuid pair s)
unfolding drop_peer
drop_peer-Leaves uuid pair s found =
    let v = finalize_side pair.viewer_side s in
    let first = λ (d : ℕ). finalize_side_others pair.viewer_side d s in
    let then_next = λ (d : ℕ). finalize_side_others pair.publisher_side d v in
    record {
      connections = ap (delete uuid) ((then_next 0).0 ∙ (first 0).0);
      next = (then_next 0).1 ∙ (first 0).1;
      places = λ d. ((then_next d).2.0 ∙ (first d).2.0, (then_next d).2.1 ∙ (first d).2.1);
      others = λ d no_viewer no_publisher.
          (let (u, k, l) = (first d).3 (λ e. no_viewer (rw (listed, found) e)) in
            let (u', k', l') = (then_next d).3 (λ e. no_publisher (rw (listed, found) e)) in
            (u' ∙ u, k' ∙ k, l' ∙ l));
    }

-- After an operation, one that emits or keeps a failed view only.
emit-Evolves : (e : Event) (s t : Sdk) → Evolves s t → Evolves s (emit e t)
emit-Evolves e s t done =
    after done (calm (let quiet : IsCalm t (emit e t) = ground arith in quiet))

drop_peer-Evolves :
    (uuid : String) (pair : Pair) (s : Sdk)
    → get uuid s.connections ≡ some pair
    → Evolves s (drop_peer uuid pair s)
drop_peer-Evolves uuid pair s found = leaves uuid (drop_peer-Leaves uuid pair s found)

pub handle_hangup-Evolves : (uuid : String) (s : Sdk) → Evolves s (handle_hangup uuid s)
unfolding handle_hangup
handle_hangup-Evolves uuid s = emit-Evolves (peer_gone uuid) s _ (
    emit-Evolves (peer_hangup uuid) s _ (elim (Option-cases (get uuid s.connections)) [
      | inl e ↦ rw e (calm (IsCalm-refl s))
      | inr (pair, e) ↦ rw e (drop_peer-Evolves uuid pair s e)
    ]))

retry_left_view-IsCalm :
    (uuid : String) (c : Option ℕ) (before s : Sdk) → IsCalm s (retry_left_view uuid c before s)
unfolding retry_left_view
retry_left_view-IsCalm uuid none before s = IsCalm-refl s
retry_left_view-IsCalm uuid (some c) before s = ground arith

pub handle_bye-Evolves : (uuid : String) (s : Sdk) → Evolves s (handle_bye uuid s)
unfolding handle_bye
handle_bye-Evolves uuid s = emit-Evolves (peer_gone uuid) s _ (
    emit-Evolves (peer_bye uuid) s _ (elim (Option-cases (get uuid s.connections)) [
      | inl e ↦ rw e (calm (IsCalm-refl s))
      | inr (pair, e) ↦ rw e (
          after (drop_peer-Evolves uuid pair s e)
            (calm (retry_left_view-IsCalm uuid pair.viewer_side s (drop_peer uuid pair s))))
    ]))

close_side-IsCalm : (c : Option ℕ) (s : Sdk) → IsCalm s (close_side c s)
close_side-IsCalm none s = IsCalm-refl s
close_side-IsCalm (some c) s = ground arith

delete-Evolves :
    (uuid : String) (s : Sdk) → Evolves s (record s { connections = delete uuid s.connections })
delete-Evolves uuid s = leaves uuid (record {
  connections = refl;
  next = refl;
  places = λ d. (refl, refl);
  others = λ d _ _. (refl, refl, refl);
})

pub handle_user_left-Evolves : (uuid : String) (s : Sdk) → Evolves s (handle_user_left uuid s)
unfolding handle_user_left
handle_user_left-Evolves uuid s =
    emit-Evolves (user_left uuid) s _ (elim (Option-cases (get uuid s.connections)) [
      | inl e ↦ rw e (calm (IsCalm-refl s))
      | inr (pair, e) ↦ rw e (
          let v = close_side pair.viewer_side s in
          let closed = close_side pair.publisher_side v in
          after
            (calm (
              IsCalm-trans (close_side-IsCalm pair.viewer_side s)
                (close_side-IsCalm pair.publisher_side v)))
            (delete-Evolves uuid closed))
    ])

finish_viewer-Ends :
    (uuid : String) (c : ℕ) (s : Sdk)
    → (s.objects c).uuid ≡ uuid
    → (s.objects c).kind ≡ viewer
    → Ends c s (finish_viewer uuid c s)
unfolding finish_viewer
finish_viewer-Ends uuid c s peer direction = record {
  connections = ground arith;
  next = refl;
  itself = ground arith;
  others = λ d ne. (ground arith);
}

abbrev SamePlaces : Sdk → Sdk → Type 0
SamePlaces s t = (t.next_object ≡ s.next_object) × ((d : ℕ) → SamePlace (s.objects d) (t.objects d))

finish_viewer-SamePlaces : (uuid : String) (c : ℕ) (s : Sdk) → SamePlaces s (finish_viewer uuid c s)
unfolding finish_viewer
finish_viewer-SamePlaces uuid c s = (refl, λ d. (ground arith))

finish_side-Evolves :
    (stream_id uuid : String) (c : Option ℕ) (s : Sdk)
    → IsPlaced s.objects s.next_object uuid viewer c
    → Evolves s (finish_side stream_id uuid c s) × SamePlaces s (finish_side stream_id uuid c s)
finish_side-Evolves stream_id uuid none s placed = (calm (IsCalm-refl s), (refl, λ d. (refl, refl)))
finish_side-Evolves stream_id uuid (some c) s (exists, peer, direction) =
    if_rule (λ t. Evolves s t × SamePlaces s t) (views stream_id (s.objects c))
      (λ _.
        (ends c (finish_viewer-Ends uuid c s peer direction), finish_viewer-SamePlaces uuid c s))
      (λ _. (calm (IsCalm-refl s), (refl, λ d. (refl, refl))))

finish_viewers-Evolves :
    (stream_id : String) (entries : Table Pair) (s : Sdk)
    → IsFiledTable s.objects s.next_object entries
    → Evolves s (finish_viewers stream_id entries s)
unfolding finish_viewers
finish_viewers-Evolves stream_id [] s filed = calm (IsCalm-refl s)
finish_viewers-Evolves stream_id ((uuid, pair) ∷ rest) s ((v, p), filed) =
    let t = finish_side stream_id uuid pair.viewer_side s in
    let (first, (next, same)) = finish_side-Evolves stream_id uuid pair.viewer_side s v in
    after first (
      finish_viewers-Evolves stream_id rest t (
        IsFiledTable-frame s.objects t.objects s.next_object t.next_object rest (λ d _. same d)
          (omega (arith, next)) filed))

pub stop_viewing_flushed-Evolves :
    (stream_id : String) (s : Sdk) → IsFiled s → Evolves s (stop_viewing_flushed stream_id s)
unfolding stop_viewing_flushed
stop_viewing_flushed-Evolves stream_id s filed =
    emit-Evolves (viewing_stopped stream_id) s _
      (finish_viewers-Evolves stream_id s.connections s filed)

pub stop_viewing-IsCalm : (stream_id : String) (s : Sdk) → IsCalm s (stop_viewing stream_id s)
unfolding stop_viewing
stop_viewing-IsCalm stream_id s =
    let forgotten = forget_view stream_id s in
    let told = say_byes (get_connections none (some viewer) (some stream_id) forgotten) forgotten in
    IsCalm-trans (forget_view-IsCalm stream_id s) (
      IsCalm-trans
        (say_byes-IsCalm (get_connections none (some viewer) (some stream_id) forgotten) forgotten)
        (let quiet : IsCalm told (suspend (stopping stream_id) told) = ground arith in quiet))
