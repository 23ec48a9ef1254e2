-- ===== src/Signal/Delivery.antt =====
-- What one instance bundles, the other adds.
use ninja_vst3_plugin.Prelude.{
  ℕ, String, Bool, false, not, ◌&&◌, Option, some, List, [], ◌∷◌, ◌++◌, filter, ◌≡◌, refl, ◌∙◌, ap,
  sym, arith, if◌then◌else◌,
}
use mathlib.Core.List.{append_assoc, append-nil}
use ninja_vst3_plugin.Peer.Types.{Kind, viewer, publisher, Sdk}
use ninja_vst3_plugin.Peer.State.{update_self}
use ninja_vst3_plugin.Peer.Lookup.{get_connection}
use ninja_vst3_plugin.Signal.{
  Candidate, Link, route_of, message_of, receiver, is_mismatch, add_candidate, add_candidates,
  handle_remote_ice_candidates,
}
use ninja_vst3_plugin.Signal.Bundles.{opened-payload_of}

-- The candidates that a connection adds: those with a line that its implementation takes.
abbrev pub addable : Link → List Candidate → List Candidate
addable l = filter (λ candidate. not candidate.is_blank && l.takes candidate)

add_one :
    (candidate : Candidate) (l : Link)
    → ((if candidate.is_blank then l else add_candidate candidate l).added
        ≡ l.added ++ addable l (candidate ∷ []))
      × ((if candidate.is_blank then l else add_candidate candidate l).takes ≡ l.takes)
add_one candidate l = (ground (arith, append-nil l.added), ground arith)

filter-cons :
    (p : Candidate → Bool) (x : Candidate) (l : List Candidate)
    → filter p (x ∷ []) ++ filter p l ≡ filter p (x ∷ l)
filter-cons p x l = ground arith

add_candidates-added :
    (candidates : List Candidate) (l : Link)
    → (add_candidates candidates l).added ≡ l.added ++ addable l candidates
unfolding add_candidates
add_candidates-added [] l = sym (append-nil l.added)
add_candidates-added (candidate ∷ rest) l =
    let r = if candidate.is_blank then l else add_candidate candidate l in
    let (one, same_takes) = add_one candidate l in
    let test = λ (f : Candidate → Bool) (c : Candidate). not c.is_blank && f c in
    add_candidates-added rest r
    ∙ (ap (λ f. r.added ++ filter (test f) rest) same_takes
        ∙ (ap (λ y. y ++ addable l rest) one
            ∙ (append_assoc l.added (addable l (candidate ∷ [])) (addable l rest)
                ∙ ap (λ y. l.added ++ y) (filter-cons (test l.takes) candidate rest))))

-- The direction at the other end.
abbrev pub opposite : Kind → Kind
opposite viewer = publisher
opposite publisher = viewer

receiver-route_of :
    (kind : Kind) (uuid : String) (s : Sdk)
    → receiver uuid (route_of kind) s ≡ get_connection uuid (some (opposite kind)) s
unfolding receiver
receiver-route_of viewer uuid s = refl
receiver-route_of publisher uuid s = refl

-- Let decryption undo encryption, with the same password in effect at both ends. A bundle that a
-- connection sends and that reaches the peer under the sender's UUID is added to the peer's connection
-- of the opposite direction, if there is one and the sessions do not differ: the candidates with a
-- line that its implementation takes, in order, after those that it had.
pub handle_remote_ice_candidates-message_of :
    (protected : Bool) (encrypt : List Candidate → Option ℕ) (decrypt : ℕ → Option (List Candidate))
    (from : String) (l : Link) (s : Sdk) (links : ℕ → Link) (c : ℕ)
    → ((candidates : List Candidate) (text : ℕ)
        → encrypt candidates ≡ some text
        → decrypt text ≡ some candidates)
    → get_connection from (some (opposite l.kind)) s ≡ some c
    → is_mismatch l.session (links c).session ≡ false
    → (handle_remote_ice_candidates protected decrypt
        (record (message_of protected encrypt l l.bundle) { uuid = from })
        s
        links
        c).added
      ≡ (links c).added ++ addable (links c) l.bundle
unfolding handle_remote_ice_candidates
handle_remote_ice_candidates-message_of protected encrypt decrypt from l s links c decrypts here
      same_session =
    let there = receiver-route_of l.kind from s ∙ here in
    rw
      (
        handle_remote_ice_candidates,
        opened-payload_of protected encrypt decrypt decrypts l.bundle,
        there,
        same_session,
      )
      (ap (λ (x : Link). x.added) (update_self links c (add_candidates l.bundle (links c)))
        ∙ add_candidates-added l.bundle (links c))
