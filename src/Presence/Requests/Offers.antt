-- ===== src/Presence/Requests/Offers.antt =====
-- Which play requests are answered.
use ninja_vst3_plugin.Prelude.{
  ℕ, String, true, false, Option, none, some, List, [], ◌∷◌, ◌++◌, ◌≡◌, ◌≢◌, ◌⊎◌, ◌∙◌, ap, sym,
  arith, eq_iff, Option-cases, inl, inr, length, take_out-last,
}
use ninja_vst3_plugin.Prelude.Table.{get, get-set}
use ninja_vst3_plugin.Peer.Types.{publisher, PeerConnection, DataChannel}
use ninja_vst3_plugin.Peer.Create.{create_connection, pair_of}
use ninja_vst3_plugin.Peer.State.{put_side}
use ninja_vst3_plugin.Peer.Registry.{listed}
use ninja_vst3_plugin.Names.{append, effective_password, strip_hash, is_empty}
use ninja_vst3_plugin.Names.Suffix.{strip_hash-append}
use ninja_vst3_plugin.Presence.State.{
  Presence, offer, send_message, is_publishing, is_open, Answer, hashing, connecting, offering,
  sealing,
}
use ninja_vst3_plugin.Presence.Requests.{
  is_text, hash_key_of, ensure_password_hash, password_hash_ready, connect_viewer, send_offer,
  offer_created, offer_sealed, play_request_hashed, handle_play_request, Resumption, wait_answer,
  answered, answer_resumed,
}

module _ (digest : String → ℕ → String) (encrypt : ℕ → Option ℕ) where
  -- A hash that is kept under the key of the password is the password's hash.
  abbrev pub IsHashed : String → Presence → Type 0
  IsHashed password s =
      (s.hash ≡ none)
      ⊎ (s.hash_key ≢ some (hash_key_of digest encrypt password s))
      ⊎ (s.hash ≡ some (digest (append password s.salt) 6))

  -- The state once `_ensurePasswordHash` has ended.
  abbrev hashed : Presence → Presence
  hashed s =
      password_hash_ready digest encrypt (ensure_password_hash digest encrypt s).0
        (ensure_password_hash digest encrypt s).1

  hashed-hash :
      (password : String) (s : Presence)
      → effective_password s.password ≡ some password
      → IsHashed password s
      → (hashed s).hash ≡ some (digest (append password s.salt) 6)
  unfolding ensure_password_hash password_hash_ready
  hashed-hash password s on (inl e) = ground (arith, on, e)
  hashed-hash password s on (inr (inl ne)) = elim (Option-cases s.hash_key) [
    | inl e ↦ ground (arith, on, e)
    | inr (k, e) ↦ ground (arith, on, e, ne, eq_iff (hash_key_of digest encrypt password s) k)
  ]
  hashed-hash password s on (inr (inr e)) = ground (arith, on, e)

  hashed_frame :
      (s : Presence)
      → ((hashed s).password ≡ s.password)
        × ((hashed s).monitors ≡ s.monitors)
        × ((hashed s).stream_id ≡ s.stream_id)
        × ((hashed s).sdk ≡ s.sdk)
        × ((hashed s).requests ≡ s.requests)
        × ((hashed s).answers ≡ s.answers)
        × ((ensure_password_hash digest encrypt s).1.answers ≡ s.answers)
  unfolding ensure_password_hash password_hash_ready
  hashed_frame s = ground arith

  resumed_last :
      (ws : List Answer) (a : Answer) (r : Resumption) (t : Presence)
      → t.answers ≡ ws
      → answer_resumed digest encrypt (length ws) r (wait_answer digest encrypt a t)
        ≡ answered digest encrypt a r t
  unfolding answer_resumed
  resumed_last ws a r t e =
      ap (λ l. answer_resumed digest encrypt (length l) r (wait_answer digest encrypt a t)) (sym e)
      ∙ simp (answer_resumed, take_out-last t.answers a)

  connected_lem :
      (uuid : String) (pc : PeerConnection) (channel : DataChannel) (s : Presence)
      → listed uuid publisher (connect_viewer digest encrypt uuid pc channel s).sdk.connections
        ≡ some s.sdk.next_object
  unfolding create_connection
  connected_lem uuid pc channel s = ground (
    arith,
    eq_iff uuid uuid,
    get-set uuid uuid (put_side publisher s.sdk.next_object (pair_of (get uuid s.sdk.connections)))
        s.sdk.connections,
  )

  accepted :
      (uuid asked_for stream_id : String) (t : Presence)
      → is_publishing t ≡ true
      → t.stream_id ≡ some stream_id
      → strip_hash t.hash asked_for ≡ stream_id
      → play_request_hashed digest encrypt uuid asked_for t
        ≡ wait_answer digest encrypt (connecting uuid) t
  unfolding play_request_hashed
  accepted uuid asked_for stream_id t publishes published same =
      let hit : is_text (strip_hash t.hash asked_for) t.stream_id ≡ true =
        ground (arith, published, same, eq_iff (strip_hash t.hash asked_for) stream_id) in
      simp (play_request_hashed, publishes, hit)

  created_lem :
      (uuid session stream_id hash password : String) (description : ℕ) (t : Presence)
      → effective_password t.password ≡ some password
      → t.hash ≡ some hash
      → t.stream_id ≡ some stream_id
      → offer_created digest encrypt (some uuid) session (some description) t
        ≡ wait_answer digest encrypt
            (sealing (some uuid) session (some (append stream_id hash)) description)
            t
  unfolding offer_created send_offer
  created_lem uuid session stream_id hash password description t on kept published =
      simp (offer_created, send_offer, on, kept, published)

  sealed_lem :
      (uuid stream_id : Option String) (session : String) (description sealed : ℕ) (t : Presence)
      → encrypt description ≡ some sealed
      → is_open t.sdk.signaling ≡ true
      → offer_sealed digest encrypt uuid session stream_id description t
        ≡ record t { requests = t.requests ++ (offer uuid session stream_id sealed true ∷ []) }
  unfolding offer_sealed send_message
  sealed_lem uuid stream_id session description sealed t works open_now =
      simp (offer_sealed, works, open_now)

  -- A handler that waits last is resumed four times.
  abbrev pub resumed_four_times : ℕ → Resumption → Presence → Presence
  resumed_four_times i r s = answer_resumed digest encrypt i r (
      answer_resumed digest encrypt i r
        (answer_resumed digest encrypt i r (answer_resumed digest encrypt i r s)))

  -- The four waits of a request that is accepted.
  offered_lem :
      (uuid asked_for stream_id password : String) (description sealed : ℕ) (r : Resumption)
      (s : Presence)
      → (hashed s).hash ≡ some (digest (append password s.salt) 6)
      → strip_hash (hashed s).hash asked_for ≡ stream_id
      → effective_password s.password ≡ some password
      → is_publishing s ≡ true
      → s.stream_id ≡ some stream_id
      → r.description ≡ some description
      → encrypt description ≡ some sealed
      → is_open s.sdk.signaling ≡ true
      → resumed_four_times
          (length s.answers)
          r
          (handle_play_request digest encrypt uuid asked_for s)
        ≡ record (connect_viewer digest encrypt uuid r.pc r.channel (hashed s)) {
          requests =
              (hashed s).requests
              ++ (offer
                    (some uuid)
                    r.session
                    (some (append stream_id (digest (append password s.salt) 6)))
                    sealed
                    true
                  ∷ []);
        }
  unfolding handle_play_request answered create_connection
  offered_lem uuid asked_for stream_id password description sealed r s kept same on publishes
        published describes works open_now =
      let resume = answer_resumed digest encrypt (length s.answers) r in
      let (pw, mons, id_same, sdk_same, reqs, answers, first_answers) = hashed_frame s in
      let ready = hashed s in
      let viewed = connect_viewer digest encrypt uuid r.pc r.channel ready in
      let hash = digest (append password s.salt) 6 in
      let fresh = (ensure_password_hash digest encrypt s).0 in
      let first =
        resumed_last s.answers (hashing uuid asked_for fresh) r
          (ensure_password_hash digest encrypt s).1 first_answers
        ∙ accepted uuid asked_for stream_id ready (ap (λ m. m.publishing) mons ∙ publishes)
            (id_same ∙ published) same in
      let second = resumed_last s.answers (connecting uuid) r ready answers in
      let third =
        resumed_last s.answers (offering (some uuid) r.session) r viewed answers
        ∙ (ap (λ d. offer_created digest encrypt (some uuid) r.session d viewed) describes
            ∙ created_lem uuid r.session stream_id hash password description viewed
                (ap effective_password pw ∙ on) kept (id_same ∙ published)) in
      let fourth =
        resumed_last s.answers
          (sealing (some uuid) r.session (some (append stream_id hash)) description) r viewed
          answers
        ∙ sealed_lem (some uuid) (some (append stream_id hash)) r.session description sealed viewed
            works (ap (λ x. is_open x.signaling) sdk_same ∙ open_now) in
      ap (λ t. resume (resume (resume t))) first
      ∙ (ap (λ t. resume (resume t)) second ∙ (ap resume third ∙ fourth))

  -- The instance publishes a stream ID over an open socket, a password is in effect, a hash that is
  -- kept under its key is its hash, and neither the digest, the offer nor the encryption fails. A play
  -- request for the stream ID with the hash of that password and salt, which goes on at each of its
  -- four waits with nothing in between, gets the viewer a publisher direction and one offer, which is
  -- sealed, under the session generated and that hashed stream ID, and waits no more.
  pub handle_play_request-offer :
      (uuid stream_id password : String) (description sealed : ℕ) (r : Resumption) (s : Presence)
      → is_empty stream_id ≡ false
      → ((t : String) (n : ℕ) → is_empty (digest t n) ≡ false)
      → effective_password s.password ≡ some password
      → IsHashed password s
      → is_publishing s ≡ true
      → s.stream_id ≡ some stream_id
      → r.description ≡ some description
      → encrypt description ≡ some sealed
      → is_open s.sdk.signaling ≡ true
      → (listed uuid publisher
            (resumed_four_times (length s.answers) r (
              handle_play_request digest encrypt uuid
                (append stream_id (digest (append password s.salt) 6))
                s)).sdk.connections
          ≡ some s.sdk.next_object)
        × ((resumed_four_times (length s.answers) r (
              handle_play_request digest encrypt uuid
                (append stream_id (digest (append password s.salt) 6))
                s)).requests
            ≡ s.requests
              ++ (offer
                    (some uuid)
                    r.session
                    (some (append stream_id (digest (append password s.salt) 6)))
                    sealed
                    true
                  ∷ []))
        × ((resumed_four_times (length s.answers) r (
              handle_play_request digest encrypt uuid
                (append stream_id (digest (append password s.salt) 6))
                s)).answers
            ≡ s.answers)
  unfolding create_connection
  handle_play_request-offer uuid stream_id password description sealed r s full digests on kept
        publishes published describes works open_now =
      let hash = digest (append password s.salt) 6 in
      let made = hashed-hash password s on kept in
      let (pw, mons, id_same, sdk_same, reqs, answers, first_answers) = hashed_frame s in
      let stripped =
        ap (λ h. strip_hash h (append stream_id hash)) made
        ∙ strip_hash-append stream_id hash full (digests (append password s.salt) 6) in
      let whole =
        offered_lem uuid (append stream_id hash) stream_id password description sealed r s made
          stripped on publishes published describes works open_now in
      (
        ap (λ t. listed uuid publisher t.sdk.connections) whole
            ∙ (connected_lem uuid r.pc r.channel (hashed s)
                ∙ ap (λ x. some x.next_object) sdk_same),
        ap (λ t. t.requests) whole
            ∙ ap
                (λ l.
                  l
                  ++ (offer (some uuid) r.session (some (append stream_id hash)) sealed true ∷ []))
                reqs,
        ap (λ t. t.answers) whole ∙ answers,
      )
