-- ===== src/Presence/Requests.antt =====
-- What a publisher does for those who want to view: `_ensurePasswordHash`, `_handlePlayRequest` and
-- `_handleJoinRoom`, cut at each `await`. The new peer connection and its channel, the generated
-- session, the offer, which may fail, and the encryption, `none` where it throws, are given.
pub mod Offers
use ninja_vst3_plugin.Prelude.{
  ℕ, String, Bool, true, false, not, ◌&&◌, ◌||◌, Option, none, some, List, [], ◌∷◌, ◌++◌, take_out,
  str_eq, if◌then◌else◌,
}
use ninja_vst3_plugin.Peer.Types.{publisher, PeerConnection, DataChannel}
use ninja_vst3_plugin.Peer.Create.{create_connection}
use ninja_vst3_plugin.Names.{is_empty, append, effective_password, strip_hash}
use ninja_vst3_plugin.Presence.{is_there}
use ninja_vst3_plugin.Presence.State.{
  Presence, offer, send_message, is_publishing, Answer, hashing, connecting, joining, offering,
  naming, sealing,
}

-- a === b, where b is there
abbrev pub is_text : String → Option String → Bool
is_text a none = false
is_text a (some b) = str_eq a b

-- b || a
abbrev pub text_or : String → Option String → String
text_or a none = a
text_or a (some b) = if is_empty b then a else b

-- What ends a wait: the connection and its channel, the generated session and the offer.
pub record Resumption : Type 0 where
  pub pc : PeerConnection
  pub channel : DataChannel
  pub session : String
  pub description : Option ℕ

module _ (digest : String → ℕ → String) (encrypt : ℕ → Option ℕ) where
  abbrev pub hash_key_of : String → Presence → String
  hash_key_of password s = append password (append ":" s.salt)

  -- `_ensurePasswordHash` up to its `await`, while no other call of it is under way: the hash that it
  -- waits for, with its key.
  unfoldable pub ensure_password_hash : Presence → Option (String × String) × Presence
  ensure_password_hash s = elim (effective_password s.password) [
    | none ↦ (none, record s { hash = none; hash_key = none })
    | some password ↦
        let key = hash_key_of password s in
        let fresh = some (digest (append password s.salt) 6, key) in
        elim s.hash_key [
          | none ↦ (fresh, s)
          | some kept ↦
              if str_eq key kept
              then (if is_there s.hash then (none, s) else (fresh, s))
              else (fresh, record s { hash = none; hash_key = none })
        ]
  ]

  -- The rest of it.
  unfoldable pub password_hash_ready : Option (String × String) → Presence → Presence
  password_hash_ready none s = s
  password_hash_ready (some (hash, key)) s = record s { hash = some hash; hash_key = some key }

  abbrev pub wait_answer : Answer → Presence → Presence
  wait_answer a s = record s { answers = s.answers ++ (a ∷ []) }

  abbrev pub connect_viewer : String → PeerConnection → DataChannel → Presence → Presence
  connect_viewer uuid pc channel s = record s {
    sdk = create_connection uuid publisher pc channel s.stream_id s.sdk;
  }

  -- The instance's own UUID, where there is no target.
  abbrev pub target_uuid : Option String → Presence → Option String
  target_uuid none s = s.uuid
  target_uuid (some uuid) s = some uuid

  -- The message of an offer, up to its encryption where a password is in effect.
  unfoldable pub send_offer : Option String → String → Option String → ℕ → Presence → Presence
  send_offer target session stream_id description s = elim (effective_password s.password) [
    | none ↦ send_message (offer (target_uuid target s) session stream_id description false) s
    | some _ ↦ wait_answer (sealing (target_uuid target s) session stream_id description) s
  ]

  -- `this.state.streamID + this._passwordHash`; a null stream ID is the text "null".
  abbrev pub named : String → Presence → Option String
  named hash s =
      some (append (elim s.stream_id [ none ↦ "null" | some stream_id ↦ stream_id ]) hash)

  -- Once `_createOffer` has ended; `none` is its failure.
  unfoldable pub offer_created : Option String → String → Option ℕ → Presence → Presence
  offer_created target session none s = s
  offer_created target session (some description) s = elim (effective_password s.password) [
    | none ↦ send_offer target session s.stream_id description s
    | some password ↦ elim s.hash [
      | some hash ↦ send_offer target session (named hash s) description s
      | none ↦ wait_answer (naming target session description (digest (append password s.salt) 6)) s
    ]
  ]

  -- Once the encryption has ended; where it throws the offer goes out as it is.
  unfoldable pub offer_sealed : Option String → String → Option String → ℕ → Presence → Presence
  offer_sealed uuid session stream_id description s = elim (encrypt description) [
    | none ↦ send_message (offer uuid session stream_id description false) s
    | some sealed ↦ send_message (offer uuid session stream_id sealed true) s
  ]

  -- `_handlePlayRequest` up to its first `await`.
  unfoldable pub handle_play_request : String → String → Presence → Presence
  handle_play_request uuid stream_id s =
      let (fresh, ready) = ensure_password_hash s in
      wait_answer (hashing uuid stream_id fresh) ready

  -- What it does once the password hash is there.
  unfoldable pub play_request_hashed : String → String → Presence → Presence
  play_request_hashed uuid stream_id s =
      if not (is_publishing s) || not (is_text (strip_hash s.hash stream_id) s.stream_id)
      then s
      else wait_answer (connecting uuid) s

  -- `_handleJoinRoom` up to its first `await`.
  unfoldable pub handle_join_room : String → Option String → Presence → Presence
  handle_join_room uuid session s =
      if is_publishing s then wait_answer (joining uuid session) s else s

  -- The rest of a handler after its `await`, up to the next one. The offer that answers a join carries
  -- the instance's own UUID, and the UUID of the viewer where the viewer gave no session.
  unfoldable pub answered : Answer → Resumption → Presence → Presence
  answered (hashing uuid stream_id fresh) r s =
      play_request_hashed uuid stream_id (password_hash_ready fresh s)
  answered (connecting uuid) r s =
      wait_answer (offering (some uuid) r.session) (connect_viewer uuid r.pc r.channel s)
  answered (joining uuid session) r s =
      wait_answer (offering none (text_or uuid session)) (connect_viewer uuid r.pc r.channel s)
  answered (offering target session) r s = offer_created target session r.description s
  answered (naming target session description hash) r s =
      let known = record s { hash = some hash } in
      send_offer target session (named hash known) description known
  answered (sealing uuid session stream_id description) r s =
      offer_sealed uuid session stream_id description s

  -- One of the handlers that wait goes on.
  unfoldable pub answer_resumed : ℕ → Resumption → Presence → Presence
  answer_resumed i r s = elim (take_out i s.answers) [
    | none ↦ s
    | some (a, rest) ↦ answered a r (record s { answers = rest })
  ]
