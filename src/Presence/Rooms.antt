-- ===== src/Presence/Rooms.antt =====
-- Joining, leaving and joining again.
use mathlib.Core.Path.{subst}
use ninja_vst3_plugin.Prelude.{
  ℕ, String, Bool, true, false, Option, none, some, [], ◌∷◌, ◌++◌, ◌≡◌, refl, ◌∙◌, ap, sym, arith,
  Bool-cases, inl, inr,
}
use ninja_vst3_plugin.Names.{
  Password, disabled, undefined, text, is_empty, append, trim, trim_start, trim_end,
  sanitize_room_name, sanitize_password, effective_password, clean,
}
use ninja_vst3_plugin.Names.Trim.{trim_idem}
use ninja_vst3_plugin.Names.Clean.{IsName, sanitized_name, sanitize_room_name-IsName}
use ninja_vst3_plugin.Presence.State.{Presence, JoinOptions, joinroom, send_message, is_open}
use ninja_vst3_plugin.Presence.{
  or_given, room_of, given_password, raw_password, kept_password, hashed_room, request_join,
  join_room, restore_room,
}

room_of-IsName :
    (asked : Option String) (room : String) → room_of asked ≡ some room → IsName 30 room
unfolding room_of sanitize_room_name
room_of-IsName none room here = absurd (ground arith)
room_of-IsName (some r) room here = elim (Bool-cases (is_empty (trim r))) [
  | inl e ↦ absurd (ground (arith, here, e))
  | inr full ↦
      let (_, named, _) = sanitize_room_name-IsName r full in
      let same_room : clean 30 (trim r) ≡ room = ground (arith, here, full, named.full) in
      subst (IsName 30) same_room named
]

room_of-name :
    (room : String) (mine : Option String)
    → IsName 30 room
    → room_of (or_given (some room) mine) ≡ some room
unfolding room_of sanitize_room_name
room_of-name room mine h = ground (arith, h.full, sanitized_name room h)

module _ (encode decode : String → String) (digest : String → ℕ → String)
    (decodes : (t : String) → decode (encode t) ≡ t) (nothing : encode "" ≡ "") where
  decode_nothing : decode "" ≡ ""
  decode_nothing = ap decode (sym nothing) ∙ decodes ""

  -- A password that was sanitized is the same once it is made raw and sanitized again.
  given_password-raw :
      (given mine : Password)
      → given_password encode decode digest
          (raw_password encode decode digest (sanitize_password encode given))
          mine
        ≡ sanitize_password encode given
  unfolding sanitize_password trim_start trim_end
  given_password-raw disabled mine = refl
  given_password-raw undefined mine = rw decode_nothing refl
  given_password-raw (text t) mine = elim (Bool-cases (is_empty (trim t))) [
    | inl e ↦ rw (e, decode_nothing) refl
    | inr full ↦ ground (arith, full, decodes (trim t), trim_idem t)
  ]

  join_room-request :
      (options : JoinOptions) (room : String) (t : Presence)
      → t.sdk.is_connected ≡ true
      → t.has_joined ≡ false
      → room_of (or_given options.room t.room_option) ≡ some room
      → join_room encode decode digest options t ≡ (
        none,
        request_join encode decode digest room
            (given_password encode decode digest options.password t.password)
            options.claim
            t,
      )
  unfolding join_room
  join_room-request options room t on out named = simp (on, out, named)

  -- Joining again by the intent of a join is the same join.
  restore_room-request :
      (room : String) (given : Password) (claim : Bool) (t : Presence)
      → IsName 30 room
      → t.sdk.is_connected ≡ true
      → t.has_joined ≡ false
      → t.room_intent
        ≡ some (record {
          room = room;
          password = raw_password encode decode digest (sanitize_password encode given);
          claim = claim;
        })
      → restore_room encode decode digest t
        ≡ (none, request_join encode decode digest room (sanitize_password encode given) claim t)
  unfolding restore_room request_join
  restore_room-request room given claim t named on out wanted =
      let options : JoinOptions = record {
        room = some room;
        password = raw_password encode decode digest (sanitize_password encode given);
        claim = claim;
      } in
      rw (restore_room, wanted)
        (join_room-request options room t on out (room_of-name room t.room_option named)
          ∙ ap (λ p. (none, request_join encode decode digest room p claim t))
              (given_password-raw given t.password))

  request_join-intent :
      (room : String) (password : Password) (claim : Bool) (s : Presence)
      → (request_join encode decode digest room password claim s).room_intent
        ≡ some (record {
          room = room;
          password = raw_password encode decode digest password;
          claim = claim;
        })
  unfolding request_join send_message
  request_join-intent room password claim s = ground arith

  request_join-requests :
      (room : String) (password : Password) (claim : Bool) (s : Presence)
      → is_open s.sdk.signaling ≡ true
      → (request_join encode decode digest room password claim s).requests
        ≡ s.requests
          ++ (joinroom
                (hashed_room encode decode digest room
                  (record s { password = kept_password encode decode digest password }))
                claim
              ∷ [])
  unfolding request_join send_message hashed_room
  request_join-requests room password claim s on = simp on

  hashed_room-salt :
      (room : String) (password : Password) (s t : Presence)
      → t.salt ≡ s.salt
      → hashed_room encode decode digest room (record t { password = password })
        ≡ hashed_room encode decode digest room (record s { password = password })
  unfolding hashed_room append effective_password
  hashed_room-salt room disabled s t salted = refl
  hashed_room-salt room undefined s t salted = rw salted refl
  hashed_room-salt room (text p) s t salted = rw salted refl

  -- The join message, and the one of the replay, for a password that was sanitized.
  replayed :
      (room : String) (given : Password) (claim : Bool) (s t : Presence)
      → IsName 30 room
      → is_open s.sdk.signaling ≡ true
      → is_open t.sdk.signaling ≡ true
      → t.sdk.is_connected ≡ true
      → t.has_joined ≡ false
      → t.salt ≡ s.salt
      → t.room_intent
        ≡ (request_join encode decode digest room
            (sanitize_password encode given)
            claim
            s).room_intent
      → ((restore_room encode decode digest t).0 ≡ none)
        × ((restore_room encode decode digest t).1.requests
            ≡ t.requests
              ++ (joinroom
                    (hashed_room encode decode digest room (record s {
                      password =
                          kept_password encode decode digest (sanitize_password encode given);
                    }))
                    claim
                  ∷ []))
  replayed room given claim s t named open_then open_now on out salted wanted =
      let pw = sanitize_password encode given in
      let again =
        restore_room-request room given claim t named on out
          (wanted ∙ request_join-intent room pw claim s) in
      (
        ap (λ r. r.0) again,
        ap (λ r. r.1.requests) again
            ∙ (request_join-requests room pw claim t open_now
                ∙ ap (λ h. t.requests ++ (joinroom h claim ∷ []))
                    (hashed_room-salt room (kept_password encode decode digest pw) s t salted)),
      )

  -- The raw password that a join goes by: the option, or else the instance's own.
  abbrev chosen : Password → Password → Password
  chosen disabled mine = disabled
  chosen undefined mine = mine
  chosen (text t) mine = text t

  given_password-chosen :
      (given mine own : Password)
      → own ≡ sanitize_password encode mine
      → given_password encode decode digest given own ≡ sanitize_password encode (chosen given mine)
  given_password-chosen disabled mine own e = refl
  given_password-chosen undefined mine own e = e
  given_password-chosen (text t) mine own e = refl

  -- Let `encodeURIComponent` be undone by `decodeURIComponent` and leave the empty text, and let the
  -- instance's password be one that was sanitized. A `joinRoom`, over an open socket and before any room
  -- is joined, whose password is given, is disabled or is the instance's, sends one message if the name
  -- makes a room. Later, with the socket open again, no room joined and the intent and the salt the
  -- same, the replay of the intent fails in nothing and sends the same message: the name and the
  -- password that it sanitizes again are the same.
  pub join_room-restore_room :
      (options : JoinOptions) (mine : Password) (room : String) (s t : Presence)
      → s.password ≡ sanitize_password encode mine
      → room_of (or_given options.room s.room_option) ≡ some room
      → s.sdk.is_connected ≡ true
      → s.has_joined ≡ false
      → is_open s.sdk.signaling ≡ true
      → is_open t.sdk.signaling ≡ true
      → t.sdk.is_connected ≡ true
      → t.has_joined ≡ false
      → t.salt ≡ s.salt
      → t.room_intent ≡ (join_room encode decode digest options s).1.room_intent
      → ((join_room encode decode digest options s).1.requests
          ≡ s.requests
            ++ (joinroom
                  (hashed_room encode decode digest room (record s {
                    password =
                        kept_password encode decode digest
                          (given_password encode decode digest options.password s.password);
                  }))
                  options.claim
                ∷ []))
        × ((restore_room encode decode digest t).0 ≡ none)
        × ((restore_room encode decode digest t).1.requests
            ≡ t.requests
              ++ (joinroom
                    (hashed_room encode decode digest room (record s {
                      password =
                          kept_password encode decode digest
                            (given_password encode decode digest options.password s.password);
                    }))
                    options.claim
                  ∷ []))
  join_room-restore_room options mine room s t own named on out open_then open_now on_now out_now
        salted wanted =
      let raw = chosen options.password mine in
      let pw = given_password encode decode digest options.password s.password in
      let same : pw ≡ sanitize_password encode raw =
        given_password-chosen options.password mine s.password own in
      let first : join_room encode decode digest options s
          ≡ (none, request_join encode decode digest room pw options.claim s) =
        join_room-request options room s on out named in
      let intent =
        wanted
        ∙ (ap (λ r. r.1.room_intent) first
            ∙ ap (λ p. (request_join encode decode digest room p options.claim s).room_intent)
                same) in
      let (fails, sends) =
        replayed room raw options.claim s t
          (room_of-IsName (or_given options.room s.room_option) room named) open_then open_now
          on_now out_now salted intent in
      (
        ap (λ r. r.1.requests) first ∙ request_join-requests room pw options.claim s open_then,
        fails,
        sends
            ∙ ap
                (λ p.
                  t.requests
                  ++ (joinroom
                        (hashed_room encode decode digest room
                          (record s { password = kept_password encode decode digest p }))
                        options.claim
                      ∷ []))
                (sym same),
      )
