-- ===== src/Signal/Bundles.antt =====
-- What becomes of the candidates that are gathered.
use ninja_vst3_plugin.Prelude.{
  ℕ, take_out, ◌+◌, ◌*◌, min, String, Bool, true, false, ◌&&◌, ◌||◌, Option, none, some, List, [],
  ◌∷◌, ◌++◌, ◌≡◌, refl, ◌∙◌, ap, sym, arith, if◌then◌else◌, Option-cases, Bool-cases, inl, inr,
}
use mathlib.Core.Path.{subst}
use mathlib.Core.List.{append_assoc, append-nil}
use ninja_vst3_plugin.Signal.{
  opened, Candidate, Payload, CandidateMessage, Await, for_channel, for_socket, Link, payload_of,
  message_of, handle_ice_candidate, bundle_elapsed, encrypted, send_on_channel, send_on_socket,
  add_to_bundle, await,
}
use ninja_vst3_plugin.Signal.Steps.{
  Sending, gathered, elapsed, encryption_ended, channel_is, socket_is, step, run, collected,
  bundle_of, dropped, lost,
}
use ninja_vst3_plugin.Signal.Numbers.{
  number, number-append, awaited, held, awaited-append, take_out_lem,
}

module _ (protected : Bool) (encrypt : List Candidate → Option ℕ)
    (decrypt : ℕ → Option (List Candidate)) where
  -- The candidates that a receiver finds in a message, and in messages.
  abbrev pub content : Payload → List Candidate
  content payload = elim (opened protected decrypt payload) [
    | none ↦ []
    | some candidates ↦ candidates
  ]

  unfoldable pub carried : List CandidateMessage → List Candidate
  carried [] = []
  carried (m ∷ ms) = content m.payload ++ carried ms

  -- How many were sent on either way, wait in the bundle or are being encrypted.
  abbrev pub total : (Candidate → Bool) → Link → ℕ
  total p l =
      number p (carried l.on_channel)
      + (number p (carried l.on_socket) + (number p l.bundle + number p (awaited l.awaits)))

module _ (protected : Bool) (encrypt : List Candidate → Option ℕ)
    (decrypt : ℕ → Option (List Candidate))
    (decrypts : (candidates : List Candidate) (text : ℕ)
      → encrypt candidates ≡ some text
      → decrypt text ≡ some candidates) where
  pub opened-payload_of :
      (candidates : List Candidate)
      → opened protected decrypt (payload_of protected encrypt candidates) ≡ some candidates
  unfolding opened payload_of
  opened-payload_of candidates = elim (Option-cases (encrypt candidates)) [
    | inl e ↦ ground (arith, e)
    | inr (text, e) ↦ ground (arith, e, decrypts candidates text e)
  ]

  content-payload_of :
      (candidates : List Candidate)
      → content protected encrypt decrypt (payload_of protected encrypt candidates) ≡ candidates
  content-payload_of candidates =
      ap (λ (o : Option (List Candidate)). elim o [ none ↦ [] | some cs ↦ cs ])
        (opened-payload_of candidates)

  carried-append :
      (ms : List CandidateMessage) (m : CandidateMessage)
      → carried protected encrypt decrypt (ms ++ (m ∷ []))
        ≡ carried protected encrypt decrypt ms ++ content protected encrypt decrypt m.payload
  unfolding carried
  carried-append [] m = append-nil (content protected encrypt decrypt m.payload)
  carried-append (k ∷ ms) m =
      ap (λ l. content protected encrypt decrypt k.payload ++ l) (carried-append ms m)
      ∙ sym (
          append_assoc (content protected encrypt decrypt k.payload)
            (carried protected encrypt decrypt ms) (content protected encrypt decrypt m.payload))

  one_more :
      (p : Candidate → Bool) (ms : List CandidateMessage) (l : Link) (cs : List Candidate)
      → number p
          (carried protected encrypt decrypt (ms ++ (message_of protected encrypt l cs ∷ [])))
        ≡ number p (carried protected encrypt decrypt ms) + number p cs
  one_more p ms l cs =
      ap (number p) (carried-append ms (message_of protected encrypt l cs))
      ∙ (ap (λ x. number p (carried protected encrypt decrypt ms ++ x)) (content-payload_of cs)
          ∙ number-append p (carried protected encrypt decrypt ms) cs)

  add_to_bundle-total :
      (p : Candidate → Bool) (c : Candidate) (l : Link)
      → total protected encrypt decrypt p (add_to_bundle protected encrypt c l)
        ≡ total protected encrypt decrypt p l + number p (c ∷ [])
  unfolding add_to_bundle
  add_to_bundle-total p c l = omega (arith, number-append p l.bundle (c ∷ []))

  send_on_channel-total :
      (p : Candidate → Bool) (session : Option String) (c : Candidate) (l : Link)
      → total protected encrypt decrypt p (send_on_channel protected encrypt session c l)
        ≡ total protected encrypt decrypt p l + number p (c ∷ [])
  unfolding send_on_channel
  send_on_channel-total p session c l = elim (Bool-cases (l.is_open && l.sends)) [
    | inl e ↦
        rw e (omega (arith, one_more p l.on_channel (record l { session = session }) (c ∷ [])))
    | inr e ↦ rw e (add_to_bundle-total p c l)
  ]

  send_on_socket-total :
      (p : Candidate → Bool) (session : Option String) (cs : List Candidate) (l : Link)
      → total protected encrypt decrypt p (send_on_socket protected encrypt session cs l)
          + number p (if l.socket_open then [] else cs)
        ≡ total protected encrypt decrypt p l + number p cs
  unfolding send_on_socket number
  send_on_socket-total p session cs l = elim (Bool-cases l.socket_open) [
    | inl e ↦ rw e (omega (arith, one_more p l.on_socket (record l { session = session }) cs))
    | inr e ↦ rw e refl
  ]

  -- A step that gathers `cs` and drops `ds`.
  abbrev Balanced : (Candidate → Bool) → List Candidate → List Candidate → Link → Link → Type 0
  Balanced p cs ds l r =
      total protected encrypt decrypt p r + number p ds
      ≡ total protected encrypt decrypt p l + number p cs

  await-total :
      (p : Candidate → Bool) (w : Await) (l : Link)
      → total protected encrypt decrypt p (await protected encrypt w l)
        ≡ total protected encrypt decrypt p l + number p (held w)
  await-total p w l = omega (arith, awaited-append p l.awaits w)

  none_dropped :
      (p : Candidate → Bool) (cs : List Candidate) (l r t : Link)
      → r ≡ t
      → total protected encrypt decrypt p t ≡ total protected encrypt decrypt p l + number p cs
      → Balanced p cs [] l r
  unfolding number
  none_dropped p cs l r t same e = subst (Balanced p cs [] l) (sym same) (omega (arith, e))

  handle_ice_candidate-total :
      (p : Candidate → Bool) (c : Candidate) (l : Link)
      → Balanced p (c ∷ []) [] l (handle_ice_candidate protected encrypt (some c) l)
  unfolding handle_ice_candidate
  handle_ice_candidate-total p c l =
      let cs = c ∷ [] in
      let r = handle_ice_candidate protected encrypt (some c) l in
      elim (Bool-cases l.is_open) [
        | inr closed ↦
            none_dropped p cs l r (add_to_bundle protected encrypt c l)
              (simp (handle_ice_candidate, closed)) (add_to_bundle-total p c l)
        | inl open_now ↦ elim (Bool-cases protected) [
          | inl seals ↦
              none_dropped p cs l r (await protected encrypt (for_channel l.session c) l)
                (simp (handle_ice_candidate, open_now, seals))
                (await-total p (for_channel l.session c) l)
          | inr free ↦
              none_dropped p cs l r (send_on_channel protected encrypt l.session c l)
                (simp (handle_ice_candidate, open_now, free))
                (send_on_channel-total p l.session c l)
        ]
      ]

  -- The bundle's timer fires.
  bundle_elapsed-total :
      (p : Candidate → Bool) (l : Link)
      → Balanced p []
          (if protected || l.socket_open then [] else l.bundle)
          l
          (bundle_elapsed protected encrypt l)
  unfolding bundle_elapsed number
  bundle_elapsed-total p l =
      let emptied = record l { timer = none; bundle = []; delay = min 1000 (l.delay * 2) } in
      elim protected
        as (λ (b : Bool). Balanced p [] (if b || l.socket_open then [] else l.bundle) l (
          if b
          then await protected encrypt (for_socket l.session l.bundle) emptied
          else send_on_socket protected encrypt l.session l.bundle emptied)) [
            | true ↦ omega (arith, await-total p (for_socket l.session l.bundle) emptied)
            | false ↦ omega (arith, send_on_socket-total p l.session l.bundle emptied)
          ]

  elapsed-total :
      (p : Candidate → Bool) (l : Link)
      → Balanced p [] (dropped protected encrypt elapsed l) l (step protected encrypt elapsed l)
  unfolding step dropped
  elapsed-total p l =
      elim l.timer
        as (λ (o : Option ℕ).
          Balanced p []
            (elim o [ none ↦ [] | some _ ↦ if protected || l.socket_open then [] else l.bundle ]) l
            (elim o [ none ↦ l | some _ ↦ bundle_elapsed protected encrypt l ])) [
              | none ↦ refl
              | some d ↦ bundle_elapsed-total p l
            ]

  encrypted-total :
      (p : Candidate → Bool) (w : Await) (l : Link)
      → Balanced p
          (held w)
          (if l.socket_open then [] else bundle_of protected encrypt w)
          l
          (encrypted protected encrypt w l)
  unfolding encrypted number
  encrypted-total p (for_channel session c) l = ground (arith, send_on_channel-total p session c l)
  encrypted-total p (for_socket session cs) l = send_on_socket-total p session cs l

  -- The end of an encryption, if there is one at the index.
  taken_out-total :
      (p : Candidate → Bool) (i : ℕ) (l : Link) (o : Option (Await × List Await))
      → take_out i l.awaits ≡ o
      → Balanced p []
          (elim o [
            | none ↦ []
            | some (w, rest) ↦ if l.socket_open then [] else bundle_of protected encrypt w
          ])
          l
          (elim o [
            | none ↦ l
            | some (w, rest) ↦ encrypted protected encrypt w (record l { awaits = rest })
          ])
  unfolding number
  taken_out-total p i l none e = refl
  taken_out-total p i l (some (w, rest)) e =
      omega (
        arith,
        encrypted-total p w (record l { awaits = rest }),
        take_out_lem p i l.awaits w rest e,
      )

  encryption_ended-total :
      (p : Candidate → Bool) (i : ℕ) (l : Link)
      → Balanced p []
          (dropped protected encrypt (encryption_ended i) l)
          l
          (step protected encrypt (encryption_ended i) l)
  unfolding step dropped
  encryption_ended-total p i l = taken_out-total p i l (take_out i l.awaits) refl

  -- Let decryption undo encryption. Whatever is gathered, whenever the bundle's timer fires and the
  -- encryptions under way end, in any order, and however the channel and the socket open, close and
  -- fail: of the candidates that pass a test, those that were sent over the channel or the socket, wait
  -- in the bundle or are being encrypted, and those of the bundles whose turn came while the socket was
  -- not open, are as many as before and as were gathered. So none is sent twice, and none is lost but
  -- with such a bundle.
  pub run-sent :
      (xs : List Sending) (l : Link) (p : Candidate → Bool)
      → total protected encrypt decrypt p (run protected encrypt xs l)
          + number p (lost protected encrypt xs l)
        ≡ total protected encrypt decrypt p l + number p (collected protected encrypt xs)
  unfolding run lost collected number step dropped handle_ice_candidate
  run-sent [] l p = refl
  run-sent (gathered none ∷ xs) l p = run-sent xs l p
  run-sent (gathered (some c) ∷ xs) l p =
      let r = handle_ice_candidate protected encrypt (some c) l in
      omega (arith, run-sent xs r p, handle_ice_candidate-total p c l)
  run-sent (elapsed ∷ xs) l p =
      let r = step protected encrypt elapsed l in
      omega (
        arith,
        run-sent xs r p,
        elapsed-total p l,
        number-append p (dropped protected encrypt elapsed l) (lost protected encrypt xs r),
      )
  run-sent (encryption_ended i ∷ xs) l p =
      let r = step protected encrypt (encryption_ended i) l in
      omega (
        arith,
        run-sent xs r p,
        encryption_ended-total p i l,
        number-append p (dropped protected encrypt (encryption_ended i) l)
            (lost protected encrypt xs r),
      )
  run-sent (channel_is is_open sends ∷ xs) l p =
      run-sent xs (record l { is_open = is_open; sends = sends }) p
  run-sent (socket_is open_now ∷ xs) l p = run-sent xs (record l { socket_open = open_now }) p
