-- ===== src/Signal/Timers.antt =====
-- A bundle does not wait for long, and goes out when its timer fires.
use ninja_vst3_plugin.Prelude.{
  ℕ, take_out, take_out-last, take_out-none, ◌≤◌, String, Bool, true, false, not, ◌||◌, Option,
  none, some, List, [], ◌∷◌, ◌++◌, ◌≡◌, refl, arith, leb, length, min, ◌*◌, ap, ◌∙◌, sym,
  if◌then◌else◌, Option-cases, Bool-cases, inl, inr,
}
use mathlib.Core.Path.{subst}
use mathlib.Core.List.{append-nil}
use ninja_vst3_plugin.Signal.{
  Candidate, Await, for_channel, for_socket, Link, CandidateMessage, message_of, await,
  handle_ice_candidate, bundle_elapsed, encrypted, send_on_channel, send_on_socket, add_to_bundle,
}
use ninja_vst3_plugin.Signal.Steps.{
  Sending, gathered, elapsed, encryption_ended, channel_is, socket_is, step, run,
}

abbrev pub is_nil : List Candidate → Bool
is_nil [] = true
is_nil (_ ∷ _) = false

-- A timer of at most a second is armed.
abbrev pub is_due : Option ℕ → Bool
is_due none = false
is_due (some d) = leb d 1000

abbrev pub is_idle : Option ℕ → Bool
is_idle none = true
is_idle (some d) = false

-- A timer is armed exactly while candidates wait, and all delays are at most a second.
pub record IsPrompt (l : Link) : Type 0 where
  pub waits : is_nil l.bundle ≡ is_idle l.timer
  pub due : (is_idle l.timer || is_due l.timer) ≡ true
  pub short : l.delay ≤ 1000

is_nil-append : (cs : List Candidate) (c : Candidate) → is_nil (cs ++ (c ∷ [])) ≡ false
is_nil-append [] c = refl
is_nil-append (b ∷ cs) c = refl

module _ (protected : Bool) (encrypt : List Candidate → Option ℕ) where
  add_to_bundle-IsPrompt :
      (c : Candidate) (l : Link) → IsPrompt l → IsPrompt (add_to_bundle protected encrypt c l)
  unfolding add_to_bundle
  add_to_bundle-IsPrompt c l h = ground (arith, h.waits, h.due, h.short, is_nil-append l.bundle c)

  send_on_channel-IsPrompt :
      (session : Option String) (c : Candidate) (l : Link)
      → IsPrompt l
      → IsPrompt (send_on_channel protected encrypt session c l)
  unfolding send_on_channel
  send_on_channel-IsPrompt session c l h =
      ground (arith, h.waits, h.due, h.short, add_to_bundle-IsPrompt c l h)

  send_on_socket-IsPrompt :
      (session : Option String) (cs : List Candidate) (l : Link)
      → IsPrompt l
      → IsPrompt (send_on_socket protected encrypt session cs l)
  unfolding send_on_socket
  send_on_socket-IsPrompt session cs l h = ground (arith, h.waits, h.due, h.short)

  handle_ice_candidate-IsPrompt :
      (c : Candidate) (l : Link)
      → IsPrompt l
      → IsPrompt (handle_ice_candidate protected encrypt (some c) l)
  unfolding handle_ice_candidate
  handle_ice_candidate-IsPrompt c l h = ground (
    arith,
    h.waits,
    h.due,
    h.short,
    add_to_bundle-IsPrompt c l h,
    send_on_channel-IsPrompt l.session c l h,
  )

  bundle_elapsed-IsPrompt : (l : Link) → IsPrompt l → IsPrompt (bundle_elapsed protected encrypt l)
  unfolding bundle_elapsed send_on_socket
  bundle_elapsed-IsPrompt l h = ground (arith, h.short)

  encrypted-IsPrompt :
      (w : Await) (l : Link) → IsPrompt l → IsPrompt (encrypted protected encrypt w l)
  unfolding encrypted
  encrypted-IsPrompt (for_channel session c) l h = send_on_channel-IsPrompt session c l h
  encrypted-IsPrompt (for_socket session cs) l h = send_on_socket-IsPrompt session cs l h

  taken_out-IsPrompt :
      (o : Option (Await × List Await)) (l : Link)
      → IsPrompt l
      → IsPrompt (elim o [
        | none ↦ l
        | some (w, rest) ↦ encrypted protected encrypt w (record l { awaits = rest })
      ])
  taken_out-IsPrompt none l h = h
  taken_out-IsPrompt (some (w, rest)) l h =
      encrypted-IsPrompt w (record l { awaits = rest })
        (record { waits = h.waits; due = h.due; short = h.short })

  step-IsPrompt : (x : Sending) (l : Link) → IsPrompt l → IsPrompt (step protected encrypt x l)
  unfolding step handle_ice_candidate
  step-IsPrompt (gathered none) l h = h
  step-IsPrompt (gathered (some c)) l h = handle_ice_candidate-IsPrompt c l h
  step-IsPrompt elapsed l h =
      elim l.timer
        as (λ (o : Option ℕ).
          IsPrompt (elim o [ none ↦ l | some _ ↦ bundle_elapsed protected encrypt l ])) [
            | none ↦ h
            | some d ↦ bundle_elapsed-IsPrompt l h
          ]
  step-IsPrompt (encryption_ended i) l h = taken_out-IsPrompt (take_out i l.awaits) l h
  step-IsPrompt (channel_is is_open sends) l h = record {
    waits = h.waits;
    due = h.due;
    short = h.short;
  }
  step-IsPrompt (socket_is open_now) l h = record { waits = h.waits; due = h.due; short = h.short }

  pub run-IsPrompt :
      (xs : List Sending) (l : Link) → IsPrompt l → IsPrompt (run protected encrypt xs l)
  unfolding run
  run-IsPrompt [] l h = h
  run-IsPrompt (x ∷ xs) l h = run-IsPrompt xs (step protected encrypt x l) (step-IsPrompt x l h)

  -- The bundle's timer fires and then, where there is a password, the encryption that it began ends.
  unfoldable pub flushed : Link → Link
  flushed l = run protected encrypt (elapsed ∷ encryption_ended (length l.awaits) ∷ []) l

  -- The message that goes out: none without candidates or without an open socket.
  unfoldable pub flushed_message : Link → List CandidateMessage
  flushed_message l =
      if is_nil l.bundle || not l.socket_open
      then []
      else message_of protected encrypt l l.bundle ∷ []

  abbrev Flushed : Link → Link → Type 0
  Flushed l r =
      (r.on_socket ≡ l.on_socket ++ flushed_message l)
      × (r.bundle ≡ [])
      × (r.timer ≡ none)
      × (r.awaits ≡ l.awaits)
      × (r.on_channel ≡ l.on_channel)

  step_idle : (l : Link) → l.timer ≡ none → step protected encrypt elapsed l ≡ l
  unfolding step
  step_idle l idle = simp (step, idle)

  step_armed :
      (l : Link) (d : ℕ)
      → l.timer ≡ some d
      → step protected encrypt elapsed l ≡ bundle_elapsed protected encrypt l
  unfolding step
  step_armed l d armed = simp (step, armed)

  ended_none :
      (i : ℕ) (l : Link)
      → take_out i l.awaits ≡ none
      → step protected encrypt (encryption_ended i) l ≡ l
  unfolding step
  ended_none i l e = simp (step, e)

  ended_some :
      (i : ℕ) (l : Link) (w : Await) (rest : List Await)
      → take_out i l.awaits ≡ some (w, rest)
      → step protected encrypt (encryption_ended i) l
        ≡ encrypted protected encrypt w (record l { awaits = rest })
  unfolding step
  ended_some i l w rest e = simp (step, e)

  abbrev emptied : Link → Link
  emptied l = record l { timer = none; bundle = []; delay = min 1000 (l.delay * 2) }

  send_on_socket-awaits :
      (session : Option String) (cs : List Candidate) (l : Link)
      → (send_on_socket protected encrypt session cs l).awaits ≡ l.awaits
  unfolding send_on_socket
  send_on_socket-awaits session cs l = ground arith

  -- With a password and without, the bundle is handed to the socket in the end.
  flushed_armed :
      (l : Link) (d : ℕ)
      → l.timer ≡ some d
      → flushed l ≡ send_on_socket protected encrypt l.session l.bundle (emptied l)
  unfolding flushed run bundle_elapsed encrypted
  flushed_armed l d armed =
      let ended = step protected encrypt (encryption_ended (length l.awaits)) in
      elim (Bool-cases protected) [
        | inl seals ↦
            ap ended (step_armed l d armed ∙ simp (bundle_elapsed, seals))
            ∙ ended_some (length l.awaits)
                (await protected encrypt (for_socket l.session l.bundle) (emptied l))
                (for_socket l.session l.bundle) l.awaits
                (take_out-last l.awaits (for_socket l.session l.bundle))
        | inr free ↦
            let sent = send_on_socket protected encrypt l.session l.bundle (emptied l) in
            ap ended (step_armed l d armed ∙ simp (bundle_elapsed, free))
            ∙ ended_none (length l.awaits) sent (
                ap (take_out (length l.awaits))
                  (send_on_socket-awaits l.session l.bundle (emptied l))
                ∙ take_out-none l.awaits)
      ]

  flushed_idle : (l : Link) → IsPrompt l → l.timer ≡ none → Flushed l (flushed l)
  unfolding flushed flushed_message run
  flushed_idle l h idle =
      let same =
        ap (step protected encrypt (encryption_ended (length l.awaits))) (step_idle l idle)
        ∙ ended_none (length l.awaits) l (take_out-none l.awaits) in
      subst (Flushed l) (sym same) (ground (arith, h.waits, idle, append-nil l.on_socket))

  handed_over :
      (l : Link) (d : ℕ)
      → IsPrompt l
      → l.timer ≡ some d
      → Flushed l (send_on_socket protected encrypt l.session l.bundle (emptied l))
  unfolding send_on_socket flushed_message
  handed_over l d h armed = ground (arith, h.waits, armed, append-nil l.on_socket)

  flushed-Flushed : (l : Link) → IsPrompt l → Flushed l (flushed l)
  flushed-Flushed l h = elim (Option-cases l.timer) [
    | inl idle ↦ flushed_idle l h idle
    | inr (d, armed) ↦ subst (Flushed l) (sym (flushed_armed l d armed)) (handed_over l d h armed)
  ]

  -- From a connection whose bundle is empty, whose timer is not armed and whose delay is at most a
  -- second, as it is created: whatever is gathered, however the channel and the socket change and
  -- whenever the timer fires and encryptions end, a timer of at most a second is armed exactly while
  -- candidates wait in the bundle. When the timer fires then, and the encryption that it begins where
  -- there is a password ends with nothing in between, all of them go over an open socket in one
  -- message, and the bundle is empty.
  pub run-is_due :
      (xs : List Sending) (l : Link)
      → l.bundle ≡ []
      → l.timer ≡ none
      → l.delay ≤ 1000
      → (is_nil (run protected encrypt xs l).bundle ≡ is_idle (run protected encrypt xs l).timer)
        × ((is_idle (run protected encrypt xs l).timer || is_due (run protected encrypt xs l).timer)
            ≡ true)
        × ((flushed (run protected encrypt xs l)).on_socket
            ≡ (run protected encrypt xs l).on_socket
              ++ flushed_message (run protected encrypt xs l))
        × ((flushed (run protected encrypt xs l)).bundle ≡ [])
  run-is_due xs l empty idle short =
      let h = run-IsPrompt xs l (record {
        waits = ground (arith, empty, idle);
        due = ground (arith, idle);
        short = short;
      }) in
      let out = flushed-Flushed (run protected encrypt xs l) h in (h.waits, h.due, out.0, out.1)
