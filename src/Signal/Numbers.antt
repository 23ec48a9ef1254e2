-- ===== src/Signal/Numbers.antt =====
-- Candidates are counted by a test.
use ninja_vst3_plugin.Prelude.{
  ℕ, take_out, zero, suc, ◌+◌, Bool, some, List, [], ◌∷◌, ◌++◌, ◌≡◌, arith, if◌then◌else◌,
  Option-cases, inl, inr,
}
use ninja_vst3_plugin.Signal.{Candidate, Await, for_channel, for_socket}

-- How many of the candidates pass a test.
unfoldable pub number : (Candidate → Bool) → List Candidate → ℕ
number p [] = 0
number p (c ∷ cs) = (if p c then 1 else 0) + number p cs

pub number-append :
    (p : Candidate → Bool) (xs ys : List Candidate)
    → number p (xs ++ ys) ≡ number p xs + number p ys
unfolding number
number-append p [] ys = omega arith
number-append p (x ∷ xs) ys = omega (arith, number-append p xs ys)

-- The candidates whose encryption is under way.
unfoldable pub awaited : List Await → List Candidate
awaited [] = []
awaited (for_channel session candidate ∷ ws) = candidate ∷ awaited ws
awaited (for_socket session candidates ∷ ws) = candidates ++ awaited ws

abbrev pub held : Await → List Candidate
held (for_channel session candidate) = candidate ∷ []
held (for_socket session candidates) = candidates

awaited-cons :
    (p : Candidate → Bool) (w : Await) (ws : List Await)
    → number p (awaited (w ∷ ws)) ≡ number p (held w) + number p (awaited ws)
unfolding awaited number
awaited-cons p (for_channel session candidate) ws = omega arith
awaited-cons p (for_socket session candidates) ws = number-append p candidates (awaited ws)

pub awaited-append :
    (p : Candidate → Bool) (ws : List Await) (w : Await)
    → number p (awaited (ws ++ (w ∷ []))) ≡ number p (awaited ws) + number p (held w)
unfolding number awaited
awaited-append p [] w = omega (arith, awaited-cons p w [])
awaited-append p (v ∷ ws) w =
    omega (arith, awaited-cons p v (ws ++ (w ∷ [])), awaited-cons p v ws, awaited-append p ws w)

-- Taking one out leaves the others.
pub take_out_lem :
    (p : Candidate → Bool) (i : ℕ) (ws : List Await) (w : Await) (rest : List Await)
    → take_out i ws ≡ some (w, rest)
    → number p (awaited ws) ≡ number p (held w) + number p (awaited rest)
unfolding take_out
take_out_lem p i [] w rest e = absurd (ground (arith, e))
take_out_lem p zero (v ∷ ws) w rest e = ground (arith, e, awaited-cons p v ws)
take_out_lem p (suc i) (v ∷ ws) w rest e = elim (Option-cases (take_out i ws)) [
  | inl none_there ↦ absurd (ground (arith, e, none_there))
  | inr ((u, others), there) ↦ ground (
    arith,
    e,
    there,
    take_out_lem p i ws u others there,
    awaited-cons p v ws,
    awaited-cons p v others,
  )
]
