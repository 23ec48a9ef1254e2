-- ===== src/Presence/Listings.antt =====
-- A listing that comes after the timeout of `joinRoom`.
use ninja_vst3_plugin.Prelude.{
  ℕ, get_last?-concat, Bool, true, false, any, none, some, List, [], ◌∷◌, ◌++◌, ◌≡◌, refl, ◌∙◌, ap,
  arith, ◌==◌, Option-cases, inl, inr,
}
use mathlib.Core.List.{get_last?}
use ninja_vst3_plugin.Presence.State.{Presence, Join, room_joined}
use ninja_vst3_plugin.Presence.{
  outcome_of, settle_promise, listed_one, listed_each, room_listed, join_timed_out,
}

outcome_of-append :
    (i : ℕ) (b : Bool) (os ps : List (ℕ × Bool))
    → outcome_of i os ≡ some b
    → outcome_of i (os ++ ps) ≡ some b
unfolding outcome_of
outcome_of-append i b [] ps e = absurd (ground (arith, e))
outcome_of-append i b ((j, c) ∷ os) ps e = ground (arith, e, outcome_of-append i b os ps)

outcome_of-last :
    (i : ℕ) (b : Bool) (os : List (ℕ × Bool))
    → outcome_of i os ≡ none
    → outcome_of i (os ++ ((i, b) ∷ [])) ≡ some b
unfolding outcome_of
outcome_of-last i b [] e = ground arith
outcome_of-last i b ((j, c) ∷ os) e = ground (arith, e, outcome_of-last i b os)

-- A promise that is settled stays so.
settle_promise-settled :
    (i j : ℕ) (b c : Bool) (os : List (ℕ × Bool))
    → outcome_of i os ≡ some b
    → outcome_of i (settle_promise j c os) ≡ some b
unfolding settle_promise
settle_promise-settled i j b c os e = elim (Option-cases (outcome_of j os)) [
  | inl fresh ↦ ground (arith, fresh, outcome_of-append i b os ((j, c) ∷ []) e)
  | inr (d, known) ↦ ground (arith, known, e)
]

settle_promise-fresh :
    (i : ℕ) (b : Bool) (os : List (ℕ × Bool))
    → outcome_of i os ≡ none
    → outcome_of i (settle_promise i b os) ≡ some b
unfolding settle_promise
settle_promise-fresh i b os e = ground (arith, e, outcome_of-last i b os e)

listed_each-settled :
    (i : ℕ) (b : Bool) (js : List Join) (s : Presence)
    → outcome_of i s.outcomes ≡ some b
    → outcome_of i (listed_each js s).outcomes ≡ some b
unfolding listed_each listed_one
listed_each-settled i b [] s e = e
listed_each-settled i b (j ∷ js) s e =
    listed_each-settled i b js (listed_one j s) (settle_promise-settled i j.id b true s.outcomes e)

listed_each-last :
    (js : List Join) (j : Join) (s : Presence)
    → listed_each (js ++ (j ∷ [])) s ≡ listed_one j (listed_each js s)
unfolding listed_each
listed_each-last [] j s = refl
listed_each-last (k ∷ js) j s = listed_each-last js j (listed_one k s)

any-last : (js : List Join) (j : Join) → any (λ k. k.id == j.id) (js ++ (j ∷ [])) ≡ true
any-last [] j = ground arith
any-last (k ∷ js) j = ground (arith, any-last js j)

timed_out_lem :
    (js : List Join) (j : Join) (s : Presence)
    → s.joins ≡ js ++ (j ∷ [])
    → join_timed_out j.id s ≡ record s { outcomes = settle_promise j.id false s.outcomes }
unfolding join_timed_out
timed_out_lem js j s e = simp (join_timed_out, ap (any (λ k. k.id == j.id)) e ∙ any-last js j)

-- When the timeout of the `joinRoom` that listens last fires, its promise is rejected, and stays so; a
-- listing that comes later makes the instance joined all the same, to that join's room, and tells so.
pub room_listed-join_timed_out :
    (js : List Join) (j : Join) (s : Presence)
    → s.joins ≡ js ++ (j ∷ [])
    → outcome_of j.id s.outcomes ≡ none
    → (outcome_of j.id (join_timed_out j.id s).outcomes ≡ some false)
      × (outcome_of j.id (room_listed (join_timed_out j.id s)).outcomes ≡ some false)
      × ((room_listed (join_timed_out j.id s)).has_joined ≡ true)
      × ((room_listed (join_timed_out j.id s)).room ≡ some j.room)
      × (get_last? (room_listed (join_timed_out j.id s)).news ≡ some (room_joined j.room))
unfolding room_listed listed_one
room_listed-join_timed_out js j s listens waits =
    let late = timed_out_lem js j s listens in
    let rejected = settle_promise-fresh j.id false s.outcomes waits in
    let over = record s { outcomes = settle_promise j.id false s.outcomes; joins = [] } in
    let whole : room_listed (join_timed_out j.id s) ≡ listed_one j (listed_each js over) =
      ap room_listed late ∙ (ap (λ l. listed_each l over) listens ∙ listed_each-last js j over) in
    (
      ap (λ r. outcome_of j.id r.outcomes) late ∙ rejected,
      ap (λ r. outcome_of j.id r.outcomes) whole
          ∙ settle_promise-settled j.id j.id false true (listed_each js over).outcomes
              (listed_each-settled j.id false js over rejected),
      ap (λ r. r.has_joined) whole,
      ap (λ r. r.room) whole,
      ap (λ r. get_last? r.news) whole ∙ get_last?-concat (listed_each js over).news _,
    )
