-- ===== src/Ice/Turn/Ranking.antt =====
-- `_processTURNs`: the timezone distance and the order of the ranked list.
use mathlib.Core.List.{Perm}
use mathlib.Core.List.Perm
use ninja_vst3_plugin.Prelude.{
  ℕ, ◌-◌, ◌≤◌, ◌≡◌, refl, inl, inr, List, [], ◌∷◌, map, min, arith, ◌==◌, filter, Bool-cases,
}
use ninja_vst3_plugin.Prelude.Int.{ℤ, pos, negsuc, ◌-ℤ◌, abs_ℤ, is_nonpos}
use ninja_vst3_plugin.Ice.Turn.{
  TurnServer, compare_turn_deltas, tz_delta, set_delta, insert, sort, ranked,
}

-- The distance is the shorter of the two ways round a day of 1440 minutes, it does not depend on
-- the direction, and it is at most half a day when the two timezones are at most a day and a half
-- apart.
pub tz_delta_circular :
    (a b : ℤ)
    → (tz_delta a b ≡ tz_delta b a)
      × (abs_ℤ (a -ℤ b) ≤ 1440 → tz_delta a b ≡ min (abs_ℤ (a -ℤ b)) (1440 - abs_ℤ (a -ℤ b)))
      × (abs_ℤ (a -ℤ b) ≤ 2160 → tz_delta a b ≤ 720)
unfolding tz_delta
tz_delta_circular (pos a) (pos b) = (ground arith, λ h. ground arith, λ h. ground arith)
tz_delta_circular (pos a) (negsuc b) = (ground arith, λ h. ground arith, λ h. ground arith)
tz_delta_circular (negsuc a) (pos b) = (ground arith, λ h. ground arith, λ h. ground arith)
tz_delta_circular (negsuc a) (negsuc b) = (ground arith, λ h. ground arith, λ h. ground arith)

abbrev pub AllFrom : ℕ → List TurnServer → Type 0
AllFrom d [] = Unit {0}
AllFrom d (x ∷ xs) = (d ≤ x.delta) × AllFrom d xs

-- Deltas do not fall along the list.
abbrev pub IsRanked : List TurnServer → Type 0
IsRanked [] = Unit {0}
IsRanked (x ∷ xs) = AllFrom x.delta xs × IsRanked xs

AllFrom-mono : {d e : ℕ} (xs : List TurnServer) → d ≤ e → AllFrom e xs → AllFrom d xs
AllFrom-mono [] h a = tt
AllFrom-mono (x ∷ xs) h a = (omega arith, AllFrom-mono xs h a.1)

AllFrom-insert :
    (d : ℕ) (x : TurnServer) (xs : List TurnServer)
    → d ≤ x.delta
    → AllFrom d xs
    → AllFrom d (insert x xs)
unfolding insert
AllFrom-insert d x [] h a = (h, tt)
AllFrom-insert d x (y ∷ ys) h a = ground (arith, AllFrom-insert d x ys h a.1)

insert-IsRanked : (x : TurnServer) (xs : List TurnServer) → IsRanked xs → IsRanked (insert x xs)
unfolding insert
insert-IsRanked x [] r = (tt, tt)
insert-IsRanked x (y ∷ ys) r = ground (
  arith,
  AllFrom-mono {d = x.delta} {e = y.delta} ys,
  AllFrom-insert y.delta x ys,
  insert-IsRanked x ys r.1,
)

sort-IsRanked : (xs : List TurnServer) → IsRanked (sort xs)
unfolding sort
sort-IsRanked [] = tt
sort-IsRanked (x ∷ xs) = insert-IsRanked x (sort xs) (sort-IsRanked xs)

insert-perm : (x : TurnServer) (xs : List TurnServer) → Perm (insert x xs) (x ∷ xs)
unfolding insert
insert-perm x [] = Perm.refl _
insert-perm x (y ∷ ys) = elim (Bool-cases (is_nonpos (compare_turn_deltas x y))) [
  | inl e ↦ rw e (Perm.refl _)
  | inr e ↦ rw e (Perm.trans (Perm.cons y (insert-perm x ys)) (Perm.swap x y ys))
]

sort-perm : (xs : List TurnServer) → Perm (sort xs) xs
unfolding sort
sort-perm [] = Perm.refl _
sort-perm (x ∷ xs) = Perm.trans (insert-perm x (sort xs)) (Perm.cons x (sort-perm xs))

-- Servers at one distance.
abbrev pub at_delta : ℕ → List TurnServer → List TurnServer
at_delta d = filter (λ s. s.delta == d)

at_delta-insert :
    (d : ℕ) (x : TurnServer) (xs : List TurnServer) → at_delta d (insert x xs) ≡ at_delta d (x ∷ xs)
unfolding insert
at_delta-insert d x [] = refl
at_delta-insert d x (y ∷ ys) = ground (arith, at_delta-insert d x ys)

at_delta-sort : (d : ℕ) (xs : List TurnServer) → at_delta d (sort xs) ≡ at_delta d xs
unfolding sort
at_delta-sort d [] = refl
at_delta-sort d (x ∷ xs) = ground (arith, at_delta-insert d x (sort xs), at_delta-sort d xs)

-- The ranked list holds the servers of the given list, each with its distance, in an order in which
-- the distance never falls and servers at the same distance keep their order.
pub ranked_lem :
    (tz : ℤ) (turnlist : List TurnServer)
    → Perm (ranked tz turnlist) (map (set_delta tz) turnlist)
      × IsRanked (ranked tz turnlist)
      × ((d : ℕ) → at_delta d (ranked tz turnlist) ≡ at_delta d (map (set_delta tz) turnlist))
unfolding ranked
ranked_lem tz turnlist = (
  sort-perm (map (set_delta tz) turnlist),
  sort-IsRanked (map (set_delta tz) turnlist),
  λ d. at_delta-sort d (map (set_delta tz) turnlist),
)

-- Between timezones at most a day apart the distance is the shorter of the two ways round a day of
-- 1440 minutes, it does not depend on the direction, and it is at most half a day.
pub tz_delta_nearest :
    (a b : ℤ)
    → abs_ℤ (a -ℤ b) ≤ 1440
    → (tz_delta a b ≡ tz_delta b a)
      × (tz_delta a b ≡ min (abs_ℤ (a -ℤ b)) (1440 - abs_ℤ (a -ℤ b)))
      × (tz_delta a b ≤ 720)
tz_delta_nearest a b within =
    let (same, nearest, half) = tz_delta_circular a b in (same, nearest within, half (omega arith))
