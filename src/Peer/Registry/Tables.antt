-- ===== src/Peer/Registry/Tables.antt =====
-- Lookups in a table of connections after its updates, and what its entries keep.
use ninja_vst3_plugin.Prelude.{
  ℕ, ◌<◌, ◌≤◌, ◌≡◌, ◌≢◌, ◌∙◌, String, Option, none, some, Option-cases, ◌⊎◌, inl, inr, [], ◌∷◌,
  arith, eq_iff, str_eq, if_rule, if◌then◌else◌,
}
use ninja_vst3_plugin.Prelude.Table.{Table, get, set, delete, get-set, get-delete}
use ninja_vst3_plugin.Peer.Types.{Kind, viewer, publisher, Connection, Pair}
use ninja_vst3_plugin.Peer.State.{drop_side, put_side, is_empty_pair, without_side}
use ninja_vst3_plugin.Peer.Create.{pair_of}
use ninja_vst3_plugin.Peer.Registry.{listed, IsPlaced, IsPlacedPair, IsFiledTable, SamePlace}

abbrev what_stays : Kind → Option Pair → Option Pair
what_stays kind none = none
what_stays kind (some pair) =
    if is_empty_pair (drop_side kind pair) then none else some (drop_side kind pair)

get-without_side :
    (uuid peer : String) (kind : Kind) (m : Table Pair)
    → get peer (without_side uuid kind m)
      ≡ (if str_eq uuid peer then what_stays kind (get uuid m) else get peer m)
unfolding without_side
get-without_side uuid peer kind m = elim (Option-cases (get uuid m)) [
  | inl e ↦ ground (arith, e, eq_iff uuid peer)
  | inr (old, e) ↦
      ground (
        arith,
        e,
        eq_iff uuid peer,
        get-delete uuid peer m,
        get-set uuid peer (drop_side kind old) m,
      )
]

-- Without one side the others stay, and that side is not listed.
pub listed-without_side :
    (uuid peer : String) (kind other : Kind) (m : Table Pair) (c : ℕ)
    → listed peer other (without_side uuid kind m) ≡ some c
    → (listed peer other m ≡ some c) × ((uuid ≢ peer) ⊎ (kind ≢ other))
listed-without_side uuid peer viewer viewer m c here =
    ground (arith, eq_iff uuid peer, get-without_side uuid peer viewer m)
listed-without_side uuid peer viewer publisher m c here =
    ground (arith, eq_iff uuid peer, get-without_side uuid peer viewer m)
listed-without_side uuid peer publisher viewer m c here =
    ground (arith, eq_iff uuid peer, get-without_side uuid peer publisher m)
listed-without_side uuid peer publisher publisher m c here =
    ground (arith, eq_iff uuid peer, get-without_side uuid peer publisher m)

-- The side that is put is listed, and the others as before.
pub viewer-without_publisher :
    (uuid peer : String) (m : Table Pair)
    → listed peer viewer (without_side uuid publisher m) ≡ listed peer viewer m
viewer-without_publisher uuid peer m =
    ground (arith, eq_iff uuid peer, get-without_side uuid peer publisher m)

pub listed-put_side :
    (uuid peer : String) (kind other : Kind) (m : Table Pair) (c d : ℕ)
    → listed peer other (set uuid (put_side kind c (pair_of (get uuid m))) m) ≡ some d
    → ((uuid ≡ peer) × (kind ≡ other) × (c ≡ d)) ⊎ (listed peer other m ≡ some d)
listed-put_side uuid peer viewer viewer m c d here =
    ground (arith, eq_iff uuid peer, get-set uuid peer (put_side viewer c (pair_of (get uuid m))) m)
listed-put_side uuid peer viewer publisher m c d here =
    ground (arith, eq_iff uuid peer, get-set uuid peer (put_side viewer c (pair_of (get uuid m))) m)
listed-put_side uuid peer publisher viewer m c d here =
    ground
      (arith, eq_iff uuid peer, get-set uuid peer (put_side publisher c (pair_of (get uuid m))) m)
listed-put_side uuid peer publisher publisher m c d here =
    ground
      (arith, eq_iff uuid peer, get-set uuid peer (put_side publisher c (pair_of (get uuid m))) m)

pub listed-delete :
    (uuid peer : String) (other : Kind) (m : Table Pair) (d : ℕ)
    → listed peer other (delete uuid m) ≡ some d
    → (uuid ≢ peer) × (listed peer other m ≡ some d)
listed-delete uuid peer viewer m d here = ground (arith, eq_iff uuid peer, get-delete uuid peer m)
listed-delete uuid peer publisher m d here =
    ground (arith, eq_iff uuid peer, get-delete uuid peer m)

module _ (objects : ℕ → Connection) (next : ℕ) where
  pub delete-IsFiledTable :
      (uuid : String) (m : Table Pair)
      → IsFiledTable objects next m
      → IsFiledTable objects next (delete uuid m)
  unfolding delete
  delete-IsFiledTable uuid [] filed = tt
  delete-IsFiledTable uuid ((peer, pair) ∷ m) filed =
      ground (arith, delete-IsFiledTable uuid m filed.1)

  set-IsFiledTable :
      (uuid : String) (new : Pair) (m : Table Pair)
      → IsPlacedPair objects next uuid new
      → IsFiledTable objects next m
      → IsFiledTable objects next (set uuid new m)
  unfolding set
  set-IsFiledTable uuid new [] placed filed = (placed, tt)
  set-IsFiledTable uuid new ((peer, pair) ∷ m) placed filed =
      ground (arith, eq_iff peer uuid, set-IsFiledTable uuid new m placed filed.1)

  get-IsPlacedPair :
      (uuid : String) (pair : Pair) (m : Table Pair)
      → IsFiledTable objects next m
      → get uuid m ≡ some pair
      → IsPlacedPair objects next uuid pair
  unfolding get
  get-IsPlacedPair uuid pair [] filed found = ground arith
  get-IsPlacedPair uuid pair ((peer, old) ∷ m) filed found =
      ground (arith, eq_iff peer uuid, get-IsPlacedPair uuid pair m filed.1)

  drop_side-IsPlacedPair :
      (uuid : String) (kind : Kind) (pair : Pair)
      → IsPlacedPair objects next uuid pair
      → IsPlacedPair objects next uuid (drop_side kind pair)
  drop_side-IsPlacedPair uuid viewer pair placed = (tt, placed.1)
  drop_side-IsPlacedPair uuid publisher pair placed = (placed.0, tt)

  put_side-IsPlacedPair :
      (uuid : String) (kind : Kind) (c : ℕ) (pair : Pair)
      → IsPlacedPair objects next uuid pair
      → IsPlaced objects next uuid kind (some c)
      → IsPlacedPair objects next uuid (put_side kind c pair)
  put_side-IsPlacedPair uuid viewer c pair placed new = (new, placed.1)
  put_side-IsPlacedPair uuid publisher c pair placed new = (placed.0, new)

  pub without_side-IsFiledTable :
      (uuid : String) (kind : Kind) (m : Table Pair)
      → IsFiledTable objects next m
      → IsFiledTable objects next (without_side uuid kind m)
  unfolding without_side
  without_side-IsFiledTable uuid kind m filed = elim (Option-cases (get uuid m)) [
    | inl e ↦ rw (without_side, e) filed
    | inr (old, e) ↦
        rw (without_side, e)
          (if_rule (IsFiledTable objects next) (is_empty_pair (drop_side kind old))
            (λ _. delete-IsFiledTable uuid m filed)
            (λ _.
              set-IsFiledTable uuid (drop_side kind old) m
                (drop_side-IsPlacedPair uuid kind old (get-IsPlacedPair uuid old m filed e)) filed))
  ]

  pair_of-IsPlacedPair :
      (uuid : String) (m : Table Pair)
      → IsFiledTable objects next m
      → IsPlacedPair objects next uuid (pair_of (get uuid m))
  pair_of-IsPlacedPair uuid m filed = elim (Option-cases (get uuid m)) [
    | inl e ↦ rw e (tt, tt)
    | inr (old, e) ↦ rw e (get-IsPlacedPair uuid old m filed e)
  ]

  pub put-IsFiledTable :
      (uuid : String) (kind : Kind) (c : ℕ) (m : Table Pair)
      → IsPlaced objects next uuid kind (some c)
      → IsFiledTable objects next m
      → IsFiledTable objects next (set uuid (put_side kind c (pair_of (get uuid m))) m)
  put-IsFiledTable uuid kind c m new filed =
      set-IsFiledTable uuid (put_side kind c (pair_of (get uuid m))) m
        (put_side-IsPlacedPair uuid kind c (pair_of (get uuid m))
          (pair_of-IsPlacedPair uuid m filed) new)
        filed

IsPlaced-frame :
    (earlier now : ℕ → Connection) (next later : ℕ) (uuid : String) (kind : Kind) (c : Option ℕ)
    → ((d : ℕ) → d < next → SamePlace (earlier d) (now d))
    → next ≤ later
    → IsPlaced earlier next uuid kind c
    → IsPlaced now later uuid kind c
IsPlaced-frame earlier now next later uuid kind none same grows placed = tt
IsPlaced-frame earlier now next later uuid kind (some c) same grows (exists, peer, direction) =
    let (same_uuid, same_kind) = same c exists in
    (omega arith, same_uuid ∙ peer, same_kind ∙ direction)

-- The table stays filed while the objects stay where they are.
pub IsFiledTable-frame :
    (earlier now : ℕ → Connection) (next later : ℕ) (m : Table Pair)
    → ((d : ℕ) → d < next → SamePlace (earlier d) (now d))
    → next ≤ later
    → IsFiledTable earlier next m
    → IsFiledTable now later m
IsFiledTable-frame earlier now next later [] same grows filed = tt
IsFiledTable-frame earlier now next later ((uuid, pair) ∷ m) same grows ((v, p), filed) = (
  (
    IsPlaced-frame earlier now next later uuid viewer pair.viewer_side same grows v,
    IsPlaced-frame earlier now next later uuid publisher pair.publisher_side same grows p,
  ),
  IsFiledTable-frame earlier now next later m same grows filed,
)
