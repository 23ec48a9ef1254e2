-- ===== src/Prelude/Members.antt =====
-- JavaScript's `Set` of texts, in the order of insertion.
use Prim.Native.String.{String}
use mathlib.Core.Path.{◌≡◌, refl}
use mathlib.Core.Bool.{Bool, false, not, ◌&&◌, ◌||◌}
use mathlib.Core.List.{List, [], ◌∷◌, ◌++◌}
use native.Mathlib.Omega.{arith}
use text.Mathlib.Text.{◌==◌ as str_eq}
use text.Mathlib.TextEquality.{eq_iff}
use ninja_vst3_plugin.Prelude.Tests.{if◌then◌else◌}

-- set.has(k)
unfoldable pub contains : String → List String → Bool
contains k [] = false
contains k (j ∷ l) = str_eq j k || contains k l

-- set.add(k)
unfoldable pub add_member : String → List String → List String
add_member k l = if contains k l then l else l ++ (k ∷ [])

-- set.delete(k)
unfoldable pub drop_member : String → List String → List String
drop_member k [] = []
drop_member k (j ∷ l) = let rest = drop_member k l in if str_eq j k then rest else j ∷ rest

unfoldable pub add_members : List String → List String → List String
add_members [] l = l
add_members (k ∷ ks) l = add_members ks (add_member k l)

unfoldable pub drop_members : List String → List String → List String
drop_members [] l = l
drop_members (k ∷ ks) l = drop_members ks (drop_member k l)

contains-append :
    (k j : String) (l : List String) → contains j (l ++ (k ∷ [])) ≡ (contains j l || str_eq k j)
unfolding contains
contains-append k j [] = ground arith
contains-append k j (i ∷ l) = ground (arith, contains-append k j l)

pub contains-add_member :
    (k j : String) (l : List String) → contains j (add_member k l) ≡ (str_eq k j || contains j l)
unfolding add_member
contains-add_member k j l = ground (arith, contains-append k j l, eq_iff k j)

pub contains-drop_member :
    (k j : String) (l : List String)
    → contains j (drop_member k l) ≡ (not (str_eq k j) && contains j l)
unfolding drop_member contains
contains-drop_member k j [] = ground arith
contains-drop_member k j (i ∷ l) =
    ground (arith, contains-drop_member k j l, eq_iff k j, eq_iff i k, eq_iff i j)

pub contains-add_members :
    (ks : List String) (j : String) (l : List String)
    → contains j (add_members ks l) ≡ (contains j ks || contains j l)
unfolding add_members contains
contains-add_members [] j l = refl
contains-add_members (k ∷ ks) j l =
    ground (arith, contains-add_members ks j (add_member k l), contains-add_member k j l)

pub contains-drop_members :
    (ks : List String) (j : String) (l : List String)
    → contains j (drop_members ks l) ≡ (not (contains j ks) && contains j l)
unfolding drop_members contains
contains-drop_members [] j l = refl
contains-drop_members (k ∷ ks) j l =
    ground (arith, contains-drop_members ks j (drop_member k l), contains-drop_member k j l)
