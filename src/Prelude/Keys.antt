-- ===== src/Prelude/Keys.antt =====
-- Lists of keys: when they are distinct, and when two lists have none in common.
use gonuts.Prelude.Lists.{All, contains, contains-append, IsDistinct}
use Prim.Native.String.{String}
use mathlib.Core.Path.{◌≡◌, refl}
use mathlib.Core.Bool.{true, false}
use mathlib.Core.List.{List, [], ◌∷◌, ◌++◌}
use native.Mathlib.Omega.{arith}
use text.Mathlib.TextEquality.{eq_iff as str_eq_iff}

-- No text of the one list stands in the other.
abbrev pub IsDisjoint : List String → List String → Type 0
IsDisjoint ys table = All (λ y. contains y table ≡ false) ys

pub IsDistinct-snoc :
    (xs : List String) (y : String)
    → IsDistinct xs
    → contains y xs ≡ false
    → IsDistinct (xs ++ y ∷ [])
IsDistinct-snoc [] y d h = (refl, tt)
IsDistinct-snoc (x ∷ xs) y d h =
    ground
      (arith, contains-append x xs (y ∷ []), IsDistinct-snoc xs y, str_eq_iff x y, str_eq_iff y x)

pub IsDisjoint-append :
    (ys table more : List String)
    → IsDisjoint ys (table ++ more)
    → IsDisjoint ys table × IsDisjoint ys more
IsDisjoint-append [] table more h = (tt, tt)
IsDisjoint-append (y ∷ ys) table more h =
    ground (arith, contains-append y table more, IsDisjoint-append ys table more h.1)

pub not_contains_symm :
    (y : String) (ys : List String) → IsDisjoint ys (y ∷ []) → contains y ys ≡ false
not_contains_symm y [] h = refl
not_contains_symm y (x ∷ ys) h =
    ground (arith, not_contains_symm y ys h.1, str_eq_iff x y, str_eq_iff y x)

-- The other way round.
pub IsDisjoint-of_append :
    (ys table more : List String)
    → IsDisjoint ys table
    → IsDisjoint ys more
    → IsDisjoint ys (table ++ more)
IsDisjoint-of_append [] table more h k = tt
IsDisjoint-of_append (y ∷ ys) table more h k =
    ground (arith, contains-append y table more, IsDisjoint-of_append ys table more h.1 k.1)

pub IsDisjoint-of_not_contains :
    (y : String) (ys : List String) → contains y ys ≡ false → IsDisjoint ys (y ∷ [])
IsDisjoint-of_not_contains y [] h = tt
IsDisjoint-of_not_contains y (x ∷ ys) h =
    ground (arith, IsDisjoint-of_not_contains y ys, str_eq_iff x y, str_eq_iff y x)

pub IsDisjoint-contains :
    (x : String) (xs ys : List String)
    → IsDisjoint xs ys
    → contains x xs ≡ true
    → contains x ys ≡ false
IsDisjoint-contains x [] ys h c = cc
IsDisjoint-contains x (k ∷ xs) ys h c =
    ground (arith, IsDisjoint-contains x xs ys, str_eq_iff k x, h.0)
