-- ===== src/Prelude/Int.antt =====
-- Signed integers, and `strconv.ParseInt` in base 10.
use Prim.Native.Char.{code}
use gonuts.Prelude.Tests.{ltb, leb, ◌==◌, if◌then◌else◌}
use Prim.Native.Nat.{ℕ, zero, suc, ◌+◌, ◌-◌, ◌*◌, ◌^◌}
use Prim.Native.String.{String}
use mathlib.Core.Bool.{◌&&◌}
use mathlib.Core.List.{List, [], ◌∷◌}
use mathlib.Core.Option.{Option, none, some}

-- `negsuc n` is -(n + 1)
pub data ℤ : Type 0 where
  pos : ℕ → ℤ
  negsuc : ℕ → ℤ

abbrev pub codes : String → List ℕ
codes String.[] = []
codes (String.◌∷◌ c s) = code c ∷ codes s

digits : ℕ → List ℕ → Option ℕ
digits n [] = some n
digits n (c ∷ rest) =
    let tail = digits (n * 10 + (c - 48)) rest in if leb 48 c && leb c 57 then tail else none

magnitude : List ℕ → Option ℕ
unfolding digits
magnitude [] = none
magnitude (c ∷ rest) = digits 0 (c ∷ rest)

-- the range of a signed integer of so many bits
ranged_pos : ℕ → Option ℕ → Option ℤ
ranged_pos bits none = none
ranged_pos bits (some n) = if ltb n (2 ^ (bits - 1)) then some (pos n) else none

ranged_neg : ℕ → Option ℕ → Option ℤ
ranged_neg bits none = none
ranged_neg bits (some zero) = some (pos 0)
ranged_neg bits (some (suc n)) = if ltb n (2 ^ (bits - 1)) then some (negsuc n) else none

signed : ℕ → List ℕ → Option ℤ
unfolding magnitude ranged_pos ranged_neg
signed bits [] = none
signed bits (c ∷ rest) =
    if c == 43
    then ranged_pos bits (magnitude rest)
    else if c == 45
    then ranged_neg bits (magnitude rest)
    else ranged_pos bits (magnitude (c ∷ rest))

-- strconv.ParseInt(s, 10, bits)
unfoldable pub parse_int : ℕ → String → Option ℤ
unfolding signed
parse_int bits s = signed bits (codes s)
