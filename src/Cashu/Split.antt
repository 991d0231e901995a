-- ===== src/Cashu/Split.antt =====
-- cashu/cashu.go: `AmountSplit`, which writes an amount as a sum of powers of two, and `Count`
-- and `Max`.
use native.Mathlib.Nat.{pow-suc, one-le-pow}
use native.Mathlib.Numerals.{add-one}
use gonuts.Prelude.{
  ℕ, zero, suc, ◌+◌, ◌*◌, ◌/◌, ◌%◌, ◌^◌, ◌≤◌, ◌<◌, ◌≡◌, refl, List, [], ◌∷◌, arith, ltb, ◌==◌,
  if◌then◌else◌, sum, Bool-cases, inl, inr, ==_iff, u64_mod, ◌∙◌,
}

-- The loop, with a round for each bit: an amount of fuel bits is 0 when the fuel is used up.
unfoldable pub split_from : ℕ → ℕ → ℕ → List ℕ
split_from zero pos amount = []
split_from (suc fuel) pos amount =
    let rest = split_from fuel (pos + 1) (amount / 2) in
    if amount == 0 then [] else if amount % 2 == 1 then (2 ^ pos) ∷ rest else rest

-- AmountSplit
unfoldable pub amount_split : ℕ → List ℕ
unfolding split_from
amount_split amount = split_from 64 0 amount

-- Count
unfoldable pub count : List ℕ → ℕ → ℕ
count [] amount = 0
count (amt ∷ amounts) amount =
    let rest = count amounts amount in if amt == amount then suc rest else rest

-- Max
unfoldable pub max_uint : ℕ → ℕ → ℕ
max_uint x y = if ltb y x then x else y

-- The amounts ascend strictly, from 2 ^ pos on, and each is a power of two.
abbrev pub IsAscending : ℕ → List ℕ → Type 0
IsAscending low [] = Unit
IsAscending low (a ∷ as_) = (low ≤ a) × ((k : ℕ) × (a ≡ 2 ^ k)) × IsAscending (a + 1) as_

IsAscending-weaken :
    (low low' : ℕ) (as_ : List ℕ) → low' ≤ low → IsAscending low as_ → IsAscending low' as_
IsAscending-weaken low low' [] le h = tt
IsAscending-weaken low low' (a ∷ as_) le h = (omega arith, h.1, h.2)

odd_step : (p q k a s : ℕ) → q ≡ p * 2 → s ≡ q * k → a ≡ 2 * k + 1 → p + s ≡ p * a
odd_step p q k a s eq es ea = rw (es, eq, ea) (omega arith)

even_step : (p q k a s : ℕ) → q ≡ p * 2 → s ≡ q * k → a ≡ 2 * k → s ≡ p * a
even_step p q k a s eq es ea = rw (es, eq, ea) (omega arith)

zero_step : (p a : ℕ) → a ≡ 0 → 0 ≡ p * a
zero_step p a e = rw e (omega arith)

next_power : (pos : ℕ) → 2 ^ (pos + 1) ≡ 2 ^ pos * 2
next_power pos = rw add-one (pow-suc 2 pos)

half-lt : (fuel a : ℕ) → a < 2 ^ suc fuel → a / 2 < 2 ^ fuel
half-lt fuel a h = omega (arith, pow-suc 2 fuel)

-- With a bit of fuel for each bit of the amount, the parts add up to the amount, shifted.
pub sum-split_from :
    (fuel pos amount : ℕ) → amount < 2 ^ fuel → sum (split_from fuel pos amount) ≡ 2 ^ pos * amount
unfolding split_from
sum-split_from zero pos amount h = zero_step (2 ^ pos) amount (omega arith)
sum-split_from (suc fuel) pos amount h =
    let ih = sum-split_from fuel (pos + 1) (amount / 2) (half-lt fuel amount h) in
    elim (Bool-cases (amount == 0)) [
      | inl none_left ↦ rw none_left (zero_step (2 ^ pos) amount ((==_iff amount 0).0 none_left))
      | inr more ↦ elim (Bool-cases (amount % 2 == 1)) [
        | inl odd ↦
            rw (more, odd)
              (odd_step (2 ^ pos) (2 ^ (pos + 1)) (amount / 2) amount _ (next_power pos) ih
                (omega (arith, (==_iff (amount % 2) 1).0 odd)))
        | inr even ↦
            rw (more, even)
              (even_step (2 ^ pos) (2 ^ (pos + 1)) (amount / 2) amount _ (next_power pos) ih
                (ground arith))
      ]
    ]

power_grows : (pos : ℕ) → 2 ^ pos + 1 ≤ 2 ^ (pos + 1)
power_grows pos = omega (arith, next_power pos, one-le-pow pos 2 (omega arith))

-- The parts are distinct powers of two, in ascending order.
pub IsAscending-split_from :
    (fuel pos amount : ℕ) → IsAscending (2 ^ pos) (split_from fuel pos amount)
unfolding split_from
IsAscending-split_from zero pos amount = tt
IsAscending-split_from (suc fuel) pos amount =
    let ih = IsAscending-split_from fuel (pos + 1) (amount / 2) in
    let rest = split_from fuel (pos + 1) (amount / 2) in
    elim (Bool-cases (amount == 0)) [
      | inl none_left ↦ rw none_left tt
      | inr more ↦ elim (Bool-cases (amount % 2 == 1)) [
        | inl odd ↦
            rw (more, odd)
              (
                omega arith,
                (pos, refl),
                IsAscending-weaken _ (2 ^ pos + 1) rest (power_grows pos) ih,
              )
        | inr even ↦
            rw (more, even)
              (IsAscending-weaken _ (2 ^ pos) rest (omega (arith, power_grows pos)) ih)
      ]
    ]

-- AmountSplit writes every `uint64` as a sum of distinct powers of two, in ascending order.
pub amount_split-IsBinary :
    (amount : ℕ)
    → amount < u64_mod
    → (sum (amount_split amount) ≡ amount) × IsAscending 1 (amount_split amount)
unfolding amount_split
amount_split-IsBinary amount h =
    (sum-split_from 64 0 amount h ∙ omega arith, IsAscending-split_from 64 0 amount)
