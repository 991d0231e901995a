-- ===== src/Cashu/Amounts.antt =====
-- cashu/cashu.go: checked arithmetic on `uint64`, and the sum of the outputs of a request.
use gonuts.Prelude.{
  ℕ, ◌+◌, ◌-◌, ◌%◌, ◌<◌, ◌≡◌, refl, Bool, true, false, ◌||◌, List, [], ◌∷◌, arith, ltb,
  if◌then◌else◌, u64_mod, max_uint64, sum, All, ltb→lt, ltb→ge, lt→ltb, ge→ltb, ap, ◌∙◌, Bool-cases,
  inl, inr,
}
use gonuts.Errors.{Result, ok, err, invalid_blinded_message_amount}
use native.Mathlib.Nat.{add_assoc, add-zero}

-- OverflowAddUint64
unfoldable pub overflow_add_uint64 : ℕ → ℕ → ℕ × Bool
overflow_add_uint64 a b =
    let total = (a + b) % u64_mod in
    if ltb total a || ltb total b then (max_uint64, true) else (total, false)

-- UnderflowSubUint64
unfoldable pub underflow_sub_uint64 : ℕ → ℕ → ℕ × Bool
underflow_sub_uint64 a b = if ltb a b then (0, true) else (a - b, false)

-- The loop of BlindedMessages.AmountChecked. Its error is ErrAmountOverflows, which both callers
-- turn into InvalidBlindedMessageAmount.
unfoldable pub amount_checked : ℕ → List ℕ → Result ℕ
amount_checked total [] = ok total
amount_checked total (a ∷ rest) =
    let (total', overflows) = overflow_add_uint64 total a in
    let tail = amount_checked total' rest in
    if overflows then err invalid_blinded_message_amount else tail

abbrev pub IsUint64 : ℕ → Type 0
IsUint64 a = a < u64_mod

pub overflow_add_lem :
    (a b : ℕ)
    → IsUint64 a
    → IsUint64 b
    → overflow_add_uint64 a b ≡ (if ltb (a + b) u64_mod then (a + b, false) else (max_uint64, true))
unfolding overflow_add_uint64
overflow_add_lem a b ha hb = ground arith

-- The checked sum, by its specification.
abbrev pub checked_total : ℕ → Result ℕ
checked_total n = if ltb n u64_mod then ok n else err invalid_blinded_message_amount

checked_total_over :
    (total a r : ℕ)
    → ltb (total + a) u64_mod ≡ false
    → err invalid_blinded_message_amount ≡ checked_total (total + (a + r))
checked_total_over total a r h =
    rw (ge→ltb (total + (a + r)) u64_mod (omega (arith, ltb→ge (total + a) u64_mod h))) refl

-- For a start and amounts that are 64-bit numbers, the checked sum is the true sum where that fits a
-- `uint64`, and an error where it does not.
pub amount_checked_lem :
    (total : ℕ) (amounts : List ℕ)
    → IsUint64 total
    → All IsUint64 amounts
    → amount_checked total amounts ≡ checked_total (total + sum amounts)
unfolding amount_checked
amount_checked_lem total [] ht h = rw (add-zero, lt→ltb total u64_mod ht) refl
amount_checked_lem total (a ∷ rest) ht h = elim (Bool-cases (ltb (total + a) u64_mod)) [
  | inl fits ↦
      rw (overflow_add_lem total a ht h.0, fits)
        (amount_checked_lem (total + a) rest (ltb→lt _ _ fits) h.1
          ∙ ap checked_total (add_assoc total a (sum rest)))
  | inr over ↦
      rw (overflow_add_lem total a ht h.0, over) (checked_total_over total a (sum rest) over)
]
