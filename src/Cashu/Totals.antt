-- ===== src/Cashu/Totals.antt =====
-- How the wrapping sums of cashu/cashu.go stand to the true ones.
use gonuts.Prelude.{
  ℕ, ◌+◌, ◌%◌, ◌≤◌, ◌≡◌, sym, ◌∙◌, List, [], ◌∷◌, arith, ltb, u64_mod, sum, All, Bool-cases, inl,
  inr,
}
use gonuts.Errors.{ok, err, ok_injective, invalid_blinded_message_amount}
use gonuts.Cashu.{Proof, wrapping_sum, proofs_amount, proof_amounts}
use gonuts.Cashu.Amounts.{IsUint64, amount_checked, amount_checked_lem, checked_total}

pub wrapping_sum-le : (acc : ℕ) (amounts : List ℕ) → wrapping_sum acc amounts ≤ acc + sum amounts
unfolding wrapping_sum
wrapping_sum-le acc [] = omega arith
wrapping_sum-le acc (a ∷ rest) = omega (arith, wrapping_sum-le ((acc + a) % u64_mod) rest)

pub proofs_amount-le : (proofs : List Proof) → proofs_amount proofs ≤ sum (proof_amounts proofs)
unfolding proofs_amount
proofs_amount-le proofs = omega (arith, wrapping_sum-le 0 (proof_amounts proofs))

overflow_not_ok : {n total : ℕ} → err invalid_blinded_message_amount ≡ ok total → total ≡ n
overflow_not_ok h = cc

checked_total-ok : (n total : ℕ) → checked_total n ≡ ok total → total ≡ n
checked_total-ok n total h = elim (Bool-cases (ltb n u64_mod)) [
  | inl fits ↦ ok_injective (sym (rw fits at h))
  | inr over ↦ overflow_not_ok (rw over at h)
]

-- A checked sum that is answered is the true one.
pub amount_checked_ok :
    (amounts : List ℕ) (total : ℕ)
    → All IsUint64 amounts
    → amount_checked 0 amounts ≡ ok total
    → total ≡ sum amounts
amount_checked_ok amounts total h e =
    checked_total-ok (0 + sum amounts) total
      (sym (amount_checked_lem 0 amounts (omega arith) h) ∙ e)
    ∙ omega arith
