-- ===== src/Wallet/Weights.antt =====
-- wallet/wallet.go: weights of the proofs in a list (their amounts, their fees, their number, how
-- often one stands there), and the fees of the wallet by them.
use gonuts.Prelude.{
  ℕ, ◌+◌, ◌/◌, ◌%◌, ◌≤◌, ◌<◌, ◌≡◌, refl, List, [], ◌∷◌, ◌++◌, arith, u64_mod, sum, length, Bool,
  true, false,
}
use gonuts.Cashu.{Proof, proofs_amount, proof_amounts, wrapping_sum}
use gonuts.Wallet.{WalletMint, input_fee, input_fees, fees_for_proofs, fees_if}

abbrev pub total : (Proof → ℕ) → List Proof → ℕ
total f [] = 0
total f (p ∷ ps) = f p + total f ps

pub total-append :
    (f : Proof → ℕ) (ps qs : List Proof) → total f (ps ++ qs) ≡ total f ps + total f qs
total-append f [] qs = omega arith
total-append f (p ∷ ps) qs = omega (arith, total-append f ps qs)

-- The proofs are of the list, once each: with what is left they weigh as the list, by any weight.
abbrev pub IsPartOf : List Proof → List Proof → Type 0
IsPartOf chosen proofs =
    (left : List Proof) × ((f : Proof → ℕ) → total f chosen + total f left ≡ total f proofs)

pub IsPartOf-nil : (proofs : List Proof) → IsPartOf [] proofs
IsPartOf-nil proofs = (proofs, λ f. omega arith)

pub IsPartOf-refl : (proofs : List Proof) → IsPartOf proofs proofs
IsPartOf-refl proofs = ([], λ f. omega arith)

pub IsPartOf-append :
    (ps qs proofs others : List Proof)
    → IsPartOf ps proofs
    → IsPartOf qs others
    → IsPartOf (ps ++ qs) (proofs ++ others)
IsPartOf-append ps qs proofs others (l, h) (m, k) = (
  l ++ m,
  λ f.
      omega
        (arith, h f, k f, total-append f ps qs, total-append f l m, total-append f proofs others),
)

pub IsPartOf-more :
    (ps proofs others : List Proof) → IsPartOf ps proofs → IsPartOf ps (proofs ++ others)
IsPartOf-more ps proofs others (l, h) =
    (l ++ others, λ f. omega (arith, h f, total-append f l others, total-append f proofs others))

pub IsPartOf-le :
    (f : Proof → ℕ) (ps proofs : List Proof) → IsPartOf ps proofs → total f ps ≤ total f proofs
IsPartOf-le f ps proofs (l, h) = omega (arith, h f)

abbrev pub amount_of : Proof → ℕ
amount_of p = p.amount

abbrev pub one_of : Proof → ℕ
one_of p = 1

pub total-one : (ps : List Proof) → total one_of ps ≡ length ps
total-one [] = omega arith
total-one (p ∷ ps) = omega (arith, total-one ps)

pub total-amount : (ps : List Proof) → total amount_of ps ≡ sum (proof_amounts ps)
total-amount [] = omega arith
total-amount (p ∷ ps) = omega (arith, total-amount ps)

wrapping_sum_lem :
    (acc : ℕ) (ps : List Proof)
    → acc + total amount_of ps < u64_mod
    → wrapping_sum acc (proof_amounts ps) ≡ acc + total amount_of ps
unfolding wrapping_sum
wrapping_sum_lem acc [] h = omega arith
wrapping_sum_lem acc (p ∷ ps) h =
    omega (arith, wrapping_sum_lem ((acc + p.amount) % u64_mod) ps (omega arith))

pub proofs_amount_lem :
    (ps : List Proof) → total amount_of ps < u64_mod → proofs_amount ps ≡ total amount_of ps
unfolding proofs_amount
proofs_amount_lem ps h = omega (arith, wrapping_sum_lem 0 ps (omega arith))

wrapping_sum-snoc :
    (acc : ℕ) (ps : List Proof) (p : Proof)
    → wrapping_sum acc (proof_amounts (ps ++ p ∷ []))
      ≡ (wrapping_sum acc (proof_amounts ps) + p.amount) % u64_mod
unfolding wrapping_sum
wrapping_sum-snoc acc [] p = omega arith
wrapping_sum-snoc acc (q ∷ ps) p = wrapping_sum-snoc ((acc + q.amount) % u64_mod) ps p

pub proofs_amount-snoc :
    (ps : List Proof) (p : Proof)
    → proofs_amount (ps ++ p ∷ []) ≡ (proofs_amount ps + p.amount) % u64_mod
unfolding proofs_amount
proofs_amount-snoc ps p = wrapping_sum-snoc 0 ps p

module _ {K : Type 0} (mint : WalletMint K) where
  input_fees_lem :
      (acc : ℕ) (ps : List Proof)
      → acc + total (input_fee mint) ps < u64_mod
      → input_fees mint acc ps ≡ acc + total (input_fee mint) ps
  unfolding input_fees
  input_fees_lem acc [] h = omega arith
  input_fees_lem acc (p ∷ ps) h =
      omega (arith, input_fees_lem ((acc + input_fee mint p) % u64_mod) ps (omega arith))

  -- Where nothing overflows, the fees are the thousandth of the true total, rounded up.
  pub fees_for_proofs_lem :
      (ps : List Proof)
      → total (input_fee mint) ps + 999 < u64_mod
      → fees_for_proofs mint ps ≡ (total (input_fee mint) ps + 999) / 1000
  unfolding fees_for_proofs
  fees_for_proofs_lem ps h = omega (arith, input_fees_lem 0 ps (omega arith))

  pub fees_if-le :
      (include : Bool) (ps qs : List Proof)
      → total (input_fee mint) qs + 999 < u64_mod
      → total (input_fee mint) ps ≤ total (input_fee mint) qs
      → fees_if include mint ps ≤ fees_if include mint qs
  unfolding fees_if
  fees_if-le false ps qs h le = omega arith
  fees_if-le true ps qs h le =
      omega (arith, fees_for_proofs_lem ps (omega arith), fees_for_proofs_lem qs h)

  pub fees_if-nil : (include : Bool) → fees_if include mint [] ≡ 0
  unfolding fees_if
  fees_if-nil false = refl
  fees_if-nil true = fees_for_proofs_lem [] (omega arith)

  pub fees_if-le-total :
      (include : Bool) (ps : List Proof)
      → total (input_fee mint) ps + 999 < u64_mod
      → fees_if include mint ps ≤ total (input_fee mint) ps
  unfolding fees_if
  fees_if-le-total false ps h = omega arith
  fees_if-le-total true ps h = omega (arith, fees_for_proofs_lem ps h)

  -- Fees of parts, which round up each, cover the fee of the whole.
  pub fees_if-append :
      (include : Bool) (ps qs : List Proof)
      → total (input_fee mint) ps + total (input_fee mint) qs + 999 < u64_mod
      → fees_if include mint (ps ++ qs) ≤ fees_if include mint ps + fees_if include mint qs
  unfolding fees_if
  fees_if-append false ps qs h = omega arith
  fees_if-append true ps qs h = omega (
    arith,
    total-append (input_fee mint) ps qs,
    fees_for_proofs_lem (ps ++ qs) (omega (arith, total-append (input_fee mint) ps qs)),
    fees_for_proofs_lem ps (omega arith),
    fees_for_proofs_lem qs (omega arith),
  )
