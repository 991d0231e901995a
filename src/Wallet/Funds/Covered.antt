-- ===== src/Wallet/Funds/Covered.antt =====
-- wallet/wallet.go: what `selectProofsForAmount` answers covers the amount and the fees.
use gonuts.Prelude.{
  ℕ, ◌+◌, ◌-◌, ◌%◌, ◌≤◌, ◌<◌, ◌≡◌, sym, ◌⊎◌, String, Bool, false, List, [], ◌∷◌, ◌++◌, arith, ltb,
  leb, leb→le, u64_mod, Bool-cases, inl, inr,
}
use gonuts.Cashu.{Proof, proofs_amount}
use gonuts.Wallet.{
  WalletMint, Answer, endless, crash, fault, answer, fees_if, input_fee, answer_injective,
  >>=-eq-answer,
}
use gonuts.Wallet.Weights.{
  total, amount_of, proofs_amount_lem, fees_if-nil, fees_if-append, fees_if-le-total, total-append,
  IsPartOf, IsPartOf-more, IsPartOf-le, IsPartOf-nil, IsPartOf-refl, IsPartOf-append,
}
use gonuts.Wallet.Select.{Sort, Rearranges}
use gonuts.Wallet.Select.Chosen.{select_proofs_to_send-IsPartOf}
use gonuts.Wallet.Funds.{
  get_inactive_proofs_by_mint, get_active_proofs_by_mint, get_proofs_from_mint, drop_fault,
  from_inactive, amount_needed_for, top_up, select_proofs_for_amount,
}

drop_fault-answer :
    (r : Answer (List Proof)) (selected : List Proof)
    → drop_fault r ≡ answer selected
    → (selected ≡ []) ⊎ (r ≡ answer selected)
unfolding drop_fault
drop_fault-answer endless selected e = cc
drop_fault-answer crash selected e = cc
drop_fault-answer (fault problem) selected e = inl (sym (answer_injective e))
drop_fault-answer (answer proofs) selected e = inr e

module _ {K : Type 0} (stored : String → List Proof) (sort : Sort) (mint : WalletMint K)
    (include_fees : Bool) (amount : ℕ) (rearranges : Rearranges sort) where
  from_inactive-IsPartOf :
      (inactive selected : List Proof)
      → from_inactive stored sort mint include_fees amount inactive ≡ answer selected
      → IsPartOf selected inactive
  unfolding from_inactive
  from_inactive-IsPartOf [] selected e = rw (← answer_injective e) (IsPartOf-nil [])
  from_inactive-IsPartOf (p ∷ ps) selected e =
      elim (Bool-cases (ltb (proofs_amount (p ∷ ps)) amount)) [
        | inl poor ↦ rw (← answer_injective (rw poor at e)) (IsPartOf-refl (p ∷ ps))
        | inr rich ↦ elim (drop_fault-answer _ selected (rw rich at e)) [
          | inl none ↦ rw none (IsPartOf-nil (p ∷ ps))
          | inr chosen ↦
              (select_proofs_to_send-IsPartOf sort mint include_fees amount rearranges (p ∷ ps)
                selected chosen).0
        ]
      ]

  amount_needed_for_lem :
      (inactive selected : List Proof)
      → from_inactive stored sort mint include_fees amount inactive ≡ answer selected
      → amount + fees_if include_fees mint selected < u64_mod
      → amount_needed_for stored sort mint include_fees amount inactive selected
        ≡ amount + fees_if include_fees mint selected
  unfolding amount_needed_for from_inactive
  amount_needed_for_lem [] selected e h =
      rw (← answer_injective e) (omega (arith, fees_if-nil mint include_fees))
  amount_needed_for_lem (p ∷ ps) selected e h = omega arith

  -- With no overflow in sight: the amounts in the wallet, and the amount with all fees.
  abbrev pub Fits : List Proof → Type 0
  Fits all = (total amount_of all < u64_mod) × (amount + total (input_fee mint) all + 999 < u64_mod)

  module _ (inactive active : List Proof) (fits : Fits (inactive ++ active)) where
    -- The two selections together cover the amount and the fees of both.
    together :
        (selected more : List Proof) (rest : ℕ)
        → IsPartOf selected inactive
        → IsPartOf more active
        → rest + proofs_amount selected ≡ amount + fees_if include_fees mint selected
        → (rest + fees_if include_fees mint more) % u64_mod ≤ proofs_amount more
        → amount + fees_if include_fees mint (selected ++ more) ≤ proofs_amount (selected ++ more)
    together selected more rest part part' owed enough =
        let fee = input_fee mint in
        let all_amounts = total-append amount_of inactive active in
        let all_fees = total-append fee inactive active in
        let a1 = IsPartOf-le amount_of selected inactive part in
        let a2 = IsPartOf-le amount_of more active part' in
        let f1 = IsPartOf-le fee selected inactive part in
        let f2 = IsPartOf-le fee more active part' in
        let sums = total-append amount_of selected more in
        omega (
          arith,
          sums,
          proofs_amount_lem selected (omega (arith, all_amounts, a1, a2)),
          proofs_amount_lem more (omega (arith, all_amounts, a1, a2)),
          proofs_amount_lem (selected ++ more) (omega (arith, all_amounts, a1, a2, sums)),
          fees_if-append mint include_fees selected more (omega (arith, all_fees, f1, f2)),
          fees_if-le-total mint include_fees selected (omega (arith, all_fees, f1, f2)),
          fees_if-le-total mint include_fees more (omega (arith, all_fees, f1, f2)),
          all_fees,
          f1,
          f2,
        )

  Covers : List Proof → List Proof → Type 0
  Covers selected all =
      IsPartOf selected all × (amount + fees_if include_fees mint selected ≤ proofs_amount selected)

  same_rest :
      (needed sum owed : ℕ) → leb needed sum ≡ false → needed ≡ owed → (needed - sum) + sum ≡ owed
  same_rest needed sum owed h e = ground arith

  top_up-Covers :
      (inactive selected chosen : List Proof) (needed : ℕ)
      → Fits (inactive ++ get_active_proofs_by_mint stored mint)
      → IsPartOf selected inactive
      → needed ≡ amount + fees_if include_fees mint selected
      → top_up stored sort mint include_fees amount selected needed ≡ answer chosen
      → Covers chosen (inactive ++ get_active_proofs_by_mint stored mint)
  unfolding top_up Covers
  top_up-Covers inactive selected chosen needed fits part owed e =
      let active = get_active_proofs_by_mint stored mint in
      elim (Bool-cases (leb needed (proofs_amount selected))) [
        | inl enough ↦ rw (← answer_injective (rw enough at e)) (
          IsPartOf-more selected inactive active part,
          omega (arith, leb→le needed (proofs_amount selected) enough),
        )
        | inr lacking ↦
            let (more, found, joined) = >>=-eq-answer _ _ (rw lacking at e) in
            let (part', covers) =
              select_proofs_to_send-IsPartOf sort mint include_fees _ rearranges active more
                found in
            rw (← answer_injective joined) (
              IsPartOf-append selected more inactive active part part',
              together inactive active fits selected more _ part part'
                  (same_rest needed (proofs_amount selected) _ lacking owed) covers,
            )
      ]

  -- What `selectProofsForAmount` answers, for a sort that rearranges and where nothing overflows: proofs
  -- of the mint in the wallet, once each, that are worth the amount and their own fees.
  pub select_proofs_for_amount-covers :
      (chosen : List Proof)
      → Fits (get_proofs_from_mint stored mint)
      → select_proofs_for_amount stored sort mint include_fees amount ≡ answer chosen
      → IsPartOf chosen (get_proofs_from_mint stored mint)
        × (amount + fees_if include_fees mint chosen ≤ proofs_amount chosen)
  unfolding select_proofs_for_amount get_proofs_from_mint Covers
  select_proofs_for_amount-covers chosen fits e =
      let inactive = get_inactive_proofs_by_mint stored mint in
      let active = get_active_proofs_by_mint stored mint in
      let (selected, found, topped) =
        >>=-eq-answer (from_inactive stored sort mint include_fees amount inactive) _ e in
      let part = from_inactive-IsPartOf inactive selected found in
      let bound = fees_if-le-total mint include_fees selected (
        omega (
          arith,
          IsPartOf-le (input_fee mint) selected inactive part,
          total-append (input_fee mint) inactive active,
        )) in
      top_up-Covers inactive selected chosen _ fits part
        (amount_needed_for_lem inactive selected found (
          omega (
            arith,
            bound,
            IsPartOf-le (input_fee mint) selected inactive part,
            total-append (input_fee mint) inactive active,
          )))
        topped
