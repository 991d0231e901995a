-- ===== src/Wallet/Select/Chosen.antt =====
-- wallet/wallet.go: what `selectProofsToSend` answers: proofs of the list, once each, whose amount
-- covers what was asked for and the fees.
use gonuts.Prelude.{
  ℕ, suc, ◌+◌, ◌%◌, ◌≤◌, ◌<◌, ◌≡◌, ◌≢◌, refl, sym, ◌∙◌, none, some, List, ◌++◌, arith, ltb, ◌==◌,
  if◌then◌else◌, u64_mod, length, Bool, Bool-cases, inl, inr, Option,
}
use gonuts.Cashu.{Proof, proofs_amount}
use gonuts.Wallet.{
  WalletMint, endless, fault, answer, insufficient_mint_balance, fees_if, WalletError,
}
use gonuts.Wallet.Weights.{total, total-append, one_of, total-one, proofs_amount-snoc, IsPartOf}
use gonuts.Wallet.Select.{
  Sort, Rearranges, Picking, stop, again, after_take, round, start, checked, select_proofs_to_send,
}
use gonuts.Wallet.Select.Loop.{
  weight, state_of, left_over, total-up_to-above, round-weight, pick-Ends,
}

-- The state holds the proofs, and the sum is that of the selected ones.
pub record Holds (proofs : List Proof) (s : Picking) : Type 0 where
  pub weights : (f : Proof → ℕ) → weight f s ≡ total f proofs
  pub summed : s.selected_sum ≡ proofs_amount s.selected

module _ {K : Type 0} (sort : Sort) (mint : WalletMint K) (include_fees : Bool) (amount : ℕ)
    (rearranges : Rearranges sort) where
  after_take-summed :
      (s : Picking) (next : Option (Proof × List Proof × List Proof))
      → s.selected_sum ≡ proofs_amount s.selected
      → (let s' = state_of (after_take sort mint include_fees amount s next) in
          s'.selected_sum ≡ proofs_amount s'.selected)
  unfolding after_take
  after_take-summed s none h = h
  after_take-summed s (some (p, smaller, bigger)) h =
      ground (arith, proofs_amount-snoc s.selected p)

  round-summed :
      (s : Picking)
      → s.selected_sum ≡ proofs_amount s.selected
      → (let s' = state_of (round sort mint include_fees amount s) in
          s'.selected_sum ≡ proofs_amount s'.selected)
  unfolding round
  round-summed s h = elim (Bool-cases (s.remaining == 0)) [
    | inl none_needed ↦ rw none_needed h
    | inr more ↦ rw more (after_take-summed s _ h)
  ]

  pub round-Holds :
      {proofs : List Proof} (s : Picking)
      → Holds proofs s
      → Holds proofs (state_of (round sort mint include_fees amount s))
  round-Holds s h = record {
    weights = λ f. round-weight sort mint include_fees amount rearranges f s ∙ h.weights f;
    summed = round-summed s h.summed;
  }

  pub again-Holds :
      {proofs : List Proof} (s s' : Picking)
      → Holds proofs s
      → round sort mint include_fees amount s ≡ again s'
      → Holds proofs s'
  again-Holds s s' h e = rw e at (round-Holds s h)

  pub start-Holds :
      (proofs : List Proof) → Holds proofs (start sort mint include_fees amount proofs)
  unfolding start proofs_amount
  start-Holds proofs = record {
    weights = λ f. omega (arith, total-up_to-above f amount (sort _ proofs), rearranges _ proofs f);
    summed = refl;
  }

  start-left :
      (proofs : List Proof)
      → left_over (start sort mint include_fees amount proofs) < suc (length proofs)
  unfolding start
  start-left proofs = omega (
    arith,
    total-one proofs,
    total-up_to-above one_of amount (sort _ proofs),
    rearranges _ proofs one_of,
  )

  -- The loop ends, and the answer is that of the test below it.
  pub select_proofs_to_send-Ends :
      (P : Picking → Type 0)
      → ((s s' : Picking) → P s → round sort mint include_fees amount s ≡ again s' → P s')
      → (proofs : List Proof) → P (start sort mint include_fees amount proofs)
      → (s₁ : Picking) × (s₂ : Picking) × P s₁
        × (round sort mint include_fees amount s₁ ≡ stop s₂)
        × (select_proofs_to_send sort mint include_fees amount proofs ≡ (
            if ltb (proofs_amount proofs) amount
            then fault insufficient_mint_balance
            else checked sort mint include_fees amount s₂))
  unfolding select_proofs_to_send
  select_proofs_to_send-Ends P keeps proofs p =
      let (s₁, s₂, p₁, e, r) =
        pick-Ends sort mint include_fees amount rearranges P keeps (suc (length proofs)) _ p
          (start-left proofs) in
      (s₁, s₂, p₁, e, rw r refl)

  Holds-IsPartOf : {proofs : List Proof} (s : Picking) → Holds proofs s → IsPartOf s.selected proofs
  Holds-IsPartOf s h =
      (s.smaller ++ s.bigger, λ f. omega (arith, h.weights f, total-append f s.smaller s.bigger))

  checked_passed :
      (s : Picking) (chosen : List Proof)
      → checked sort mint include_fees amount s ≡ answer chosen
      → (chosen ≡ s.selected)
        × ((amount + fees_if include_fees mint s.selected) % u64_mod ≤ s.selected_sum)
  unfolding checked
  checked_passed s chosen e = ground arith

  fault_not_answer :
      {A : Type 0} {Goal : Type 0} {e : WalletError} {a : A} → fault e ≡ answer a → Goal
  fault_not_answer e = cc

  passed :
      (proofs chosen : List Proof) (s : Picking)
      → Holds proofs s
      → select_proofs_to_send sort mint include_fees amount proofs ≡ (
          if ltb (proofs_amount proofs) amount
          then fault insufficient_mint_balance
          else checked sort mint include_fees amount s)
      → select_proofs_to_send sort mint include_fees amount proofs ≡ answer chosen
      → IsPartOf chosen proofs
        × ((amount + fees_if include_fees mint chosen) % u64_mod ≤ proofs_amount chosen)
  passed proofs chosen s h r e = elim (Bool-cases (ltb (proofs_amount proofs) amount)) [
    | inl poor ↦ fault_not_answer (sym (rw poor at r) ∙ e)
    | inr rich ↦
        let (same, enough) = checked_passed s chosen (sym (rw rich at r) ∙ e) in
        rw same (Holds-IsPartOf s h, omega (arith, h.summed))
  ]

  -- When `selectProofsToSend` answers, for a sort that rearranges, its proofs are proofs of the list,
  -- once each, and their amount is not below the amount asked for with the fees of these proofs, in
  -- the arithmetic of `uint64`.
  pub select_proofs_to_send-IsPartOf :
      (proofs chosen : List Proof)
      → select_proofs_to_send sort mint include_fees amount proofs ≡ answer chosen
      → IsPartOf chosen proofs
        × ((amount + fees_if include_fees mint chosen) % u64_mod ≤ proofs_amount chosen)
  select_proofs_to_send-IsPartOf proofs chosen e =
      let (s₁, s₂, h, last, r) =
        select_proofs_to_send-Ends (Holds proofs) again-Holds proofs (start-Holds proofs) in
      passed proofs chosen s₂ (rw last at (round-Holds s₁ h)) r e

  not_endless :
      (s : Picking) (b : Bool)
      → (if b then fault insufficient_mint_balance else checked sort mint include_fees amount s)
        ≢ endless
  unfolding checked
  not_endless s b e = ground arith

  -- `selectProofsToSend` ends, for a sort that rearranges: a round for each proof and one more are
  -- enough for its loop.
  pub select_proofs_to_send-ne-endless :
      (proofs : List Proof) → select_proofs_to_send sort mint include_fees amount proofs ≢ endless
  select_proofs_to_send-ne-endless proofs e =
      let (s₁, s₂, h, last, r) =
        select_proofs_to_send-Ends (λ s. Unit {0}) (λ s s' u e. tt) proofs tt in
      not_endless s₂ _ (sym r ∙ e)
