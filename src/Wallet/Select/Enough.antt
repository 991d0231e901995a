-- ===== src/Wallet/Select/Enough.antt =====
-- wallet/wallet.go: when `selectProofsToSend` answers. What remains is reckoned in `uint64` and
-- wraps when the selected proofs cover more than the amount with its fees, so the loop may select
-- more than it needs, but it does not stop short.
use gonuts.Prelude.{
  ℕ, ◌+◌, ◌-◌, ◌%◌, ◌≤◌, ◌<◌, ◌≡◌, refl, sym, ◌∙◌, Bool, Option, none, some, List, [], ◌∷◌, ◌++◌,
  arith, leb, ◌==◌, ==_iff, ge→ltb, leb→le, u64_mod, Bool-cases, inl, inr,
}
use gonuts.Cashu.{Proof, proofs_amount}
use gonuts.Wallet.{WalletMint, answer, fees_if, input_fee}
use gonuts.Wallet.Weights.{
  total, amount_of, total-append, proofs_amount_lem, fees_if-le, fees_if-nil,
}
use gonuts.Wallet.Select.{
  Sort, Rearranges, Picking, stop, again, after_take, round, start, checked, select_proofs_to_send,
}
use gonuts.Wallet.Select.Loop.{taken, taken-sorted}
use gonuts.Wallet.Select.Chosen.{
  Holds, round-Holds, again-Holds, start-Holds, select_proofs_to_send-Ends,
}

stop_injective : (s s' : Picking) → stop s ≡ stop s' → s ≡ s'
stop_injective s s' e = cc

again-ne-stop : {s s' : Picking} {Goal : Type 0} → again s ≡ stop s' → Goal
again-ne-stop e = cc

module _ {K : Type 0} (sort : Sort) (mint : WalletMint K) (include_fees : Bool) (amount : ℕ)
    (rearranges : Rearranges sort) where
  -- What remains is the amount and the fees less what is selected, modulo 2 ^ 64.
  IsOwed : Picking → Type 0
  IsOwed s =
      s.remaining
      ≡ (amount + fees_if include_fees mint s.selected + (u64_mod - s.selected_sum)) % u64_mod

  after_take-IsOwed :
      (s s' : Picking) (next : Option (Proof × List Proof × List Proof))
      → after_take sort mint include_fees amount s next ≡ again s'
      → IsOwed s'
  unfolding after_take IsOwed
  after_take-IsOwed s s' none e = cc
  after_take-IsOwed s s' (some (p, smaller, bigger)) e = ground arith

  module _ (proofs : List Proof)
      (fits : total amount_of proofs + fees_if include_fees mint proofs < u64_mod)
      (fees_fit : total (input_fee mint) proofs + 999 < u64_mod)
      (affordable : amount + fees_if include_fees mint proofs ≤ total amount_of proofs) where
    fees_bound :
        (s : Picking)
        → Holds proofs s
        → fees_if include_fees mint s.selected ≤ fees_if include_fees mint proofs
    fees_bound s h =
        fees_if-le mint include_fees s.selected proofs fees_fit
          (omega (arith, h.weights (input_fee mint)))

    sum_lem : (s : Picking) → Holds proofs s → s.selected_sum ≡ total amount_of s.selected
    sum_lem s h = h.summed ∙ proofs_amount_lem s.selected (omega (arith, h.weights amount_of))

    -- The last proof taken covers what remained, whether or not the subtraction had wrapped.
    covered :
        (a S F F' T p R : ℕ)
        → T + F' < u64_mod
        → a + F' ≤ T
        → F ≤ F'
        → S + p ≤ T
        → R ≡ (a + F + (u64_mod - S)) % u64_mod
        → (F'' : ℕ) → F'' ≤ F'
        → (R + F'') % u64_mod ≤ p
        → a + F'' ≤ S + p
    covered a S F F' T p R h1 h2 h3 h4 h5 F'' h6 h7 = omega arith

    -- The last round leaves enough.
    IsEnough : Picking → Type 0
    IsEnough s = amount + fees_if include_fees mint s.selected ≤ s.selected_sum

    stop_IsEnough : (s s' : Picking) → stop s ≡ stop s' → IsEnough s → IsEnough s'
    stop_IsEnough s s' e h = rw (stop_injective s s' e) at h

    none_left :
        (s : Picking)
        → Holds proofs s
        → total amount_of s.smaller + total amount_of s.bigger ≡ 0
        → IsEnough s
    unfolding IsEnough
    none_left s h e = omega (arith, h.weights amount_of, sum_lem s h, fees_bound s h)

    none_owed : (s : Picking) → Holds proofs s → IsOwed s → s.remaining ≡ 0 → IsEnough s
    unfolding IsEnough IsOwed
    none_owed s h owed e = omega (arith, h.weights amount_of, sum_lem s h, fees_bound s h)

    fees_with :
        (s : Picking) (p : Proof) (smaller bigger : List Proof)
        → Holds proofs s
        → ((f : Proof → ℕ)
            → taken f (some (p, smaller, bigger)) ≡ total f s.smaller + total f s.bigger)
        → fees_if include_fees mint (s.selected ++ p ∷ []) ≤ fees_if include_fees mint proofs
    fees_with s p smaller bigger h next =
        fees_if-le mint include_fees (s.selected ++ p ∷ []) proofs fees_fit (
          omega (
            arith,
            h.weights (input_fee mint),
            next (input_fee mint),
            total-append (input_fee mint) s.selected (p ∷ []),
          ))

    sum_with :
        (s : Picking) (p : Proof) (smaller bigger : List Proof)
        → Holds proofs s
        → ((f : Proof → ℕ)
            → taken f (some (p, smaller, bigger)) ≡ total f s.smaller + total f s.bigger)
        → s.selected_sum + p.amount ≤ total amount_of proofs
    sum_with s p smaller bigger h next =
        omega (arith, h.weights amount_of, next amount_of, sum_lem s h)

    after_take-IsEnough :
        (s s' : Picking) (next : Option (Proof × List Proof × List Proof))
        → Holds proofs s
        → IsOwed s
        → ((f : Proof → ℕ) → taken f next ≡ total f s.smaller + total f s.bigger)
        → after_take sort mint include_fees amount s next ≡ stop s'
        → IsEnough s'
    unfolding after_take IsEnough IsOwed
    after_take-IsEnough s s' none h owed next e =
        stop_IsEnough s s' e (none_left s h (omega (arith, next amount_of)))
    after_take-IsEnough s s' (some (p, smaller, bigger)) h owed next e =
        let fees = fees_if include_fees mint (s.selected ++ p ∷ []) in
        let bound = fees_with s p smaller bigger h next in
        let total_bound = sum_with s p smaller bigger h next in
        elim (Bool-cases (leb ((s.remaining + fees) % u64_mod) p.amount)) [
          | inl last ↦ stop_IsEnough _ s' (rw last at e) (
              omega (
                arith,
                total_bound,
                covered amount s.selected_sum (fees_if include_fees mint s.selected)
                    (fees_if include_fees mint proofs) (total amount_of proofs) p.amount s.remaining
                    (omega arith) affordable (fees_bound s h) total_bound owed fees bound
                    (leb→le _ _ last),
              ))
          | inr more ↦ again-ne-stop (rw more at e)
        ]

    round-IsEnough :
        (s s' : Picking)
        → Holds proofs s
        → IsOwed s
        → round sort mint include_fees amount s ≡ stop s'
        → IsEnough s'
    unfolding round
    round-IsEnough s s' h owed e = elim (Bool-cases (s.remaining == 0)) [
      | inl none_needed ↦
          stop_IsEnough s s' (rw none_needed at e)
            (none_owed s h owed ((==_iff s.remaining 0).0 none_needed))
      | inr more ↦
          after_take-IsEnough s s' _ h owed
            (λ f. taken-sorted sort mint include_fees amount rearranges f _ s) (rw more at e)
    ]

    round-IsOwed : (s s' : Picking) → round sort mint include_fees amount s ≡ again s' → IsOwed s'
    unfolding round
    round-IsOwed s s' e = elim (Bool-cases (s.remaining == 0)) [
      | inl none_needed ↦ again-ne-stop (sym (rw none_needed at e))
      | inr more ↦ after_take-IsOwed s s' _ (rw more at e)
    ]

    start-IsOwed : IsOwed (start sort mint include_fees amount proofs)
    unfolding start IsOwed
    start-IsOwed = omega (arith, fees_if-nil mint include_fees)

    checked-answer :
        (s : Picking)
        → Holds proofs s
        → IsEnough s
        → checked sort mint include_fees amount s ≡ answer s.selected
    unfolding checked IsEnough
    checked-answer s h enough =
        rw
          (ge→ltb s.selected_sum ((amount + fees_if include_fees mint s.selected) % u64_mod)
            (omega (arith, fees_bound s h)))
          refl

    -- When nothing overflows a `uint64` and the proofs are worth the amount with the fees for all of
    -- them, `selectProofsToSend` answers, for a sort that rearranges.
    pub select_proofs_to_send-answers :
        (chosen : List Proof) × (select_proofs_to_send sort mint include_fees amount proofs
          ≡ answer chosen)
    select_proofs_to_send-answers =
        let (s₁, s₂, (h, owed), last, r) =
          select_proofs_to_send-Ends sort mint include_fees amount rearranges
            (λ s. Holds proofs s × IsOwed s)
            (λ s s' p e. (
              again-Holds sort mint include_fees amount rearranges s s' p.0 e,
              round-IsOwed s s' e,
            ))
            proofs (start-Holds sort mint include_fees amount rearranges proofs, start-IsOwed) in
        let held = rw last at (round-Holds sort mint include_fees amount rearranges s₁ h) in
        (
          s₂.selected,
          r
              ∙ rw
                  (ge→ltb (proofs_amount proofs) amount
                    (omega (arith, proofs_amount_lem proofs (omega arith))))
                  (checked-answer s₂ held (round-IsEnough s₁ s₂ h owed last)),
        )
