-- ===== src/Wallet/Select/Loop.antt =====
-- wallet/wallet.go: how the loop of `selectProofsToSend` goes on, whatever it is about: it ends
-- within a round for each proof, and what its rounds keep holds at its end.
use gonuts.Prelude.{
  ℕ, zero, suc, ◌+◌, ◌<◌, ◌≡◌, refl, Bool, Option, none, some, List, [], ◌∷◌, arith, ◌==◌,
  Bool-cases, inl, inr, ◌⊎◌, ◌∙◌,
}
use gonuts.Cashu.{Proof}
use gonuts.Wallet.{WalletMint, answer}
use gonuts.Wallet.Weights.{total, total-append, one_of}
use gonuts.Wallet.Select.{
  Sort, Rearranges, Picking, Round, stop, again, up_to, above, move_above, take_next, after_take,
  round, pick, remaining_after,
}

-- All the proofs of a state of the loop, weighed.
abbrev pub weight : (Proof → ℕ) → Picking → ℕ
weight f s = total f s.selected + total f s.smaller + total f s.bigger

pub total-up_to-above :
    (f : Proof → ℕ) (amount : ℕ) (ps : List Proof)
    → total f (up_to amount ps) + total f (above amount ps) ≡ total f ps
unfolding up_to above
total-up_to-above f amount [] = omega arith
total-up_to-above f amount (p ∷ ps) = ground (arith, total-up_to-above f amount ps)

pub total-up_to-move_above :
    (f : Proof → ℕ) (amount : ℕ) (ps qs : List Proof)
    → total f (up_to amount ps) + total f (move_above amount ps qs) ≡ total f ps + total f qs
unfolding up_to move_above
total-up_to-move_above f amount [] qs = omega arith
total-up_to-move_above f amount (p ∷ ps) qs =
    ground
      (arith, total-up_to-move_above f amount ps qs, total-up_to-move_above f amount ps (p ∷ qs))

-- What `take_next` answers, weighed.
abbrev pub taken : (Proof → ℕ) → Option (Proof × List Proof × List Proof) → ℕ
taken f none = 0
taken f (some (p, smaller, bigger)) = f p + total f smaller + total f bigger

pub taken-take_next :
    (f : Proof → ℕ) (smaller bigger : List Proof)
    → taken f (take_next smaller bigger) ≡ total f smaller + total f bigger
unfolding take_next
taken-take_next f (q ∷ smaller) bigger = omega arith
taken-take_next f [] (q ∷ bigger) = omega arith
taken-take_next f [] [] = omega arith

abbrev pub state_of : Round → Picking
state_of (stop s) = s
state_of (again s) = s

Round-cases : (r : Round) → ((s : Picking) × (r ≡ stop s)) ⊎ ((s : Picking) × (r ≡ again s))
Round-cases (stop s) = inl (s, refl)
Round-cases (again s) = inr (s, refl)

-- The number of proofs that are not yet selected.
abbrev pub left_over : Picking → ℕ
left_over s = total one_of s.smaller + total one_of s.bigger

module _ {K : Type 0} (sort : Sort) (mint : WalletMint K) (include_fees : Bool) (amount : ℕ) where
  -- A round loses no proof and adds none.
  after_take-weight :
      (f : Proof → ℕ) (s : Picking) (next : Option (Proof × List Proof × List Proof))
      → taken f next ≡ total f s.smaller + total f s.bigger
      → weight f (state_of (after_take sort mint include_fees amount s next)) ≡ weight f s
  unfolding after_take
  after_take-weight f s none h = refl
  after_take-weight f s (some (p, smaller, bigger)) h = ground (
    arith,
    total-append f s.selected (p ∷ []),
    total-up_to-move_above f (remaining_after sort mint include_fees amount s p) smaller bigger,
  )

  -- A round that is not the last selects a proof.
  after_take-left :
      (s s' : Picking) (next : Option (Proof × List Proof × List Proof))
      → after_take sort mint include_fees amount s next ≡ again s'
      → left_over s' + 1 ≡ taken one_of next
  unfolding after_take
  after_take-left s s' none h = cc
  after_take-left s s' (some (p, smaller, bigger)) h = ground (
    arith,
    total-up_to-move_above one_of (remaining_after sort mint include_fees amount s p) smaller
        bigger,
  )

  module _ (rearranges : Rearranges sort) where
    pub taken-sorted :
        (f : Proof → ℕ) (less : Proof → Proof → Bool) (s : Picking)
        → taken f (take_next (sort less s.smaller) s.bigger) ≡ total f s.smaller + total f s.bigger
    taken-sorted f less s =
        omega (arith, taken-take_next f (sort less s.smaller) s.bigger, rearranges less s.smaller f)

    pub round-weight :
        (f : Proof → ℕ) (s : Picking)
        → weight f (state_of (round sort mint include_fees amount s)) ≡ weight f s
    unfolding round
    round-weight f s = elim (Bool-cases (s.remaining == 0)) [
      | inl none_needed ↦ rw none_needed refl
      | inr more ↦ rw more (after_take-weight f s _ (taken-sorted f _ s))
    ]

    round-left :
        (s s' : Picking)
        → round sort mint include_fees amount s ≡ again s'
        → left_over s' + 1 ≡ left_over s
    unfolding round
    round-left s s' e = elim (Bool-cases (s.remaining == 0)) [
      | inl none_needed ↦ cc (rw none_needed at e)
      | inr more ↦ after_take-left s s' _ (rw more at e) ∙ taken-sorted one_of _ s
    ]

    -- The loop ends when it has a round for each proof, and one. What holds at its start and is kept
    -- by each round holds before the last one.
    pub pick-Ends :
        (P : Picking → Type 0)
        → ((s s' : Picking) → P s → round sort mint include_fees amount s ≡ again s' → P s')
        → (fuel : ℕ) (s : Picking) → P s
        → left_over s < fuel
        → (s₁ : Picking) × (s₂ : Picking) × P s₁
          × (round sort mint include_fees amount s₁ ≡ stop s₂)
          × (pick sort mint include_fees amount fuel s ≡ answer s₂)
    unfolding pick
    pick-Ends P keeps zero s p h = elim h [ ]
    pick-Ends P keeps (suc fuel) s p h =
        elim (Round-cases (round sort mint include_fees amount s)) [
          | inl (s', e) ↦ (s, s', p, e, rw (e, pick) refl)
          | inr (s', e) ↦
              let (s₁, s₂, p₁, e₁, r₁) =
                pick-Ends P keeps fuel s' (keeps s s' p e) (omega (arith, round-left s s' e)) in
              (s₁, s₂, p₁, e₁, rw (e, pick) r₁)
        ]
