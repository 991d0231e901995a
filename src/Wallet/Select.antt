-- ===== src/Wallet/Select.antt =====
-- wallet/wallet.go: `selectProofsToSend`. `sort.Slice` is a parameter: it takes the order and the
-- list, and need not be stable.
pub mod Loop
pub mod Chosen
pub mod Enough
use gonuts.Prelude.{
  ℕ, zero, suc, ◌+◌, ◌-◌, ◌%◌, ◌≡◌, Bool, true, false, Option, none, some, List, [], ◌∷◌, ◌++◌, ltb,
  leb, ◌==◌, if◌then◌else◌, u64_mod, length,
}
use gonuts.Cashu.{Proof, proofs_amount}
use gonuts.Wallet.{
  WalletMint, Answer, endless, fault, answer, insufficient_mint_balance, insufficient_funds,
  fees_if, ◌>>=◌,
}
use gonuts.Wallet.Weights.{total}

-- sort.Slice
abbrev pub Sort : Type 0
Sort = (Proof → Proof → Bool) → List Proof → List Proof

-- A sort rearranges the list: whatever is added up over it stays the same.
abbrev pub Rearranges : Sort → Type 0
Rearranges sort =
    (less : Proof → Proof → Bool) (proofs : List Proof) (f : Proof → ℕ)
    → total f (sort less proofs) ≡ total f proofs

-- the variables of the loop
pub record Picking : Type 0 where
  pub remaining : ℕ
  pub selected_sum : ℕ
  pub selected : List Proof
  pub smaller : List Proof
  pub bigger : List Proof

-- A round ends the loop or goes on.
pub data Round : Type 0 where
  stop again : Picking → Round

ascending : Proof → Proof → Bool
ascending p q = ltb p.amount q.amount

descending : Proof → Proof → Bool
descending p q = ltb q.amount p.amount

-- the proofs up to an amount, in their order
unfoldable pub up_to : ℕ → List Proof → List Proof
up_to amount [] = []
up_to amount (p ∷ ps) = let rest = up_to amount ps in if leb p.amount amount then p ∷ rest else rest

-- those above it, appended
unfoldable pub above : ℕ → List Proof → List Proof
above amount [] = []
above amount (p ∷ ps) = let rest = above amount ps in if leb p.amount amount then rest else p ∷ rest

-- those above it, each inserted in front
unfoldable pub move_above : ℕ → List Proof → List Proof → List Proof
move_above amount [] bigger = bigger
move_above amount (p ∷ ps) bigger =
    move_above amount ps (if leb p.amount amount then bigger else p ∷ bigger)

-- the next proof, and what it leaves of the two lists
unfoldable pub take_next : List Proof → List Proof → Option (Proof × List Proof × List Proof)
take_next (p ∷ smaller) bigger = some (p, smaller, bigger)
take_next [] (p ∷ bigger) = some (p, [], bigger)
take_next [] [] = none

module _ {K : Type 0} (sort : Sort) (mint : WalletMint K) (include_fees : Bool) (amount : ℕ) where
  -- `amount + fees - selectedProofsSum`, when the proof is selected too
  abbrev pub remaining_after : Picking → Proof → ℕ
  remaining_after s p =
      let fees = fees_if include_fees mint (s.selected ++ p ∷ []) in
      (amount + fees + (u64_mod - (s.selected_sum + p.amount) % u64_mod)) % u64_mod

  -- the part of a round below the choice of the proof
  unfoldable pub after_take : Picking → Option (Proof × List Proof × List Proof) → Round
  unfolding up_to move_above
  after_take s none = stop s
  after_take s (some (p, smaller, bigger)) =
      let selected = s.selected ++ p ∷ [] in
      let selected_sum = (s.selected_sum + p.amount) % u64_mod in
      let fees = fees_if include_fees mint selected in
      let remaining = remaining_after s p in
      if leb ((s.remaining + fees) % u64_mod) p.amount
      then stop (record s {
        selected_sum = selected_sum;
        selected = selected;
        smaller = smaller;
        bigger = bigger;
      })
      else again (record {
        remaining = remaining;
        selected_sum = selected_sum;
        selected = selected;
        smaller = up_to remaining smaller;
        bigger = move_above remaining smaller bigger;
      })

  -- one round of `for remainingAmount > 0`
  unfoldable pub round : Picking → Round
  unfolding after_take take_next descending
  round s =
      if s.remaining == 0
      then stop s
      else after_take s (take_next (sort descending s.smaller) s.bigger)

  unfoldable pub pick : ℕ → Picking → Answer Picking
  unfolding round
  pick zero s = endless
  pick (suc fuel) s = elim (round s) [ stop s' ↦ answer s' | again s' ↦ pick fuel s' ]

  -- the sorted proofs, split at the amount
  unfoldable pub start : List Proof → Picking
  unfolding ascending up_to above
  start proofs =
      let sorted = sort ascending proofs in
      record {
        remaining = amount;
        selected_sum = 0;
        selected = [];
        smaller = up_to amount sorted;
        bigger = above amount sorted;
      }

  -- the test below the loop
  unfoldable pub checked : Picking → Answer (List Proof)
  checked s =
      let fees = fees_if include_fees mint s.selected in
      if ltb s.selected_sum ((amount + fees) % u64_mod)
      then fault (insufficient_funds amount fees)
      else answer s.selected

  -- selectProofsToSend, with a round for each proof, and one
  unfoldable pub select_proofs_to_send : List Proof → Answer (List Proof)
  unfolding pick start checked
  select_proofs_to_send proofs =
      if ltb (proofs_amount proofs) amount
      then fault insufficient_mint_balance
      else pick (suc (length proofs)) (start proofs) >>= checked
