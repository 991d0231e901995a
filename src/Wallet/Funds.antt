-- ===== src/Wallet/Funds.antt =====
-- wallet/wallet.go: the proofs of a mint in the wallet, `selectProofsForAmount`, and the test of
-- `getProofsForAmount` by which they are sent as they are. `stored` is `db.GetProofsByKeysetId`.
pub mod Covered
use gonuts.Prelude.{
  ℕ, ◌+◌, ◌-◌, ◌%◌, String, Bool, true, false, List, [], ◌∷◌, ◌++◌, ltb, leb, ◌==◌, if◌then◌else◌,
  is_empty, u64_mod,
}
use gonuts.Cashu.{Proof, proofs_amount}
use gonuts.Wallet.{
  WalletKeyset, WalletMint, Answer, endless, crash, fault, answer, ◌>>=◌, fees_if, fees_for_proofs,
}
use gonuts.Wallet.Select.{Sort, select_proofs_to_send}

-- `selectedProofs, _ = selectProofsToSend(...)`: the error is dropped, and no proofs are left.
unfoldable pub drop_fault : Answer (List Proof) → Answer (List Proof)
drop_fault endless = endless
drop_fault crash = crash
drop_fault (fault e) = answer []
drop_fault (answer proofs) = answer proofs

module _ {K : Type 0} (stored : String → List Proof) where
  inactive_proofs : List (String × WalletKeyset K) → List Proof
  inactive_proofs [] = []
  inactive_proofs ((key, keyset) ∷ rest) = stored keyset.id ++ inactive_proofs rest

  -- getInactiveProofsByMint
  unfoldable pub get_inactive_proofs_by_mint : WalletMint K → List Proof
  unfolding inactive_proofs
  get_inactive_proofs_by_mint mint = inactive_proofs mint.inactive_keysets

  -- getActiveProofsByMint
  unfoldable pub get_active_proofs_by_mint : WalletMint K → List Proof
  get_active_proofs_by_mint mint = stored mint.active_keyset.id

  -- getProofsFromMint
  unfoldable pub get_proofs_from_mint : WalletMint K → List Proof
  unfolding get_inactive_proofs_by_mint get_active_proofs_by_mint
  get_proofs_from_mint mint = get_inactive_proofs_by_mint mint ++ get_active_proofs_by_mint mint

  module _ (sort : Sort) (mint : WalletMint K) (include_fees : Bool) (amount : ℕ) where
    -- the selection among the proofs of inactive keysets
    unfoldable pub from_inactive : List Proof → Answer (List Proof)
    unfolding drop_fault
    from_inactive [] = answer []
    from_inactive (p ∷ ps) =
        if ltb (proofs_amount (p ∷ ps)) amount
        then answer (p ∷ ps)
        else drop_fault (select_proofs_to_send sort mint include_fees amount (p ∷ ps))

    -- `totalAmountNeeded`; without proofs from inactive keysets the fees are 0.
    unfoldable pub amount_needed_for : List Proof → List Proof → ℕ
    amount_needed_for inactive selected =
        if is_empty inactive
        then amount
        else (amount + fees_if include_fees mint selected) % u64_mod

    -- what is selected on top of it from the active keyset
    unfoldable pub top_up : List Proof → ℕ → Answer (List Proof)
    unfolding get_active_proofs_by_mint
    top_up selected needed = if leb needed (proofs_amount selected) then answer selected else do
      more ←
          select_proofs_to_send sort mint include_fees (needed - proofs_amount selected)
            (get_active_proofs_by_mint mint)
      answer (selected ++ more)

    -- selectProofsForAmount
    unfoldable pub select_proofs_for_amount : Answer (List Proof)
    unfolding from_inactive amount_needed_for top_up get_inactive_proofs_by_mint
    select_proofs_for_amount = do
      selected ← from_inactive (get_inactive_proofs_by_mint mint)
      top_up selected (amount_needed_for (get_inactive_proofs_by_mint mint) selected)

    -- the test of getProofsForAmount: whether the proofs are worth the amount and their fees
    unfoldable pub sent_offline : List Proof → Bool
    sent_offline selected =
        proofs_amount selected == (amount + fees_if include_fees mint selected) % u64_mod
