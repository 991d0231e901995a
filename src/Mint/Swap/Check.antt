-- ===== src/Mint/Swap/Check.antt =====
-- mint/mint.go: the part of `Swap` before its first write.
use gonuts.Prelude.{ℕ, not, List, ltb, if◌then◌else◌, is_empty}
use gonuts.Errors.{
  Result, ok, ◌>>=◌, ◌>>◌, return_if, duplicate_outputs, invalid_proof_amount,
  insufficient_proofs_amount, blinded_message_already_signed,
}
use gonuts.Library.{Library}
use gonuts.Cashu.{Proof, BlindedMessage, BlindedSignature, proofs_amount, message_amounts}
use gonuts.Cashu.Amounts.{amount_checked, underflow_sub_uint64}
use gonuts.Cashu.Duplicates.{check_duplicate_blinded_messages}
use gonuts.Nuts.Conditions.{proofs_sig_all}
use gonuts.Storage.BlindSignatures.{get_blind_signatures}
use gonuts.Mint.{Mint, World}
use gonuts.Mint.Proofs.{ys_of_proofs, transaction_fees, verify_proofs}
use gonuts.Mint.Outputs.{b_s_of, sign_blinded_messages, verify_blinded_messages}

module _ (lib : Library) where
  -- proofsMinusFees against the amount of the outputs
  unfoldable pub enough_for_outputs : ℕ → ℕ → ℕ → Result (Unit {0})
  enough_for_outputs proofs_total fees outputs_total = do
    let (left, underflow) = underflow_sub_uint64 proofs_total fees
    return_if underflow invalid_proof_amount
    return_if (ltb left outputs_total) insufficient_proofs_amount

  pub sig_all_outputs : List Proof → List BlindedMessage → Result (Unit {0})
  sig_all_outputs proofs messages =
      if proofs_sig_all lib proofs then verify_blinded_messages lib proofs messages else ok tt

  -- Swap up to the signatures; nothing is written. The query of the signatures is call 2.
  unfoldable pub check_swap :
      World lib → List Proof → List BlindedMessage → Mint lib → Result (List BlindedSignature)
  unfolding enough_for_outputs sig_all_outputs
  check_swap w proofs messages m = do
    ys ← ys_of_proofs lib proofs
    outputs_total ← amount_checked 0 (message_amounts messages)
    return_if (check_duplicate_blinded_messages messages) duplicate_outputs
    enough_for_outputs (proofs_amount proofs) (transaction_fees m proofs) outputs_total
    verify_proofs lib w m proofs ys
    signed ← get_blind_signatures (w.io 2) (b_s_of messages) m.db
    return_if (not (is_empty signed)) blinded_message_already_signed
    sig_all_outputs proofs messages
    sign_blinded_messages lib w m messages
