-- ===== src/Mint/Swap/Passed.antt =====
-- What the checks of `Swap` establish.
use gonuts.Prelude.{ℕ, ◌+◌, ◌≤◌, ◌≡◌, String, not, List, arith, is_empty}
use gonuts.Prelude.Keys.{IsDisjoint}
use gonuts.Errors.{ok, >>=-eq-ok, return_if, duplicate_outputs, blinded_message_already_signed}
use gonuts.Library.{Library}
use gonuts.Cashu.{Proof, BlindedMessage, BlindedSignature, proofs_amount, message_amounts}
use gonuts.Cashu.Amounts.{amount_checked, underflow_sub_uint64}
use gonuts.Cashu.Duplicates.{check_duplicate_blinded_messages}
use gonuts.Storage.BlindSignatures.{b_s_of as row_b_s_of, get_blind_signatures}
use gonuts.Storage.BlindSignatures.Laws.{no_signature}
use gonuts.Mint.{Mint, World}
use gonuts.Mint.Proofs.{ys_of_proofs, transaction_fees, verify_proofs, verify_each}
use gonuts.Mint.Proofs.Checked.{Unspent, verify_proofs-Unspent}
use gonuts.Mint.Outputs.{b_s_of, sign_blinded_messages}
use gonuts.Mint.Outputs.Signed.{Stored, sign_blinded_messages-Stored}
use gonuts.Mint.Swap.Check.{check_swap, enough_for_outputs, sig_all_outputs}

enough_for_outputs-le :
    (lib : Library) (total fees outputs : ℕ)
    → enough_for_outputs lib total fees outputs ≡ ok tt
    → outputs + fees ≤ total
unfolding enough_for_outputs underflow_sub_uint64
enough_for_outputs-le lib total fees outputs h = ground arith

module _ (lib : Library) (w : World lib) (proofs : List Proof) (messages : List BlindedMessage)
    (m : Mint lib) where
  -- What the checks of a swap have established when they pass.
  pub record Passed (sigs : List BlindedSignature) : Type 0 where
    pub ys : List String
    pub total : ℕ
    pub have_points : ys_of_proofs lib proofs ≡ ok ys
    pub summed : amount_checked 0 (message_amounts messages) ≡ ok total
    pub covered : total + transaction_fees m proofs ≤ proofs_amount proofs
    pub unspent : Unspent lib m.db ys
    pub verified : verify_each lib w m proofs ≡ ok tt
    pub unsigned : IsDisjoint (b_s_of messages) (row_b_s_of m.db.blind_signatures)
    pub signed : sign_blinded_messages lib w m messages ≡ ok sigs
    pub stored : Stored lib messages sigs

  pub check_swap-Passed :
      (sigs : List BlindedSignature) → check_swap lib w proofs messages m ≡ ok sigs → Passed sigs
  unfolding check_swap
  check_swap-Passed sigs h =
      let (ys, e1, h1) = >>=-eq-ok (ys_of_proofs lib proofs) _ h in
      let (total, e2, h2) = >>=-eq-ok (amount_checked 0 (message_amounts messages)) _ h1 in
      let (_, e3, h3) =
        >>=-eq-ok (return_if (check_duplicate_blinded_messages messages) duplicate_outputs) _ h2 in
      let (_, e4, h4) =
        >>=-eq-ok (enough_for_outputs lib (proofs_amount proofs) (transaction_fees m proofs) total)
          _ h3 in
      let (_, e5, h5) = >>=-eq-ok (verify_proofs lib w m proofs ys) _ h4 in
      let (signed, e6, h6) =
        >>=-eq-ok (get_blind_signatures (w.io 2) (b_s_of messages) m.db) _ h5 in
      let (_, e7, h7) =
        >>=-eq-ok (return_if (not (is_empty signed)) blinded_message_already_signed) _ h6 in
      let (_, e8, h8) = >>=-eq-ok (sig_all_outputs lib proofs messages) _ h7 in
      let (unspent, verified) = verify_proofs-Unspent lib w m proofs ys e5 in
      record {
        ys = ys;
        total = total;
        have_points = e1;
        summed = e2;
        covered = enough_for_outputs-le lib _ _ total e4;
        unspent = unspent;
        verified = verified;
        unsigned = no_signature (w.io 2) (b_s_of messages) signed _ m.db e6 e7;
        signed = h8;
        stored = sign_blinded_messages-Stored lib w m messages sigs h8;
      }
