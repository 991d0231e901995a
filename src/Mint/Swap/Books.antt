-- ===== src/Mint/Swap/Books.antt =====
-- What a `Swap` that answers has done to the books and to the tables.
use gonuts.Prelude.{
  ◌+◌, ◌≤◌, ◌≡◌, ap, ◌∙◌, String, true, false, List, ◌++◌, arith, sum, All, contains,
  contains-append, IsDistinct,
}
use mathlib.Core.Path.{subst}
use mathlib.Core.List.{map-append}
use gonuts.Prelude.Keys.{IsDisjoint, IsDisjoint-contains}
use gonuts.Errors.{ok}
use gonuts.Library.{Library}
use gonuts.Cashu.{Proof, BlindedMessage, BlindedSignature, proof_amounts, message_amounts}
use gonuts.Cashu.Amounts.{IsUint64}
use gonuts.Cashu.Totals.{proofs_amount-le, amount_checked_ok}
use gonuts.Storage.{SignatureRow}
use gonuts.Storage.Proofs.{ys_of}
use gonuts.Storage.BlindSignatures.{b_s_of as row_b_s_of}
use gonuts.Mint.{Mint, World}
use gonuts.Mint.Ledger.{issued, redeemed, issued-append, redeemed-append}
use gonuts.Mint.Proofs.{ys_of_proofs, transaction_fees, verify_each}
use gonuts.Mint.Proofs.Checked.{Unspent}
use gonuts.Mint.Outputs.{b_s_of}
use gonuts.Mint.Outputs.Made.{AreSigned, MadeFrom-AreSigned, sign_blinded_messages-MadeFrom}
use gonuts.Mint.Swap.{swap}
use gonuts.Mint.Swap.Outcomes.{Completed, swap-Completed}

module _ (lib : Library) (w : World lib) (proofs : List Proof) (messages : List BlindedMessage)
    (m : Mint lib) where
  books :
      (sigs : List BlindedSignature) (m' : Mint lib)
      → Completed lib w proofs messages m sigs m'
      → (issued m'.db ≡ issued m.db + sum (message_amounts messages))
        × (redeemed m'.db ≡ redeemed m.db + sum (proof_amounts proofs))
  unfolding issued redeemed
  books sigs m' c = rw c.after (
    issued-append m.db c.srows ∙ ap (λ xs. issued m.db + sum xs) c.signed_amounts,
    redeemed-append m.db c.rows ∙ ap (λ xs. redeemed m.db + sum xs) c.spent_amounts,
  )

  -- Where the amounts of the outputs are 64-bit numbers, a swap that answers signatures adds to the
  -- ecash issued at most what it adds to the ecash redeemed less the fee of its inputs, for the true
  -- sums and not only for those that wrap around.
  pub swap-conserves :
      (sigs : List BlindedSignature) (m' : Mint lib)
      → All IsUint64 (message_amounts messages)
      → swap lib w proofs messages m ≡ (ok sigs, m')
      → (issued m'.db + transaction_fees m proofs) + redeemed m.db ≤ issued m.db + redeemed m'.db
  swap-conserves sigs m' small h =
      let c = swap-Completed lib w proofs messages m sigs m' h in
      let (signed, spent) = books sigs m' c in
      omega (
        arith,
        signed,
        spent,
        c.passed.covered,
        proofs_amount-le proofs,
        amount_checked_ok (message_amounts messages) c.passed.total small c.passed.summed,
      )

  -- A swap that answers has verified every input, found no Y of the inputs in the table of spent
  -- proofs or in that of pending ones, and appended exactly the Ys of the inputs, which are distinct,
  -- to the table of spent proofs.
  pub swap-spends :
      (sigs : List BlindedSignature) (m' : Mint lib)
      → swap lib w proofs messages m ≡ (ok sigs, m')
      → (ys : List String) × (ys_of_proofs lib proofs ≡ ok ys)
        × (verify_each lib w m proofs ≡ ok tt)
        × Unspent lib m.db ys
        × IsDistinct ys
        × (ys_of m'.db.proofs ≡ ys_of m.db.proofs ++ ys)
  swap-spends sigs m' h =
      let c = swap-Completed lib w proofs messages m sigs m' h in
      (
        c.passed.ys,
        c.passed.have_points,
        c.passed.verified,
        c.passed.unspent,
        subst IsDistinct c.spent_keys c.distinct,
        rw (c.after, map-append) (ap (λ ys. ys_of m.db.proofs ++ ys) c.spent_keys),
      )

  -- A swap that answers had no output signed before and answers one signature for each output, of
  -- its amount: its point times the mint's key for the amount. The table of signatures has one new
  -- row for each, in the same order, under the `B_` of the output and with the signature in it.
  pub swap-signs :
      (sigs : List BlindedSignature) (m' : Mint lib)
      → swap lib w proofs messages m ≡ (ok sigs, m')
      → (rows : List SignatureRow) × (m'.db.blind_signatures ≡ m.db.blind_signatures ++ rows)
        × IsDisjoint (b_s_of messages) (row_b_s_of m.db.blind_signatures)
        × AreSigned lib m messages sigs rows
  swap-signs sigs m' h =
      let c = swap-Completed lib w proofs messages m sigs m' h in
      (
        c.srows,
        ap (λ (n : Mint lib). n.db.blind_signatures) c.after,
        c.passed.unsigned,
        MadeFrom-AreSigned lib w m 0 messages sigs c.srows
            (sign_blinded_messages-MadeFrom lib w m messages sigs c.passed.signed) c.stored,
      )

contains-append-left :
    (x : String) (xs ys zs : List String)
    → zs ≡ xs ++ ys
    → contains x ys ≡ true
    → contains x zs ≡ true
contains-append-left x xs ys zs e h = ground (arith, contains-append x xs ys, e)

-- After a swap that answers, no swap with an input of the same Y as one of its inputs answers,
-- whatever its other inputs, its outputs and the answers of the world are.
pub swap-no_double_spend :
    (lib : Library) (w w' : World lib) (proofs proofs' : List Proof)
    (messages messages' : List BlindedMessage) (m m' m'' : Mint lib)
    (sigs sigs' : List BlindedSignature) (y : String) (ys ys' : List String)
    → ys_of_proofs lib proofs ≡ ok ys
    → ys_of_proofs lib proofs' ≡ ok ys'
    → contains y ys ≡ true
    → contains y ys' ≡ true
    → swap lib w proofs messages m ≡ (ok sigs, m')
    → ¬ (swap lib w' proofs' messages' m' ≡ (ok sigs', m''))
swap-no_double_spend lib w w' proofs proofs' messages messages' m m' m'' sigs sigs' y ys ys' e e' c
      c' first second =
    let (spent, have, _, _, _, table) = swap-spends lib w proofs messages m sigs m' first in
    let (again, have', _, (_, apart), _, _) =
      swap-spends lib w' proofs' messages' m' sigs' m'' second in
    let same : spent ≡ ys = cc in
    let same' : again ≡ ys' = cc in
    let old : contains y (ys_of m'.db.proofs) ≡ true =
      contains-append-left y (ys_of m.db.proofs) spent (ys_of m'.db.proofs) table (rw same c) in
    let new : contains y (ys_of m'.db.proofs) ≡ false =
      IsDisjoint-contains y again (ys_of m'.db.proofs) apart (rw same' c') in
    cc
