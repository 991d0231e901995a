-- ===== src/Mint/Swap/Refused.antt =====
-- What a `Swap` that fails leaves.
use gonuts.Prelude.{◌≡◌, refl, sym, inl, inr, String, true, List, ◌++◌, IsDistinct}
use mathlib.Core.Path.{subst}
use gonuts.Prelude.Keys.{IsDisjoint}
use gonuts.Errors.{Error, Result, ok, err, panic, db_error}
use gonuts.Library.{Library}
use gonuts.Cashu.{Proof, BlindedMessage, BlindedSignature}
use gonuts.Crypto.HashToCurve.{y_of}
use gonuts.Storage.{Db, DbProof}
use gonuts.Storage.Proofs.{ys_of, save_proofs}
use gonuts.Storage.Proofs.Laws.{save_proofs-Saved}
use gonuts.Storage.BlindSignatures.{b_s_of as row_b_s_of}
use gonuts.Storage.BlindSignatures.Laws.{save_blind_signatures_ok, save_blind_signatures_duplicate}
use gonuts.Mint
use gonuts.Mint.{Mint, World, Event, ProofState, proof_state, publish, continue-eq-ok}
use gonuts.Mint.Proofs.{ys_of_proofs}
use gonuts.Mint.Proofs.Checked.{ys_of_proofs-RowsFor}
use gonuts.Mint.Outputs.{b_s_of}
use gonuts.Mint.Swap.{commit_swap, swap}
use gonuts.Mint.Swap.Check.{check_swap}
use gonuts.Mint.Swap.Passed.{Passed, check_swap-Passed}
use gonuts.Mint.Swap.Outcomes.{no_write, first_write, both_writes, with_proofs}

module _ (lib : Library) (w : World lib) (proofs : List Proof) (messages : List BlindedMessage)
    (m : Mint lib) where
  -- With distinct outputs and a database that takes the signatures, the writes are all or nothing.
  commit_swap-atomic :
      (e : Error) (sigs : List BlindedSignature) (m' : Mint lib)
      → IsDistinct (b_s_of messages)
      → w.io 4 ≡ true
      → Passed lib w proofs messages m sigs
      → commit_swap lib w proofs messages sigs m ≡ (err e, m')
      → m' ≡ m
  commit_swap-atomic e sigs m' distinct works passed h =
      let (rows, stored, keys, amounts) =
        ys_of_proofs-RowsFor lib "" proofs passed.ys passed.have_points in
      let (srows, sstored, skeys, samounts, _) = passed.stored in
      elim (save_proofs-Saved (y_of lib) rows m.db (w.io 3) proofs stored) [
        | inr failed ↦
            let bad =
              no_write lib w proofs messages m rows srows sigs passed.ys passed.have_points
                failed in
            cc
        | inl (saved, _, _) ↦
            let signed =
              save_blind_signatures_ok srows (with_proofs lib w proofs messages m rows).db
                (b_s_of messages) sigs sstored (subst IsDistinct (sym skeys) distinct)
                (subst (λ b_s. IsDisjoint b_s (row_b_s_of m.db.blind_signatures)) (sym skeys)
                  passed.unsigned) in
            let (events, done) =
              both_writes lib w proofs messages m rows srows sigs passed.ys passed.have_points saved
                (rw works signed) in
            cc
      ]

  swap_from_check :
      (r : Result (List BlindedSignature)) (e : Error) (m' : Mint lib)
      → IsDistinct (b_s_of messages)
      → w.io 4 ≡ true
      → check_swap lib w proofs messages m ≡ r
      → Mint.continue r m (commit_swap lib w proofs messages) ≡ (err e, m')
      → m' ≡ m
  swap_from_check (ok sigs) e m' distinct works checked h =
      commit_swap-atomic e sigs m' distinct works
        (check_swap-Passed lib w proofs messages m sigs checked) h
  swap_from_check (err e') e m' distinct works checked h = cc
  swap_from_check panic e m' distinct works checked h = cc

  -- Where the outputs have distinct `B_`s and the database does not fail in SaveBlindSignatures, a
  -- swap that answers an error leaves the mint as it was.
  pub swap-error-unchanged :
      (e : Error) (m' : Mint lib)
      → IsDistinct (b_s_of messages)
      → w.io 4 ≡ true
      → swap lib w proofs messages m ≡ (err e, m')
      → m' ≡ m
  unfolding swap
  swap-error-unchanged e m' distinct works h =
      swap_from_check (check_swap lib w proofs messages m) e m' distinct works refl h

  -- Where the checks of a swap pass on outputs of which two have the same `B_`, and the inputs are
  -- stored, the swap answers an error and the inputs are spent: the Ys of the inputs are in the table
  -- of spent proofs, and no signature is stored.
  pub swap-same_outputs-burns_inputs :
      (sigs : List BlindedSignature) (db' : Db)
      → check_swap lib w proofs messages m ≡ ok sigs
      → save_proofs (y_of lib) (w.io 3) proofs m.db ≡ (ok tt, db')
      → ¬ (IsDistinct (b_s_of messages))
      → (ys : List String) × (rows : List DbProof) × (ys_of_proofs lib proofs ≡ ok ys)
        × (ys_of rows ≡ ys)
        × (swap lib w proofs messages m
            ≡ (err db_error, record m { db = record m.db { proofs = m.db.proofs ++ rows } }))
  unfolding swap
  swap-same_outputs-burns_inputs sigs db' checked saved same =
      let passed = check_swap-Passed lib w proofs messages m sigs checked in
      let (rows, stored, keys, amounts) =
        ys_of_proofs-RowsFor lib "" proofs passed.ys passed.have_points in
      let (srows, sstored, skeys, samounts, _) = passed.stored in
      (
        passed.ys,
        rows,
        passed.have_points,
        keys,
        elim (save_proofs-Saved (y_of lib) rows m.db (w.io 3) proofs stored) [
          | inr failed ↦ cc
          | inl (done, _, _) ↦ rw checked (
              first_write lib w proofs messages m rows srows sigs passed.ys passed.have_points done
                (save_blind_signatures_duplicate srows (with_proofs lib w proofs messages m rows).db
                  (w.io 4) (b_s_of messages) sigs sstored (λ d. same (subst IsDistinct skeys d))))
        ],
      )
