-- ===== src/Mint/Swap/Outcomes.antt =====
-- What `Swap` does to the books and to the tables, on every outcome.
use gonuts.Prelude.{◌≡◌, refl, inl, inr, String, List, [], ◌∷◌, ◌++◌, map, IsDistinct}
use mathlib.Core.Path.{subst}
use gonuts.Errors.{ok, err, db_error}
use gonuts.Library.{Library}
use gonuts.Cashu.{Proof, BlindedMessage, BlindedSignature, proof_amounts, message_amounts}
use gonuts.Crypto.HashToCurve.{y_of}
use gonuts.Storage.{DbProof, SignatureRow}
use gonuts.Storage.Proofs.{ys_of, save_proofs}
use gonuts.Storage.Proofs.Laws.{save_proofs-Saved}
use gonuts.Storage.BlindSignatures.{b_s_of as row_b_s_of, rows_of, save_blind_signatures}
use gonuts.Storage.BlindSignatures.Laws.{save_blind_signatures-Saved}
use gonuts.Mint.{Mint, World, Event, proof_state, continue-eq-ok}
use gonuts.Mint.Proofs.{ys_of_proofs}
use gonuts.Mint.Proofs.Checked.{ys_of_proofs-RowsFor}
use gonuts.Mint.Outputs.{b_s_of}
use gonuts.Mint.States.{publish_spent_ok}
use gonuts.Mint.Swap.{commit_swap, swap}
use gonuts.Mint.Swap.Check.{check_swap}
use gonuts.Mint.Swap.Passed.{Passed, check_swap-Passed}

module _ (lib : Library) (w : World lib) (proofs : List Proof) (messages : List BlindedMessage)
    (m : Mint lib) where
  abbrev pub with_proofs : List DbProof → Mint lib
  with_proofs rows = record m { db = record m.db { proofs = m.db.proofs ++ rows } }

  abbrev pub with_both : List DbProof → List SignatureRow → List Event → Mint lib
  with_both rows srows events = record m {
    db = record m.db {
      proofs = m.db.proofs ++ rows;
      blind_signatures = m.db.blind_signatures ++ srows;
    };
    published = events;
  }

  -- The three ends of the writes: none took place, the proofs alone are stored, or everything is.
  module _ (rows : List DbProof) (srows : List SignatureRow) (sigs : List BlindedSignature)
      (ys : List String) (points : ys_of_proofs lib proofs ≡ ok ys) where
    pub no_write :
        save_proofs (y_of lib) (w.io 3) proofs m.db ≡ (err db_error, m.db)
        → commit_swap lib w proofs messages sigs m ≡ (err db_error, m)
    unfolding commit_swap
    no_write failed = rw failed refl

    pub first_write :
        save_proofs (y_of lib) (w.io 3) proofs m.db ≡ (ok tt, (with_proofs rows).db)
        → save_blind_signatures (w.io 4) (b_s_of messages) sigs (with_proofs rows).db
          ≡ (err db_error, (with_proofs rows).db)
        → commit_swap lib w proofs messages sigs m ≡ (err db_error, with_proofs rows)
    unfolding commit_swap
    first_write saved failed = rw (saved, failed) refl

    pub both_writes :
        save_proofs (y_of lib) (w.io 3) proofs m.db ≡ (ok tt, (with_proofs rows).db)
        → save_blind_signatures (w.io 4) (b_s_of messages) sigs (with_proofs rows).db
          ≡ (ok tt, (with_both rows srows m.published).db)
        → (events : List Event) × (commit_swap lib w proofs messages sigs m
            ≡ (ok sigs, with_both rows srows events))
    unfolding commit_swap
    both_writes saved signed =
        let (states, published) =
          publish_spent_ok lib proofs ys (with_both rows srows m.published) points in
        (m.published ++ proof_state states ∷ [], rw (saved, signed, published) refl)

  -- What a swap that answers has done.
  pub record Completed (sigs : List BlindedSignature) (m' : Mint lib) : Type 0 where
    pub passed : Passed lib w proofs messages m sigs
    pub rows : List DbProof
    pub srows : List SignatureRow
    pub events : List Event
    pub after : m' ≡ with_both rows srows events
    pub spent_keys : ys_of rows ≡ passed.ys
    pub distinct : IsDistinct (ys_of rows)
    pub spent_amounts : map (λ r. r.amount) rows ≡ proof_amounts proofs
    pub stored : rows_of (b_s_of messages) sigs ≡ ok srows
    pub distinct_keys : IsDistinct (row_b_s_of srows)
    pub signed_keys : row_b_s_of srows ≡ b_s_of messages
    pub signed_amounts : map (λ r. r.amount) srows ≡ message_amounts messages

  commit_swap-Completed :
      (sigs sigs' : List BlindedSignature) (m' : Mint lib)
      → Passed lib w proofs messages m sigs
      → commit_swap lib w proofs messages sigs m ≡ (ok sigs', m')
      → (sigs ≡ sigs') × Completed sigs m'
  commit_swap-Completed sigs sigs' m' passed h =
      let (rows, stored, keys, amounts) =
        ys_of_proofs-RowsFor lib "" proofs passed.ys passed.have_points in
      let (srows, sstored, skeys, samounts, _) = passed.stored in
      elim (save_proofs-Saved (y_of lib) rows m.db (w.io 3) proofs stored) [
        | inr failed ↦ let bad = no_write rows srows sigs passed.ys passed.have_points failed in cc
        | inl (saved, distinct, _) ↦
            elim (save_blind_signatures-Saved srows (with_proofs rows).db (w.io 4) (b_s_of messages)
              sigs sstored) [
                | inr failed ↦
                    let bad =
                      first_write rows srows sigs passed.ys passed.have_points saved failed in
                    cc
                | inl (signed, distinct_keys) ↦
                    let (events, done) =
                      both_writes rows srows sigs passed.ys passed.have_points saved signed in
                    (
                      cc,
                      record {
                        passed = passed;
                        rows = rows;
                        srows = srows;
                        events = events;
                        after = cc;
                        spent_keys = keys;
                        distinct = distinct;
                        spent_amounts = amounts;
                        stored = sstored;
                        distinct_keys = distinct_keys;
                        signed_keys = skeys;
                        signed_amounts = samounts;
                      },
                    )
              ]
      ]

  pub swap-Completed :
      (sigs : List BlindedSignature) (m' : Mint lib)
      → swap lib w proofs messages m ≡ (ok sigs, m')
      → Completed sigs m'
  unfolding swap
  swap-Completed sigs m' h =
      let (sigs', checked, committed) =
        continue-eq-ok (check_swap lib w proofs messages m) m (commit_swap lib w proofs messages)
          sigs m' h in
      let (same, completed) =
        commit_swap-Completed sigs' sigs m'
          (check_swap-Passed lib w proofs messages m sigs' checked) committed in
      subst (λ s. Completed s m') same completed
