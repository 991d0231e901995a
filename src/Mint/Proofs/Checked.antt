-- ===== src/Mint/Proofs/Checked.antt =====
-- What the checks of the proofs say when they pass.
use gonuts.Prelude.{
  ℕ, ◌≡◌, refl, String, Bool, true, false, List, [], ◌∷◌, map, arith, is_empty, not,
}
use gonuts.Prelude.Keys.{IsDisjoint}
use gonuts.Errors.{
  ok, >>=-eq-ok, ok_injective, return_if, no_proofs_provided, proof_pending, proof_already_used,
  duplicate_proofs, Error,
}
use gonuts.Library.{Library}
use gonuts.Cashu.{Proof, proof_amounts}
use gonuts.Cashu.Duplicates.{check_duplicate_proofs}
use gonuts.Crypto.HashToCurve.{y_of}
use gonuts.Storage.{Db, DbProof}
use gonuts.Storage.Proofs.{ys_of, rows_of, query, get_proofs_used, get_pending_proofs, select_ys}
use gonuts.Storage.Proofs.Laws.{select_ys-IsDisjoint}
use gonuts.Mint.{Mint, World}
use gonuts.Mint.Proofs.{ys_of_proofs, verify_proofs, verify_each}

abbrev pub row_amounts : List DbProof → List ℕ
row_amounts = map (λ r. r.amount)

empty_query :
    (io : Bool) (ys : List String) (rows : List DbProof) → query io ys rows ≡ ok [] → rows ≡ []
empty_query io [] rows h = cc
empty_query true (y ∷ ys) rows h = ok_injective h
empty_query false (y ∷ ys) rows h = cc

-- A query that answers no row, as the test after it found.
no_row :
    (e : Error) (io : Bool) (ys : List String) (table rows : List DbProof)
    → query io ys (select_ys ys table) ≡ ok rows
    → return_if (not (is_empty rows)) e ≡ ok tt
    → IsDisjoint ys (ys_of table)
no_row e io ys table [] q h =
    select_ys-IsDisjoint [] ys table (empty_query io ys (select_ys ys table) q)
no_row e io ys table (row ∷ rows) q h = cc

module _ (lib : Library) where
  -- The rows in which some proofs are stored.
  abbrev pub RowsFor : String → List Proof → List String → Type 0
  RowsFor quote_id proofs ys =
      (rows : List DbProof) × (rows_of (y_of lib) quote_id proofs ≡ ok rows)
      × (ys_of rows ≡ ys)
      × (row_amounts rows ≡ proof_amounts proofs)

  pub ys_of_proofs-RowsFor :
      (quote_id : String) (proofs : List Proof) (ys : List String)
      → ys_of_proofs lib proofs ≡ ok ys
      → RowsFor quote_id proofs ys
  unfolding ys_of_proofs rows_of
  ys_of_proofs-RowsFor quote_id [] ys h =
      let none_left : ys ≡ [] = cc in rw none_left ([], refl, refl, refl)
  ys_of_proofs-RowsFor quote_id (p ∷ proofs) ys h =
      let (y, e1, h1) = >>=-eq-ok (y_of lib p.secret) _ h in
      let (rest, e2, h2) = >>=-eq-ok (ys_of_proofs lib proofs) _ h1 in
      let (rows, stored, keys, amounts) = ys_of_proofs-RowsFor quote_id proofs rest e2 in
      rw (← ok_injective h2) (
        record {
          amount = p.amount;
          id = p.id;
          secret = p.secret;
          y = y;
          c = p.c;
          witness = p.witness;
          melt_quote_id = quote_id;
        }
            ∷ rows,
        ground arith,
        ground arith,
        ground arith,
      )

  -- Accepted proofs are neither pending nor spent.
  abbrev pub Unspent : Db → List String → Type 0
  Unspent db ys = IsDisjoint ys (ys_of db.pending_proofs) × IsDisjoint ys (ys_of db.proofs)

  pub verify_proofs-Unspent :
      (w : World lib) (m : Mint lib) (proofs : List Proof) (ys : List String)
      → verify_proofs lib w m proofs ys ≡ ok tt
      → Unspent m.db ys × (verify_each lib w m proofs ≡ ok tt)
  unfolding verify_proofs get_proofs_used get_pending_proofs
  verify_proofs-Unspent w m proofs ys h =
      let (_, e1, h1) = >>=-eq-ok (return_if (is_empty proofs) no_proofs_provided) _ h in
      let (pending, e2, h2) = >>=-eq-ok (get_pending_proofs (w.io 0) ys m.db) _ h1 in
      let (_, e3, h3) = >>=-eq-ok (return_if (not (is_empty pending)) proof_pending) _ h2 in
      let (used, e4, h4) = >>=-eq-ok (get_proofs_used (w.io 1) ys m.db) _ h3 in
      let (_, e5, h5) = >>=-eq-ok (return_if (not (is_empty used)) proof_already_used) _ h4 in
      let (_, e6, h6) =
        >>=-eq-ok (return_if (check_duplicate_proofs proofs) duplicate_proofs) _ h5 in
      (
        (
          no_row _ (w.io 0) ys m.db.pending_proofs pending e2 e3,
          no_row _ (w.io 1) ys m.db.proofs used e4 e5,
        ),
        h6,
      )
