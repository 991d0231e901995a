-- ===== src/Storage/Proofs/Released.antt =====
-- The table `pending_proofs` between the insert of the inputs of a melt and their delete.
use mathlib.Core.List.{append_assoc, append-nil}
use gonuts.Prelude.{
  ◌≡◌, refl, sym, ap, ◌∙◌, String, Bool, true, false, List, [], ◌∷◌, ◌++◌, arith, str_eq_iff,
  contains, contains-append, Bool-cases, Option-cases, inl, inr,
}
use gonuts.Prelude.Keys.{IsDisjoint, IsDisjoint-append, not_contains_symm}
use gonuts.Errors.{Result, ok, err, db_error}
use gonuts.Cashu.{Proof}
use gonuts.Storage.{Db, DbProof}
use gonuts.Storage.Proofs.{
  ys_of, insert_proofs, delete_ys, rows_of, add_pending_proofs, remove_pending_proofs,
}
use gonuts.Storage.Proofs.Laws.{insert_proofs-append, insert_proofs-fresh}

IsDisjoint-cons :
    (ys : List String) (k : String) (keys : List String)
    → IsDisjoint ys (k ∷ keys)
    → (contains k ys ≡ false) × IsDisjoint ys keys
IsDisjoint-cons ys k keys h =
    let (here, later) = IsDisjoint-append ys (k ∷ []) keys h in (not_contains_symm k ys here, later)

delete_ys-other :
    (ys : List String) (table : List DbProof)
    → IsDisjoint ys (ys_of table)
    → delete_ys ys table ≡ table
unfolding delete_ys
delete_ys-other ys [] h = refl
delete_ys-other ys (row ∷ table) h =
    let (here, later) = IsDisjoint-cons ys row.y (ys_of table) h in
    rw here (ap (λ t. row ∷ t) (delete_ys-other ys table later))

delete_ys-all :
    (more : List String) (rows : List DbProof) → delete_ys (more ++ ys_of rows) rows ≡ []
unfolding delete_ys
delete_ys-all more [] = refl
delete_ys-all more (row ∷ rows) =
    let found : contains row.y (more ++ row.y ∷ ys_of rows) ≡ true =
      ground (arith, contains-append row.y more (row.y ∷ ys_of rows), str_eq_iff row.y row.y) in
    rw found (
      ap (λ ys. delete_ys ys rows) (sym (append_assoc more (row.y ∷ []) (ys_of rows)))
      ∙ delete_ys-all (more ++ row.y ∷ []) rows)

delete_ys-append :
    (ys : List String) (table rows : List DbProof)
    → delete_ys ys (table ++ rows) ≡ delete_ys ys table ++ delete_ys ys rows
unfolding delete_ys
delete_ys-append ys [] rows = refl
delete_ys-append ys (row ∷ table) rows = elim (Bool-cases (contains row.y ys)) [
  | inl gone ↦ rw gone (delete_ys-append ys table rows)
  | inr kept ↦ rw kept (ap (λ t. row ∷ t) (delete_ys-append ys table rows))
]

-- Deleting the keys of rows that were appended to a table without these keys gives the table back.
pub delete_ys-appended :
    (table rows : List DbProof)
    → IsDisjoint (ys_of rows) (ys_of table)
    → delete_ys (ys_of rows) (table ++ rows) ≡ table
delete_ys-appended table rows h =
    delete_ys-append (ys_of rows) table rows
    ∙ ap (λ t. t ++ delete_ys (ys_of rows) rows) (delete_ys-other (ys_of rows) table h)
    ∙ ap (λ t. table ++ t) (delete_ys-all [] rows)
    ∙ append-nil table

module _ (y_of : String → Result String) (rows : List DbProof) (db : Db) where
  -- Where AddPendingProofs answers, it has appended all the rows.
  pub add_pending_proofs_ok :
      (io : Bool) (proofs : List Proof) (quote_id : String)
      → rows_of y_of quote_id proofs ≡ ok rows
      → (add_pending_proofs y_of io proofs quote_id db).0 ≡ ok tt
      → (add_pending_proofs y_of io proofs quote_id db).1
        ≡ record db { pending_proofs = db.pending_proofs ++ rows }
  unfolding add_pending_proofs
  add_pending_proofs_ok false proofs quote_id e h = cc
  add_pending_proofs_ok true proofs quote_id e h =
      elim (Option-cases (insert_proofs rows db.pending_proofs)) [
        | inl refused ↦
            let answer : add_pending_proofs y_of true proofs quote_id db ≡ (err db_error, db) =
              rw (e, refused, add_pending_proofs) refl in
            cc
        | inr (table, inserted) ↦
            rw
              (
                e,
                inserted,
                insert_proofs-append rows db.pending_proofs table inserted,
                add_pending_proofs,
              )
              refl
      ]

  -- The rows that AddPendingProofs has added have keys that were not in the table.
  add_pending_proofs-IsDisjoint :
      (io : Bool) (proofs : List Proof) (quote_id : String)
      → rows_of y_of quote_id proofs ≡ ok rows
      → (add_pending_proofs y_of io proofs quote_id db).0 ≡ ok tt
      → IsDisjoint (ys_of rows) (ys_of db.pending_proofs)
  unfolding add_pending_proofs
  add_pending_proofs-IsDisjoint false proofs quote_id e h = cc
  add_pending_proofs-IsDisjoint true proofs quote_id e h =
      elim (Option-cases (insert_proofs rows db.pending_proofs)) [
        | inl refused ↦
            let answer : add_pending_proofs y_of true proofs quote_id db ≡ (err db_error, db) =
              rw (e, refused, add_pending_proofs) refl in
            cc
        | inr (table, inserted) ↦ (insert_proofs-fresh rows db.pending_proofs table inserted).1
      ]

  -- Where AddPendingProofs of some proofs has answered, and RemovePendingProofs of their Ys then
  -- works, the database is again as it was before the first.
  pub remove_pending_proofs-add_pending_proofs :
      (io : Bool) (proofs : List Proof) (quote_id : String)
      → rows_of y_of quote_id proofs ≡ ok rows
      → (add_pending_proofs y_of io proofs quote_id db).0 ≡ ok tt
      → remove_pending_proofs true (ys_of rows) (add_pending_proofs y_of io proofs quote_id db).1
        ≡ (ok tt, db)
  unfolding remove_pending_proofs
  remove_pending_proofs-add_pending_proofs io proofs quote_id e h =
      rw (add_pending_proofs_ok io proofs quote_id e h) (
        ap (λ t. (ok tt, record db { pending_proofs = t }))
          (delete_ys-appended db.pending_proofs rows
            (add_pending_proofs-IsDisjoint io proofs quote_id e h)))
