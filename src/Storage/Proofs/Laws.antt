-- ===== src/Storage/Proofs/Laws.antt =====
-- The primary key of the proof tables: what the inserts, the deletes and the queries say of it.
use gonuts.Prelude.{
  ◌≡◌, refl, ap, ◌∙◌, String, Bool, true, false, not, ◌&&◌, some, List, [], ◌∷◌, ◌++◌, arith,
  str_eq_iff, contains, contains-append, IsDistinct, Option-cases, inl, inr, ◌⊎◌,
}
use mathlib.Core.List.{append_assoc, append-nil, map-append}
use gonuts.Prelude.Keys.{IsDisjoint, IsDistinct-snoc, IsDisjoint-append, not_contains_symm}
use gonuts.Errors.{Result, ok, err, db_error}
use gonuts.Cashu.{Proof}
use gonuts.Storage.{Db, DbProof}
use gonuts.Storage.Proofs.{
  ys_of, insert_proof, insert_proofs, select_ys, delete_ys, rows_of, save_proofs,
}

insert_proof-append :
    (row : DbProof) (table table' : List DbProof)
    → insert_proof row table ≡ some table'
    → (contains row.y (ys_of table) ≡ false) × (table' ≡ table ++ row ∷ [])
unfolding insert_proof
insert_proof-append row table table' h = ground arith

-- What the inserts leave is the table with the rows at its end.
pub insert_proofs-append :
    (rows table table' : List DbProof)
    → insert_proofs rows table ≡ some table'
    → table' ≡ table ++ rows
unfolding insert_proofs
insert_proofs-append [] table table' h = cc (append-nil table)
insert_proofs-append (row ∷ rows) table table' h = elim (Option-cases (insert_proof row table)) [
  | inl refused ↦ ground arith
  | inr (next, e) ↦
      insert_proofs-append rows next table' (rw (e, insert_proofs) at h)
      ∙ ap (λ (t : List DbProof). t ++ rows) (insert_proof-append row table next e).1
      ∙ append_assoc table (row ∷ []) rows
]

ys_of-append : (rows rows' : List DbProof) → ys_of (rows ++ rows') ≡ ys_of rows ++ ys_of rows'
ys_of-append rows rows' = map-append (λ r. r.y) rows rows'

-- The key stays unique.
pub insert_proofs-IsDistinct :
    (rows table table' : List DbProof)
    → IsDistinct (ys_of table)
    → insert_proofs rows table ≡ some table'
    → IsDistinct (ys_of table')
unfolding insert_proofs
insert_proofs-IsDistinct [] table table' d h = let same : table ≡ table' = cc in rw (← same) d
insert_proofs-IsDistinct (row ∷ rows) table table' d h =
    elim (Option-cases (insert_proof row table)) [
      | inl refused ↦ ground arith
      | inr (next, e) ↦
          let (fresh, appended) = insert_proof-append row table next e in
          insert_proofs-IsDistinct rows next table'
            (rw (appended, ys_of-append table (row ∷ []))
              (IsDistinct-snoc (ys_of table) row.y d fresh))
            (rw (e, insert_proofs) at h)
    ]

-- Rows that could be inserted have keys that differ from each other and from those of the table.
pub insert_proofs-fresh :
    (rows table table' : List DbProof)
    → insert_proofs rows table ≡ some table'
    → IsDistinct (ys_of rows) × IsDisjoint (ys_of rows) (ys_of table)
unfolding insert_proofs
insert_proofs-fresh [] table table' h = (tt, tt)
insert_proofs-fresh (row ∷ rows) table table' h = elim (Option-cases (insert_proof row table)) [
  | inl refused ↦ ground arith
  | inr (next, e) ↦
      let (fresh, appended) = insert_proof-append row table next e in
      let (distinct, apart) = insert_proofs-fresh rows next table' (rw (e, insert_proofs) at h) in
      let (old, new) =
        IsDisjoint-append (ys_of rows) (ys_of table) (row.y ∷ [])
          (rw (appended, ys_of-append table (row ∷ [])) at apart) in
      ((not_contains_symm row.y (ys_of rows) new, distinct), (fresh, old))
]

select_ys-none :
    (y : String) (ys : List String) (table : List DbProof)
    → contains y ys ≡ true
    → select_ys ys table ≡ []
    → contains y (ys_of table) ≡ false
unfolding select_ys
select_ys-none y ys [] c h = refl
select_ys-none y ys (row ∷ table) c h =
    ground (arith, select_ys-none y ys table, str_eq_iff row.y y)

-- A key that a query finds no row for is in no row.
pub select_ys-IsDisjoint :
    (more ys : List String) (table : List DbProof)
    → select_ys (more ++ ys) table ≡ []
    → IsDisjoint ys (ys_of table)
select_ys-IsDisjoint more [] table h = tt
select_ys-IsDisjoint more (y ∷ ys) table h = (
  select_ys-none y (more ++ y ∷ ys) table
      (ground (arith, contains-append y more (y ∷ ys), str_eq_iff y y)) h,
  select_ys-IsDisjoint (more ++ y ∷ []) ys table (rw append_assoc h),
)

-- The keys after a delete.
pub contains-delete_ys :
    (y : String) (ys : List String) (table : List DbProof)
    → contains y (ys_of (delete_ys ys table)) ≡ (contains y (ys_of table) && not (contains y ys))
unfolding delete_ys
contains-delete_ys y ys [] = refl
contains-delete_ys y ys (row ∷ table) =
    ground (arith, contains-delete_ys y ys table, str_eq_iff row.y y)

pub delete_ys-IsDistinct :
    (ys : List String) (table : List DbProof)
    → IsDistinct (ys_of table)
    → IsDistinct (ys_of (delete_ys ys table))
unfolding delete_ys
delete_ys-IsDistinct ys [] d = tt
delete_ys-IsDistinct ys (row ∷ table) d =
    ground (arith, delete_ys-IsDistinct ys table d.1, contains-delete_ys row.y ys table)

module _ (y_of : String → Result String) (rows : List DbProof) (db : Db) where
  -- SaveProofs adds all the rows, whose keys are then new and distinct, or answers an error and
  -- changes nothing.
  abbrev pub Saved : Result (Unit {0}) × Db → Type 0
  Saved answer =
      ((answer ≡ (ok tt, record db { proofs = db.proofs ++ rows }))
        × IsDistinct (ys_of rows)
        × IsDisjoint (ys_of rows) (ys_of db.proofs))
      ⊎ (answer ≡ (err db_error, db))

  -- Where the secrets of the proofs have points, so that they have rows, SaveProofs either answers and
  -- leaves the spent proofs with these rows at the end, whose Ys are then distinct and were not in the
  -- table, or answers an error and changes nothing.
  pub save_proofs-Saved :
      (io : Bool) (proofs : List Proof)
      → rows_of y_of "" proofs ≡ ok rows
      → Saved (save_proofs y_of io proofs db)
  unfolding save_proofs
  save_proofs-Saved false proofs h = inr refl
  save_proofs-Saved true proofs h = elim (Option-cases (insert_proofs rows db.proofs)) [
    | inl refused ↦ inr (rw (h, refused, save_proofs) refl)
    | inr (table, e) ↦
        let (distinct, apart) = insert_proofs-fresh rows db.proofs table e in
        inl (
          rw (h, e, insert_proofs-append rows db.proofs table e, save_proofs) refl,
          distinct,
          apart,
        )
  ]
