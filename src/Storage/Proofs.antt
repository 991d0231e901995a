-- ===== src/Storage/Proofs.antt =====
-- sqlite.go: the tables `proofs` and `pending_proofs`. In both, `y` is the primary key and `secret`
-- is unique.
pub mod Laws
pub mod Released
use gonuts.Prelude.{
  ℕ, String, Bool, true, false, not, ◌||◌, Option, none, some, List, [], ◌∷◌, ◌++◌, map, str_eq,
  if◌then◌else◌, is_empty, contains,
}
use gonuts.Errors.{Result, ok, err, panic, ◌>>=◌, db_error}
use gonuts.Cashu.{Proof}
use gonuts.Storage.{Db, DbProof}

abbrev pub ys_of : List DbProof → List String
ys_of = map (λ r. r.y)

abbrev pub secrets_of : List DbProof → List String
secrets_of = map (λ r. r.secret)

-- INSERT INTO: `none` where the row breaks a constraint.
unfoldable pub insert_proof : DbProof → List DbProof → Option (List DbProof)
insert_proof row table =
    if contains row.y (ys_of table) || contains row.secret (secrets_of table)
    then none
    else some (table ++ row ∷ [])

-- The inserts of one transaction; after a failed one it is rolled back.
unfoldable pub insert_proofs : List DbProof → List DbProof → Option (List DbProof)
unfolding insert_proof
insert_proofs [] table = some table
insert_proofs (row ∷ rows) table = elim (insert_proof row table) [
  | none ↦ none
  | some table' ↦ insert_proofs rows table'
]

-- SELECT * FROM … WHERE y in (…)
unfoldable pub select_ys : List String → List DbProof → List DbProof
select_ys ys [] = []
select_ys ys (row ∷ table) =
    let rest = select_ys ys table in if contains row.y ys then row ∷ rest else rest

-- DELETE FROM … WHERE y = ?, for each of the keys
unfoldable pub delete_ys : List String → List DbProof → List DbProof
delete_ys ys [] = []
delete_ys ys (row ∷ table) =
    let rest = delete_ys ys table in if contains row.y ys then rest else row ∷ rest

-- WHERE melt_quote_id = ?
unfoldable pub select_quote : String → List DbProof → List DbProof
select_quote quote_id [] = []
select_quote quote_id (row ∷ table) =
    let rest = select_quote quote_id table in
    if str_eq row.melt_quote_id quote_id then row ∷ rest else rest

-- The query text needs a key: `strings.Repeat` panics at -1.
abbrev pub query : Bool → List String → List DbProof → Result (List DbProof)
query io [] rows = panic
query io (y ∷ ys) rows = if io then ok rows else err db_error

-- GetProofsUsed
unfoldable pub get_proofs_used : Bool → List String → Db → Result (List DbProof)
unfolding select_ys
get_proofs_used io ys db = query io ys (select_ys ys db.proofs)

-- GetPendingProofs
unfoldable pub get_pending_proofs : Bool → List String → Db → Result (List DbProof)
unfolding select_ys
get_pending_proofs io ys db = query io ys (select_ys ys db.pending_proofs)

-- GetPendingProofsByQuote
unfoldable pub get_pending_proofs_by_quote : Bool → String → Db → Result (List DbProof)
unfolding select_quote
get_pending_proofs_by_quote io quote_id db =
    if io then ok (select_quote quote_id db.pending_proofs) else err db_error

-- RemovePendingProofs
unfoldable pub remove_pending_proofs : Bool → List String → Db → Result (Unit {0}) × Db
unfolding delete_ys
remove_pending_proofs io ys db =
    if io
    then (ok tt, record db { pending_proofs = delete_ys ys db.pending_proofs })
    else (err db_error, db)

-- `y_of` is the hex text of HashToCurve of a secret.
module _ (y_of : String → Result String) where
  -- The rows of the proofs; SaveProofs leaves `melt_quote_id` empty.
  unfoldable pub rows_of : String → List Proof → Result (List DbProof)
  rows_of quote_id [] = ok []
  rows_of quote_id (p ∷ ps) = do
    y ← y_of p.secret
    rest ← rows_of quote_id ps
    ok (
        record {
          amount = p.amount;
          id = p.id;
          secret = p.secret;
          y = y;
          c = p.c;
          witness = p.witness;
          melt_quote_id = quote_id;
        }
        ∷ rest)

  -- SaveProofs. On an error of HashToCurve the source returns without a Rollback; nothing is stored.
  unfoldable pub save_proofs : Bool → List Proof → Db → Result (Unit {0}) × Db
  unfolding rows_of insert_proofs
  save_proofs false proofs db = (err db_error, db)
  save_proofs true proofs db = elim (rows_of "" proofs) [
    | ok rows ↦ elim (insert_proofs rows db.proofs) [
      | none ↦ (err db_error, db)
      | some table ↦ (ok tt, record db { proofs = table })
    ]
    | err e ↦ (err db_error, db)
    | panic ↦ (panic, db)
  ]

  -- AddPendingProofs
  unfoldable pub add_pending_proofs : Bool → List Proof → String → Db → Result (Unit {0}) × Db
  unfolding rows_of insert_proofs
  add_pending_proofs false proofs quote_id db = (err db_error, db)
  add_pending_proofs true proofs quote_id db = elim (rows_of quote_id proofs) [
    | ok rows ↦ elim (insert_proofs rows db.pending_proofs) [
      | none ↦ (err db_error, db)
      | some table ↦ (ok tt, record db { pending_proofs = table })
    ]
    | err e ↦ (err db_error, db)
    | panic ↦ (panic, db)
  ]
