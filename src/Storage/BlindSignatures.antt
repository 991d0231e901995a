-- ===== src/Storage/BlindSignatures.antt =====
-- sqlite.go: the table `blind_signatures`, with primary key `b_`.
pub mod Laws
use gonuts.Prelude.{
  ℕ, String, Bool, true, false, Option, none, some, List, [], ◌∷◌, ◌++◌, map, str_eq, if◌then◌else◌,
  contains,
}
use gonuts.Errors.{Result, ok, err, panic, ◌>>=◌, db_error, no_rows}
use gonuts.Cashu.{BlindedSignature, DleqProof}
use gonuts.Storage.{Db, SignatureRow}

abbrev pub b_s_of : List SignatureRow → List String
b_s_of = map (λ r. r.b_)

-- The rows of a list of signatures: `B_s[i]` with `sig`, and `sig.DLEQ.E`, which panics at nil.
unfoldable pub rows_of : List String → List BlindedSignature → Result (List SignatureRow)
rows_of b_s [] = ok []
rows_of [] (sig ∷ sigs) = panic
rows_of (b ∷ b_s) (sig ∷ sigs) = elim sig.dleq [
  | none ↦ panic
  | some p ↦ (do
    rest ← rows_of b_s sigs
    ok (
        record {
          b_ = b;
          c_ = sig.c_;
          keyset_id = sig.id;
          amount = sig.amount;
          e = some p.e;
          s = some p.s;
        }
        ∷ rest))
]

unfoldable pub insert_signatures :
    List SignatureRow → List SignatureRow → Option (List SignatureRow)
insert_signatures [] table = some table
insert_signatures (row ∷ rows) table =
    let rest = insert_signatures rows (table ++ row ∷ []) in
    if contains row.b_ (b_s_of table) then none else rest

-- SaveBlindSignatures
unfoldable pub save_blind_signatures :
    Bool → List String → List BlindedSignature → Db → Result (Unit {0}) × Db
unfolding rows_of insert_signatures
save_blind_signatures false b_s sigs db = (err db_error, db)
save_blind_signatures true b_s sigs db = elim (rows_of b_s sigs) [
  | ok rows ↦ elim (insert_signatures rows db.blind_signatures) [
    | none ↦ (err db_error, db)
    | some table ↦ (ok tt, record db { blind_signatures = table })
  ]
  | err e ↦ (err db_error, db)
  | panic ↦ (panic, db)
]

-- The proof in a row, which has no `R`.
read_dleq : Option String → Option String → Option DleqProof
read_dleq (some e) (some s) = some (record { e = e; s = s; r = "" })
read_dleq e s = none

unfoldable pub read_signature : SignatureRow → BlindedSignature
unfolding read_dleq
read_signature row = record {
  amount = row.amount;
  c_ = row.c_;
  id = row.keyset_id;
  dleq = read_dleq row.e row.s;
}

unfoldable pub find_b_ : String → List SignatureRow → Option SignatureRow
find_b_ b [] = none
find_b_ b (row ∷ table) = let rest = find_b_ b table in if str_eq row.b_ b then some row else rest

-- GetBlindSignature
unfoldable pub get_blind_signature : Bool → String → Db → Result BlindedSignature
unfolding read_signature find_b_
get_blind_signature false b db = err db_error
get_blind_signature true b db = elim (find_b_ b db.blind_signatures) [
  | none ↦ err no_rows
  | some row ↦ ok (read_signature row)
]

unfoldable pub select_b_s : List String → List SignatureRow → List SignatureRow
select_b_s b_s [] = []
select_b_s b_s (row ∷ table) =
    let rest = select_b_s b_s table in if contains row.b_ b_s then row ∷ rest else rest

-- GetBlindSignatures; `strings.Repeat` panics at -1 where no key is given.
unfoldable pub get_blind_signatures : Bool → List String → Db → Result (List BlindedSignature)
unfolding select_b_s read_signature
get_blind_signatures io [] db = panic
get_blind_signatures io (b ∷ b_s) db =
    if io then ok (map read_signature (select_b_s (b ∷ b_s) db.blind_signatures)) else err db_error
