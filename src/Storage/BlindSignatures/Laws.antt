-- ===== src/Storage/BlindSignatures/Laws.antt =====
-- The primary key of the table of signatures, and when storing signatures succeeds.
use mathlib.Core.List.{append_assoc, append-nil, map-append}
use gonuts.Prelude.{
  ◌≡◌, refl, ap, ◌∙◌, String, Bool, true, false, some, List, [], ◌∷◌, ◌++◌, map, arith, str_eq_iff,
  contains, contains-append, IsDistinct, Bool-cases, Option-cases, inl, inr, ◌⊎◌, not, is_empty,
}
use gonuts.Prelude.Keys.{
  IsDisjoint, IsDisjoint-append, IsDisjoint-of_append, IsDisjoint-of_not_contains,
  not_contains_symm,
}
use gonuts.Errors.{Error, Result, ok, err, db_error, return_if}
use gonuts.Cashu.{BlindedSignature}
use gonuts.Storage.{Db, SignatureRow}
use gonuts.Storage.BlindSignatures.{
  b_s_of, insert_signatures, select_b_s, get_blind_signatures, read_signature, rows_of,
  save_blind_signatures,
}

pub b_s_of-append :
    (rows rows' : List SignatureRow) → b_s_of (rows ++ rows') ≡ b_s_of rows ++ b_s_of rows'
b_s_of-append rows rows' = map-append (λ r. r.b_) rows rows'

-- What the inserts leave is the table with the rows at its end.
pub insert_signatures-append :
    (rows table table' : List SignatureRow)
    → insert_signatures rows table ≡ some table'
    → table' ≡ table ++ rows
unfolding insert_signatures
insert_signatures-append [] table table' h = cc (append-nil table)
insert_signatures-append (row ∷ rows) table table' h =
    elim (Bool-cases (contains row.b_ (b_s_of table))) [
      | inl old ↦ ground arith
      | inr new ↦
          insert_signatures-append rows (table ++ row ∷ []) table'
            (rw (new, insert_signatures) at h)
          ∙ append_assoc table (row ∷ []) rows
    ]

-- Rows with new and distinct keys can be inserted.
pub insert_signatures-some :
    (rows table : List SignatureRow)
    → IsDistinct (b_s_of rows)
    → IsDisjoint (b_s_of rows) (b_s_of table)
    → insert_signatures rows table ≡ some (table ++ rows)
unfolding insert_signatures
insert_signatures-some [] table d h = ap some (rw append-nil refl)
insert_signatures-some (row ∷ rows) table d h = rw h.0 (
    insert_signatures-some rows (table ++ row ∷ []) d.1 (
      rw (b_s_of-append table (row ∷ [])) (
        IsDisjoint-of_append (b_s_of rows) (b_s_of table) (row.b_ ∷ []) h.1
          (IsDisjoint-of_not_contains row.b_ (b_s_of rows) d.0)))
    ∙ ap some (append_assoc table (row ∷ []) rows))

-- Rows that could be inserted have keys that differ from each other and from those of the table.
pub insert_signatures-fresh :
    (rows table table' : List SignatureRow)
    → insert_signatures rows table ≡ some table'
    → IsDistinct (b_s_of rows) × IsDisjoint (b_s_of rows) (b_s_of table)
unfolding insert_signatures
insert_signatures-fresh [] table table' h = (tt, tt)
insert_signatures-fresh (row ∷ rows) table table' h =
    elim (Bool-cases (contains row.b_ (b_s_of table))) [
      | inl old ↦ ground arith
      | inr new ↦
          let (distinct, apart) =
            insert_signatures-fresh rows (table ++ row ∷ []) table'
              (rw (new, insert_signatures) at h) in
          let (before, here) =
            IsDisjoint-append (b_s_of rows) (b_s_of table) (row.b_ ∷ [])
              (rw (b_s_of-append table (row ∷ [])) at apart) in
          ((not_contains_symm row.b_ (b_s_of rows) here, distinct), (new, before))
    ]

select_b_s-none :
    (b : String) (b_s : List String) (table : List SignatureRow)
    → contains b b_s ≡ true
    → select_b_s b_s table ≡ []
    → contains b (b_s_of table) ≡ false
unfolding select_b_s
select_b_s-none b b_s [] c h = refl
select_b_s-none b b_s (row ∷ table) c h =
    ground (arith, select_b_s-none b b_s table, str_eq_iff row.b_ b)

-- A key that the query finds no row for is in no row.
pub select_b_s-IsDisjoint :
    (more b_s : List String) (table : List SignatureRow)
    → select_b_s (more ++ b_s) table ≡ []
    → IsDisjoint b_s (b_s_of table)
select_b_s-IsDisjoint more [] table h = tt
select_b_s-IsDisjoint more (b ∷ b_s) table h = (
  select_b_s-none b (more ++ b ∷ b_s) table
      (ground (arith, contains-append b more (b ∷ b_s), str_eq_iff b b)) h,
  select_b_s-IsDisjoint (more ++ b ∷ []) b_s table (rw append_assoc h),
)

map-nil {ℓ κ} : {A : Type ℓ} {B : Type κ} (f : A → B) (xs : List A) → map f xs ≡ [] → xs ≡ []
map-nil f [] h = refl
map-nil f (x ∷ xs) h = cc

-- After an empty answer of GetBlindSignatures no output of the request has been signed.
pub get_blind_signatures-IsDisjoint :
    (io : Bool) (b_s : List String) (db : Db)
    → get_blind_signatures io b_s db ≡ ok []
    → IsDisjoint b_s (b_s_of db.blind_signatures)
unfolding get_blind_signatures
get_blind_signatures-IsDisjoint io [] db h = tt
get_blind_signatures-IsDisjoint false (b ∷ b_s) db h = cc
get_blind_signatures-IsDisjoint true (b ∷ b_s) db h =
    select_b_s-IsDisjoint [] (b ∷ b_s) db.blind_signatures (map-nil read_signature _ (cc))

-- After the check of that answer, as the handlers make it.
pub no_signature :
    (io : Bool) (b_s : List String) (signed : List BlindedSignature) (e : Error) (db : Db)
    → get_blind_signatures io b_s db ≡ ok signed
    → return_if (not (is_empty signed)) e ≡ ok tt
    → IsDisjoint b_s (b_s_of db.blind_signatures)
no_signature io b_s [] e db q h = get_blind_signatures-IsDisjoint io b_s db q
no_signature io b_s (s ∷ signed) e db q h = cc

module _ (rows : List SignatureRow) (db : Db) where
  -- SaveBlindSignatures adds all the rows, whose keys are then distinct, or answers an error and
  -- changes nothing.
  abbrev pub SavedSignatures : Result (Unit {0}) × Db → Type 0
  SavedSignatures answer =
      ((answer ≡ (ok tt, record db { blind_signatures = db.blind_signatures ++ rows }))
        × IsDistinct (b_s_of rows))
      ⊎ (answer ≡ (err db_error, db))

  pub save_blind_signatures-Saved :
      (io : Bool) (b_s : List String) (sigs : List BlindedSignature)
      → rows_of b_s sigs ≡ ok rows
      → SavedSignatures (save_blind_signatures io b_s sigs db)
  unfolding save_blind_signatures
  save_blind_signatures-Saved false b_s sigs h = inr refl
  save_blind_signatures-Saved true b_s sigs h =
      elim (Option-cases (insert_signatures rows db.blind_signatures)) [
        | inl refused ↦ inr (rw (h, refused, save_blind_signatures) refl)
        | inr (table, e) ↦ inl (
          rw
              (
                h,
                e,
                insert_signatures-append rows db.blind_signatures table e,
                save_blind_signatures,
              )
              refl,
          (insert_signatures-fresh rows db.blind_signatures table e).0,
        )
      ]

  -- Where the database works, the keys are distinct and none is stored, it adds them.
  pub save_blind_signatures_ok :
      (b_s : List String) (sigs : List BlindedSignature)
      → rows_of b_s sigs ≡ ok rows
      → IsDistinct (b_s_of rows)
      → IsDisjoint (b_s_of rows) (b_s_of db.blind_signatures)
      → save_blind_signatures true b_s sigs db
        ≡ (ok tt, record db { blind_signatures = db.blind_signatures ++ rows })
  unfolding save_blind_signatures
  save_blind_signatures_ok b_s sigs h distinct apart =
      rw (h, insert_signatures-some rows db.blind_signatures distinct apart, save_blind_signatures)
        refl

  -- Where two keys are the same, it fails.
  pub save_blind_signatures_duplicate :
      (io : Bool) (b_s : List String) (sigs : List BlindedSignature)
      → rows_of b_s sigs ≡ ok rows
      → ¬ (IsDistinct (b_s_of rows))
      → save_blind_signatures io b_s sigs db ≡ (err db_error, db)
  unfolding save_blind_signatures
  save_blind_signatures_duplicate false b_s sigs h same = refl
  save_blind_signatures_duplicate true b_s sigs h same =
      elim (Option-cases (insert_signatures rows db.blind_signatures)) [
        | inl refused ↦ rw (h, refused, save_blind_signatures) refl
        | inr (table, e) ↦
            absurd (same (insert_signatures-fresh rows db.blind_signatures table e).0)
      ]
