-- ===== src/Storage/Later.antt =====
-- How each write of mint/storage/sqlite/sqlite.go moves the database on: spent proofs and signatures
-- are only added, and no key comes to stand twice in a table.
use mathlib.Core.List.{append_assoc, append-nil}
use gonuts.Prelude.{
  ◌≡◌, refl, sym, ap, ◌∙◌, ◌⊎◌, inl, inr, String, Bool, true, false, some, List, [], ◌∷◌, ◌++◌, map,
  arith, contains, IsDistinct, Bool-cases, Option-cases,
}
use gonuts.Prelude.Keys.{IsDistinct-snoc}
use gonuts.Errors.{Error, Result, ok, err, panic}
use gonuts.Library.{Library}
use gonuts.Cashu.{Proof, BlindedSignature}
use gonuts.Nuts.States.{MintState, MeltState}
use gonuts.Storage.{Db, DbProof, SignatureRow, MintQuote, MeltQuote}
use gonuts.Storage.Proofs.{
  ys_of, insert_proofs, rows_of, save_proofs, add_pending_proofs, remove_pending_proofs,
}
use gonuts.Storage.Proofs.Laws.{
  insert_proofs-append, insert_proofs-IsDistinct, delete_ys-IsDistinct,
}
use gonuts.Storage.BlindSignatures.{
  b_s_of, insert_signatures, save_blind_signatures, rows_of as signature_rows,
}
use gonuts.Storage.BlindSignatures.Laws.{insert_signatures-append, b_s_of-append}
use gonuts.Storage.MintQuotes.{update_mint_quote_state, save_mint_quote}
use gonuts.Storage.MeltQuotes.{update_melt_quote, save_melt_quote}

-- The primary keys of the three tables.
pub record IsSound (db : Db) : Type 0 where
  pub spent_distinct : IsDistinct (ys_of db.proofs)
  pub pending_distinct : IsDistinct (ys_of db.pending_proofs)
  pub signed_distinct : IsDistinct (b_s_of db.blind_signatures)

pub record Later (db db' : Db) : Type 0 where
  pub spent : (rows : List DbProof) × (db'.proofs ≡ db.proofs ++ rows)
  pub signed : (rows : List SignatureRow) × (db'.blind_signatures ≡ db.blind_signatures ++ rows)
  pub sound : IsSound db → IsSound db'

pub Later-refl : (db : Db) → Later db db
Later-refl db = record {
  spent = ([], sym (append-nil db.proofs));
  signed = ([], sym (append-nil db.blind_signatures));
  sound = λ s. s;
}

prefix_trans {ℓ} :
    {A : Type ℓ} (xs ys zs : List A)
    → ((more : List A) × (ys ≡ xs ++ more))
    → ((more : List A) × (zs ≡ ys ++ more))
    → ((more : List A) × (zs ≡ xs ++ more))
prefix_trans xs ys zs (j, e) (k, f) = (j ++ k, f ∙ ap (λ l. l ++ k) e ∙ append_assoc xs j k)

pub Later-trans : {a b c : Db} → Later a b → Later b c → Later a c
Later-trans {a} {b} {c} p q = record {
  spent = prefix_trans a.proofs b.proofs c.proofs p.spent q.spent;
  signed = prefix_trans a.blind_signatures b.blind_signatures c.blind_signatures p.signed q.signed;
  sound = λ s. q.sound (p.sound s);
}

-- Only the quotes differ.
quotes_only :
    (db db' : Db)
    → db'.proofs ≡ db.proofs
    → db'.pending_proofs ≡ db.pending_proofs
    → db'.blind_signatures ≡ db.blind_signatures
    → Later db db'
quotes_only db db' p q s = record {
  spent = ([], p ∙ sym (append-nil db.proofs));
  signed = ([], s ∙ sym (append-nil db.blind_signatures));
  sound = λ sound. record {
    spent_distinct = rw p sound.spent_distinct;
    pending_distinct = rw q sound.pending_distinct;
    signed_distinct = rw s sound.signed_distinct;
  };
}

insert_signatures-IsDistinct :
    (rows table table' : List SignatureRow)
    → IsDistinct (b_s_of table)
    → insert_signatures rows table ≡ some table'
    → IsDistinct (b_s_of table')
unfolding insert_signatures
insert_signatures-IsDistinct [] table table' d h = let same : table ≡ table' = cc in rw (← same) d
insert_signatures-IsDistinct (row ∷ rows) table table' d h =
    elim (Bool-cases (contains row.b_ (b_s_of table))) [
      | inl old ↦ ground arith
      | inr new ↦
          insert_signatures-IsDistinct rows (table ++ row ∷ []) table'
            (rw (b_s_of-append table (row ∷ [])) (IsDistinct-snoc (b_s_of table) row.b_ d new))
            (rw (new, insert_signatures) at h)
    ]

Result-cases {ℓ} :
    {A : Type ℓ} (r : Result A)
    → ((a : A) × (r ≡ ok a)) ⊎ (((e : Error) × (r ≡ err e)) ⊎ (r ≡ panic))
Result-cases (ok a) = inl (a, refl)
Result-cases (err e) = inr (inl (e, refl))
Result-cases panic = inr (inr refl)

module _ (y_of : String → Result String) where
  pub save_proofs-Later :
      (io : Bool) (proofs : List Proof) (db : Db) → Later db (save_proofs y_of io proofs db).1
  unfolding save_proofs
  save_proofs-Later false proofs db = Later-refl db
  save_proofs-Later true proofs db = elim (Result-cases (rows_of y_of "" proofs)) [
    | inr (inl (e, h)) ↦ rw (h, save_proofs) (Later-refl db)
    | inr (inr h) ↦ rw (h, save_proofs) (Later-refl db)
    | inl (rows, h) ↦ elim (Option-cases (insert_proofs rows db.proofs)) [
      | inl refused ↦ rw (h, refused, save_proofs) (Later-refl db)
      | inr (table, e) ↦
          rw (h, e, save_proofs)
            (record {
              spent = (rows, insert_proofs-append rows db.proofs table e);
              signed = ([], sym (append-nil db.blind_signatures));
              sound = λ s. record {
                spent_distinct = insert_proofs-IsDistinct rows db.proofs table s.spent_distinct e;
                pending_distinct = s.pending_distinct;
                signed_distinct = s.signed_distinct;
              };
            })
    ]
  ]

  pub add_pending_proofs-Later :
      (io : Bool) (proofs : List Proof) (id : String) (db : Db)
      → Later db (add_pending_proofs y_of io proofs id db).1
  unfolding add_pending_proofs
  add_pending_proofs-Later false proofs id db = Later-refl db
  add_pending_proofs-Later true proofs id db = elim (Result-cases (rows_of y_of id proofs)) [
    | inr (inl (e, h)) ↦ rw (h, add_pending_proofs) (Later-refl db)
    | inr (inr h) ↦ rw (h, add_pending_proofs) (Later-refl db)
    | inl (rows, h) ↦ elim (Option-cases (insert_proofs rows db.pending_proofs)) [
      | inl refused ↦ rw (h, refused, add_pending_proofs) (Later-refl db)
      | inr (table, e) ↦
          rw (h, e, add_pending_proofs)
            (record {
              spent = ([], sym (append-nil db.proofs));
              signed = ([], sym (append-nil db.blind_signatures));
              sound = λ s. record {
                spent_distinct = s.spent_distinct;
                pending_distinct =
                    insert_proofs-IsDistinct rows db.pending_proofs table s.pending_distinct e;
                signed_distinct = s.signed_distinct;
              };
            })
    ]
  ]

pub remove_pending_proofs-Later :
    (io : Bool) (ys : List String) (db : Db) → Later db (remove_pending_proofs io ys db).1
unfolding remove_pending_proofs
remove_pending_proofs-Later false ys db = Later-refl db
remove_pending_proofs-Later true ys db = record {
  spent = ([], sym (append-nil db.proofs));
  signed = ([], sym (append-nil db.blind_signatures));
  sound = λ s. record {
    spent_distinct = s.spent_distinct;
    pending_distinct = delete_ys-IsDistinct ys db.pending_proofs s.pending_distinct;
    signed_distinct = s.signed_distinct;
  };
}

pub save_blind_signatures-Later :
    (io : Bool) (b_s : List String) (sigs : List BlindedSignature) (db : Db)
    → Later db (save_blind_signatures io b_s sigs db).1
unfolding save_blind_signatures
save_blind_signatures-Later false b_s sigs db = Later-refl db
save_blind_signatures-Later true b_s sigs db = elim (Result-cases (signature_rows b_s sigs)) [
  | inr (inl (e, h)) ↦ rw (h, save_blind_signatures) (Later-refl db)
  | inr (inr h) ↦ rw (h, save_blind_signatures) (Later-refl db)
  | inl (rows, h) ↦ elim (Option-cases (insert_signatures rows db.blind_signatures)) [
    | inl refused ↦ rw (h, refused, save_blind_signatures) (Later-refl db)
    | inr (table, e) ↦
        rw (h, e, save_blind_signatures)
          (record {
            spent = ([], sym (append-nil db.proofs));
            signed = (rows, insert_signatures-append rows db.blind_signatures table e);
            sound = λ s. record {
              spent_distinct = s.spent_distinct;
              pending_distinct = s.pending_distinct;
              signed_distinct =
                  insert_signatures-IsDistinct rows db.blind_signatures table s.signed_distinct e;
            };
          })
  ]
]

pub update_mint_quote_state-Later :
    (io : Bool) (id : String) (state : MintState) (db : Db)
    → Later db (update_mint_quote_state io id state db).1
unfolding update_mint_quote_state
update_mint_quote_state-Later false id state db = Later-refl db
update_mint_quote_state-Later true id state db = quotes_only db _ refl refl refl

pub update_melt_quote-Later :
    (io : Bool) (id preimage : String) (state : MeltState) (db : Db)
    → Later db (update_melt_quote io id preimage state db).1
unfolding update_melt_quote
update_melt_quote-Later false id preimage state db = Later-refl db
update_melt_quote-Later true id preimage state db = quotes_only db _ refl refl refl

pub save_mint_quote-Later :
    (lib : Library) (io : Bool) (quote : MintQuote lib.PublicKey) (db : Db)
    → Later db (save_mint_quote lib io quote db).1
unfolding save_mint_quote
save_mint_quote-Later lib false quote db = Later-refl db
save_mint_quote-Later lib true quote db =
    elim (Bool-cases (contains quote.id (map (λ r. r.id) db.mint_quotes))) [
      | inl old ↦ rw (old, save_mint_quote) (Later-refl db)
      | inr new ↦ rw (new, save_mint_quote) (quotes_only db _ refl refl refl)
    ]

pub save_melt_quote-Later :
    (io : Bool) (quote : MeltQuote) (db : Db) → Later db (save_melt_quote io quote db).1
unfolding save_melt_quote
save_melt_quote-Later false quote db = Later-refl db
save_melt_quote-Later true quote db =
    elim (Bool-cases (contains quote.id (map (λ r. r.id) db.melt_quotes))) [
      | inl old ↦ rw (old, save_melt_quote) (Later-refl db)
      | inr new ↦ rw (new, save_melt_quote) (quotes_only db _ refl refl refl)
    ]
