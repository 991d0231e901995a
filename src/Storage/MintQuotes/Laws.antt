-- ===== src/Storage/MintQuotes/Laws.antt =====
-- The states of the stored mint quotes after an update.
use mathlib.Core.Path.{subst}
use gonuts.Prelude.{
  ◌+◌, ◌≡◌, refl, ap, ◌∙◌, String, Bool, true, false, Option, none, some, List, [], ◌∷◌, arith,
  str_eq, str_eq_iff, ==_iff, Bool-cases, Option-cases, inl, inr,
}
use gonuts.Errors.{Result, ok, >>=-eq-ok, ok_injective}
use gonuts.Library.{Library}
use gonuts.Nuts.States.{MintState, mint_state_text, mint_state_of, mint_state_of-text}
use gonuts.Storage.{Db, MintQuote, MintQuoteRow}
use gonuts.Storage.MintQuotes.{
  find_id, set_state, count_id, update_mint_quote_state, get_mint_quote, read_mint_quote, scan,
  read_key,
}

abbrev with_state : String → Option MintQuoteRow → Option MintQuoteRow
with_state state none = none
with_state state (some row) = some (record row { state = state })

pub find_id-set_state :
    (id state : String) (table : List MintQuoteRow)
    → find_id id (set_state id state table) ≡ with_state state (find_id id table)
unfolding find_id set_state
find_id-set_state id state [] = refl
find_id-set_state id state (row ∷ table) = elim (Bool-cases (str_eq row.id id)) [
  | inl same ↦ rw (same, same) refl
  | inr other ↦ rw (other, other) (find_id-set_state id state table)
]

-- The row that is found has the id.
pub find_id-id :
    (id : String) (table : List MintQuoteRow) (row : MintQuoteRow)
    → find_id id table ≡ some row
    → row.id ≡ id
unfolding find_id
find_id-id id [] row h = cc
find_id-id id (r ∷ table) row h = ground (arith, find_id-id id table row, str_eq_iff r.id id)

pub find_id-count :
    (id : String) (table : List MintQuoteRow) → find_id id table ≡ none → count_id id table ≡ 0
unfolding find_id count_id
find_id-count id [] h = refl
find_id-count id (r ∷ table) h = ground (arith, find_id-count id table)

-- An update that answers has found one row and set its state.
pub update_mint_quote_state_ok :
    (io : Bool) (id : String) (state : MintState) (db : Db)
    → (update_mint_quote_state io id state db).0 ≡ ok tt
    → ((update_mint_quote_state io id state db).1
        ≡ record db { mint_quotes = set_state id (mint_state_text state) db.mint_quotes })
      × (count_id id db.mint_quotes ≡ 1)
unfolding update_mint_quote_state
update_mint_quote_state_ok false id state db h = cc
update_mint_quote_state_ok true id state db h =
    (refl, ground (arith, ==_iff (count_id id db.mint_quotes) 1))

pub count_id-set_state :
    (id state : String) (table : List MintQuoteRow)
    → count_id id (set_state id state table) ≡ count_id id table
unfolding count_id set_state
count_id-set_state id state [] = refl
count_id-set_state id state (row ∷ table) = elim (Bool-cases (str_eq row.id id)) [
  | inl same ↦ rw (same, same) (ap (λ n. n + 1) (count_id-set_state id state table))
  | inr other ↦ rw (other, other) (count_id-set_state id state table)
]

abbrev pub stated : String → MintState → Db → Db
stated id state db = record db { mint_quotes = set_state id (mint_state_text state) db.mint_quotes }

pub update_mint_quote_state-once :
    (io : Bool) (id : String) (state : MintState) (db : Db)
    → io ≡ true
    → count_id id db.mint_quotes ≡ 1
    → update_mint_quote_state io id state db ≡ (ok tt, stated id state db)
unfolding update_mint_quote_state
update_mint_quote_state-once true id state db works once = rw once refl
update_mint_quote_state-once false id state db works once = cc

-- The row that an update leaves.
pub updated_row :
    (id : String) (state : MintState) (table : List MintQuoteRow)
    → count_id id table ≡ 1
    → (row : MintQuoteRow) × (find_id id (set_state id (mint_state_text state) table) ≡ some row)
      × (row.state ≡ mint_state_text state)
updated_row id state table once = elim (Option-cases (find_id id table)) [
  | inl missing ↦ ground (arith, find_id-count id table)
  | inr (row, e) ↦ (
    record row { state = mint_state_text state },
    find_id-set_state id (mint_state_text state) table ∙ ap (with_state (mint_state_text state)) e,
    refl,
  )
]

module _ (lib : Library) where
  open lib use {PublicKey}

  read_mint_quote-state :
      (row : MintQuoteRow) (q : MintQuote PublicKey)
      → read_mint_quote lib row ≡ ok q
      → (q.state ≡ mint_state_of row.state) × (q.id ≡ row.id)
  unfolding read_mint_quote
  read_mint_quote-state row q h =
      let (key, e, h1) = >>=-eq-ok (read_key lib row.pubkey) _ h in
      subst (λ q. (q.state ≡ mint_state_of row.state) × (q.id ≡ row.id)) (ok_injective h1)
        (refl, refl)

  -- What is read back of a quote.
  pub get_mint_quote_row :
      (io : Bool) (id : String) (db : Db) (q : MintQuote PublicKey)
      → get_mint_quote lib io id db ≡ ok q
      → (row : MintQuoteRow) × (find_id id db.mint_quotes ≡ some row)
        × (q.state ≡ mint_state_of row.state)
        × (q.id ≡ id)
  unfolding get_mint_quote scan
  get_mint_quote_row false id db q h = cc
  get_mint_quote_row true id db q h = elim (Option-cases (find_id id db.mint_quotes)) [
    | inl missing ↦ cc
    | inr (row, e) ↦
        let (state, same) = read_mint_quote-state row q (rw e at h) in
        (row, e, state, same ∙ find_id-id id db.mint_quotes row e)
  ]

  abbrev restated : MintState → MintQuote PublicKey → Result (MintQuote PublicKey)
  restated s q = ok (record q { state = s })

  read_with_state :
      (row : MintQuoteRow) (s : MintState) (q : MintQuote PublicKey)
      → read_mint_quote lib row ≡ ok q
      → read_mint_quote lib (record row { state = mint_state_text s }) ≡ ok (record q { state = s })
  unfolding read_mint_quote
  read_with_state row s q h =
      let (key, e, h1) = >>=-eq-ok (read_key lib row.pubkey) _ h in
      rw (e, mint_state_of-text s) (ap (restated s) (ok_injective h1))

  -- A quote that is stored reads back with the state that UpdateMintQuoteState was given, and with
  -- everything else as it was.
  pub get_mint_quote-update_mint_quote_state :
      (id : String) (s : MintState) (db : Db) (q : MintQuote PublicKey)
      → get_mint_quote lib true id db ≡ ok q
      → get_mint_quote lib true id (update_mint_quote_state true id s db).1
        ≡ ok (record q { state = s })
  unfolding get_mint_quote scan update_mint_quote_state
  get_mint_quote-update_mint_quote_state id s db q h =
      elim (Option-cases (find_id id db.mint_quotes)) [
        | inl missing ↦ cc
        | inr (row, e) ↦
            rw (find_id-set_state id (mint_state_text s) db.mint_quotes, e)
              (read_with_state row s q (rw e at h))
      ]
