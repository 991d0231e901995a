-- ===== src/Storage/MeltQuotes/Laws.antt =====
-- What is read back of a stored melt quote.
use gonuts.Prelude.{
  ◌≡◌, refl, String, Bool, true, false, some, List, [], ◌∷◌, ◌++◌, map, arith, str_eq_iff, contains,
  Bool-cases, inl, inr,
}
use gonuts.Errors.{ok}
use gonuts.Nuts.States.{melt_state_of-text}
use gonuts.Storage.{Db, MeltQuote, MeltQuoteRow}
use gonuts.Storage.MeltQuotes.{
  find_id, row_of, save_melt_quote, get_melt_quote, read_melt_quote, scan, bool_or_false, zero_or,
}

-- A row at the end of a table without its id is the one that is found.
find_id-append :
    (id : String) (table : List MeltQuoteRow) (row : MeltQuoteRow)
    → row.id ≡ id
    → contains id (map (λ r. r.id) table) ≡ false
    → find_id id (table ++ row ∷ []) ≡ some row
unfolding find_id
find_id-append id [] row e h = ground (arith, str_eq_iff row.id id)
find_id-append id (r ∷ table) row e h =
    ground (arith, find_id-append id table row e, str_eq_iff r.id id)

-- A melt quote that SaveMeltQuote has stored reads back as it is.
pub get_melt_quote-save_melt_quote :
    (io : Bool) (quote : MeltQuote) (db : Db)
    → (save_melt_quote io quote db).0 ≡ ok tt
    → get_melt_quote true quote.id (save_melt_quote io quote db).1 ≡ ok quote
unfolding row_of save_melt_quote get_melt_quote scan read_melt_quote bool_or_false zero_or
get_melt_quote-save_melt_quote false quote db h = cc
get_melt_quote-save_melt_quote true quote db h =
    elim (Bool-cases (contains quote.id (map (λ r. r.id) db.melt_quotes))) [
      | inl old ↦ ground (arith, old)
      | inr new ↦
          rw
            (
              new,
              find_id-append quote.id db.melt_quotes (row_of quote) refl new,
              melt_state_of-text quote.state,
            )
            refl
    ]
