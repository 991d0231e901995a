-- ===== src/Storage/MeltQuotes.antt =====
-- sqlite.go: the table `melt_quotes`, with primary key `id`.
pub mod Laws
use gonuts.Prelude.{
  ℕ, ◌+◌, String, Bool, true, false, Option, none, some, List, [], ◌∷◌, ◌++◌, map, str_eq, ◌==◌,
  if◌then◌else◌, contains,
}
use gonuts.Errors.{Result, ok, err, db_error, no_rows}
use gonuts.Nuts.States.{MeltState, melt_state_text, melt_state_of}
use gonuts.Storage.{Db, MeltQuote, MeltQuoteRow}

-- The first row of a query that names one.
unfoldable pub find_id : String → List MeltQuoteRow → Option MeltQuoteRow
find_id id [] = none
find_id id (row ∷ table) =
    let rest = find_id id table in if str_eq row.id id then some row else rest

unfoldable pub find_request : String → List MeltQuoteRow → Option MeltQuoteRow
find_request request [] = none
find_request request (row ∷ table) =
    let rest = find_request request table in if str_eq row.request request then some row else rest

-- UPDATE melt_quotes SET state = ?, preimage = ? WHERE id = ?
unfoldable pub set_state : String → String → String → List MeltQuoteRow → List MeltQuoteRow
set_state id state preimage [] = []
set_state id state preimage (row ∷ table) =
    (if str_eq row.id id then record row { state = state; preimage = preimage } else row)
    ∷ set_state id state preimage table

-- RowsAffected of that statement
unfoldable pub count_id : String → List MeltQuoteRow → ℕ
count_id id [] = 0
count_id id (row ∷ table) =
    let rest = count_id id table in if str_eq row.id id then rest + 1 else rest

-- UpdateMeltQuote
unfoldable pub update_melt_quote : Bool → String → String → MeltState → Db → Result (Unit {0}) × Db
unfolding set_state count_id
update_melt_quote false id preimage state db = (err db_error, db)
update_melt_quote true id preimage state db = (
  if count_id id db.melt_quotes == 1 then ok tt else err db_error,
  record db { melt_quotes = set_state id (melt_state_text state) preimage db.melt_quotes },
)

-- The values that SaveMeltQuote inserts.
unfoldable pub row_of : MeltQuote → MeltQuoteRow
row_of quote = record {
  id = quote.id;
  request = quote.invoice_request;
  payment_hash = quote.payment_hash;
  amount = quote.amount;
  fee_reserve = quote.fee_reserve;
  state = melt_state_text quote.state;
  expiry = quote.expiry;
  preimage = quote.preimage;
  is_mpp = some quote.is_mpp;
  amount_msat = some quote.amount_msat;
}

-- SaveMeltQuote
unfoldable pub save_melt_quote : Bool → MeltQuote → Db → Result (Unit {0}) × Db
unfolding row_of
save_melt_quote false quote db = (err db_error, db)
save_melt_quote true quote db =
    if contains quote.id (map (λ r. r.id) db.melt_quotes)
    then (err db_error, db)
    else (ok tt, record db { melt_quotes = db.melt_quotes ++ row_of quote ∷ [] })

pub bool_or_false : Option Bool → Bool
bool_or_false none = false
bool_or_false (some b) = b

pub zero_or : Option ℕ → ℕ
zero_or none = 0
zero_or (some n) = n

-- The quote in a row, as both getters read it.
unfoldable pub read_melt_quote : MeltQuoteRow → MeltQuote
unfolding bool_or_false zero_or
read_melt_quote row = record {
  id = row.id;
  invoice_request = row.request;
  payment_hash = row.payment_hash;
  amount = row.amount;
  fee_reserve = row.fee_reserve;
  state = melt_state_of row.state;
  expiry = row.expiry;
  preimage = row.preimage;
  is_mpp = bool_or_false row.is_mpp;
  amount_msat = zero_or row.amount_msat;
}

pub scan : Bool → Option MeltQuoteRow → Result MeltQuote
unfolding read_melt_quote
scan false row = err db_error
scan true none = err no_rows
scan true (some row) = ok (read_melt_quote row)

-- GetMeltQuote
unfoldable pub get_melt_quote : Bool → String → Db → Result MeltQuote
unfolding scan find_id
get_melt_quote io id db = scan io (find_id id db.melt_quotes)

-- GetMeltQuoteByPaymentRequest
unfoldable pub get_melt_quote_by_payment_request : Bool → String → Db → Result MeltQuote
unfolding scan find_request
get_melt_quote_by_payment_request io request db = scan io (find_request request db.melt_quotes)
