-- ===== src/Storage/MintQuotes.antt =====
-- sqlite.go: the table `mint_quotes`, with primary key `id`.
pub mod Laws
use Prim.Native.String.{len}
use gonuts.Prelude.{
  ℕ, ◌+◌, String, Bool, true, false, not, Option, none, some, List, [], ◌∷◌, ◌++◌, map, str_eq, ltb,
  ◌==◌, if◌then◌else◌, contains,
}
use gonuts.Errors.{Result, ok, err, panic, ◌>>=◌, db_error, no_rows}
use gonuts.Library.{Library}
use gonuts.Nuts.States.{MintState, mint_state_text, mint_state_of}
use gonuts.Storage.{Db, MintQuote, MintQuoteRow}

-- The first row of a query that names one.
unfoldable pub find_id : String → List MintQuoteRow → Option MintQuoteRow
find_id id [] = none
find_id id (row ∷ table) =
    let rest = find_id id table in if str_eq row.id id then some row else rest

unfoldable pub find_payment_hash : String → List MintQuoteRow → Option MintQuoteRow
find_payment_hash hash [] = none
find_payment_hash hash (row ∷ table) =
    let rest = find_payment_hash hash table in
    if str_eq row.payment_hash hash then some row else rest

-- UPDATE mint_quotes SET state = ? WHERE id = ?
unfoldable pub set_state : String → String → List MintQuoteRow → List MintQuoteRow
set_state id state [] = []
set_state id state (row ∷ table) =
    (if str_eq row.id id then record row { state = state } else row) ∷ set_state id state table

-- RowsAffected of that statement
unfoldable pub count_id : String → List MintQuoteRow → ℕ
count_id id [] = 0
count_id id (row ∷ table) =
    let rest = count_id id table in if str_eq row.id id then rest + 1 else rest

-- UpdateMintQuoteState
unfoldable pub update_mint_quote_state : Bool → String → MintState → Db → Result (Unit {0}) × Db
unfolding set_state count_id
update_mint_quote_state false id state db = (err db_error, db)
update_mint_quote_state true id state db = (
  if count_id id db.mint_quotes == 1 then ok tt else err db_error,
  record db { mint_quotes = set_state id (mint_state_text state) db.mint_quotes },
)

module _ (lib : Library) where
  open lib use {PublicKey, decode_hex, encode_hex, parse_public_key, serialize_compressed}

  stored_key : Option PublicKey → String
  stored_key none = ""
  stored_key (some k) = encode_hex (serialize_compressed k)

  -- SaveMintQuote
  unfoldable pub save_mint_quote : Bool → MintQuote PublicKey → Db → Result (Unit {0}) × Db
  unfolding stored_key
  save_mint_quote false quote db = (err db_error, db)
  save_mint_quote true quote db =
      if contains quote.id (map (λ r. r.id) db.mint_quotes) then (err db_error, db) else (
        ok tt,
        record db {
          mint_quotes =
              db.mint_quotes
              ++ record {
                id = quote.id;
                payment_request = quote.payment_request;
                payment_hash = quote.payment_hash;
                amount = quote.amount;
                state = mint_state_text quote.state;
                expiry = quote.expiry;
                pubkey = some (stored_key quote.pubkey);
              }
                ∷ [];
        },
      )

  -- `pubkey.Valid && len(pubkey.String) > 0`, and the key parsed
  pub read_key : Option String → Result (Option PublicKey)
  read_key none = ok none
  read_key (some text) = if len text == 0 then ok none else elim (decode_hex text) [
    | none ↦ err db_error
    | some bytes ↦ elim (parse_public_key bytes) [ none ↦ err db_error | some k ↦ ok (some k) ]
  ]

  -- The quote in a row, as both getters read it.
  unfoldable pub read_mint_quote : MintQuoteRow → Result (MintQuote PublicKey)
  unfolding read_key
  read_mint_quote row = do
    key ← read_key row.pubkey
    ok (record {
      id = row.id;
      amount = row.amount;
      payment_request = row.payment_request;
      payment_hash = row.payment_hash;
      state = mint_state_of row.state;
      expiry = row.expiry;
      pubkey = key;
    })

  pub scan : Bool → Option MintQuoteRow → Result (MintQuote PublicKey)
  unfolding read_mint_quote
  scan false row = err db_error
  scan true none = err no_rows
  scan true (some row) = read_mint_quote row

  -- GetMintQuote
  unfoldable pub get_mint_quote : Bool → String → Db → Result (MintQuote PublicKey)
  unfolding scan find_id
  get_mint_quote io id db = scan io (find_id id db.mint_quotes)

  -- GetMintQuoteByPaymentHash
  unfoldable pub get_mint_quote_by_payment_hash : Bool → String → Db → Result (MintQuote PublicKey)
  unfolding scan find_payment_hash
  get_mint_quote_by_payment_hash io hash db = scan io (find_payment_hash hash db.mint_quotes)
