-- ===== src/Wallet/Storage/Quotes.antt =====
-- wallet/storage/bolt.go: the wallet's quotes, the invoices that older versions kept in their place,
-- and `MigrateInvoicesToQuotes`. Times are `int64`s that are only copied.
pub mod Migrated
use gonuts.Prelude.{
  ℕ, ◌+◌, ◌-◌, ◌%◌, ◌≡◌, String, Bool, true, false, Option, none, some, List, [], ◌∷◌,
  if◌then◌else◌, u64_mod, is_empty,
}
use gonuts.Library.{Library, Bytes}
use gonuts.Nuts.States.{MintState, MeltState}
use gonuts.Wallet.{Answer, endless, crash, fault, answer, not_json, no_transaction}
use gonuts.Wallet.Storage.{Bolt, readable, all_readable}

-- storage.QuoteType
pub data QuoteType : Type 0 where
  mint melt other : QuoteType

-- storage.MintQuote
pub record WalletMintQuote (Key Time : Type 0) : Type 0 where
  pub quote_id : String
  pub mint : String
  pub method : String
  pub state : MintState
  pub unit : String
  pub payment_request : String
  pub amount : ℕ
  pub created_at : Time
  pub settled_at : Time
  pub quote_expiry : ℕ
  pub private_key : Option Key

-- storage.MeltQuote
pub record WalletMeltQuote (Time : Type 0) : Type 0 where
  pub quote_id : String
  pub mint : String
  pub method : String
  pub state : MeltState
  pub unit : String
  pub payment_request : String
  pub amount : ℕ
  pub fee_reserve : ℕ
  pub preimage : String
  pub created_at : Time
  pub settled_at : Time
  pub quote_expiry : ℕ

-- storage.Invoice
pub record WalletInvoice (Time : Type 0) : Type 0 where
  pub transaction_type : QuoteType
  pub id : String
  pub mint : String
  pub quote_amount : ℕ
  pub invoice_amount : ℕ
  pub payment_request : String
  pub payment_hash : String
  pub preimage : String
  pub created_at : Time
  pub paid : Bool
  pub settled_at : Time
  pub quote_expiry : ℕ

-- the texts in JSON, and the zero of `int64`
pub record QuoteTexts {lib : Library} (bolt : Bolt lib) : Type 1 where
  pub Time : Type 0
  pub time_zero : Time
  pub marshal_mint_quote : WalletMintQuote lib.PrivateKey Time → Option bolt.Json
  pub unmarshal_mint_quote : bolt.Json → Option (WalletMintQuote lib.PrivateKey Time)
  pub marshal_melt_quote : WalletMeltQuote Time → Option bolt.Json
  pub unmarshal_melt_quote : bolt.Json → Option (WalletMeltQuote Time)
  pub marshal_invoice : WalletInvoice Time → Option bolt.Json
  pub unmarshal_invoice : bolt.Json → Option (WalletInvoice Time)

-- `bolt.Put` of a text in a bucket, in a transaction; the text is made before it.
unfoldable pub put_text :
    {lib : Library} (bolt : Bolt lib)
    → Bool
    → Bytes
    → Option bolt.Json
    → bolt.Bucket bolt.Json
    → Answer (Unit {0}) × bolt.Bucket bolt.Json
put_text bolt io key none bucket = (fault not_json, bucket)
put_text bolt false key (some text) bucket = (fault no_transaction, bucket)
put_text bolt true key (some text) bucket = (answer tt, bolt.put key text bucket)

module _ {lib : Library} (bolt : Bolt lib) (texts : QuoteTexts bolt) where
  open lib use {bytes_of, PrivateKey}
  open bolt use {Json, Bucket, empty, get, put, entries}
  open texts use {
    Time, time_zero, marshal_mint_quote, unmarshal_mint_quote, marshal_melt_quote,
    unmarshal_melt_quote, marshal_invoice, unmarshal_invoice,
  }

  -- The buckets of the quotes, and that of the invoices, which the migration deletes.
  pub record QuoteDb : Type 0 where
    pub mint_quotes : Bucket Json
    pub melt_quotes : Bucket Json
    pub invoices : Option (Bucket Json)

  -- SaveMintQuote
  unfoldable pub save_wallet_mint_quote :
      Bool → WalletMintQuote PrivateKey Time → QuoteDb → Answer (Unit {0}) × QuoteDb
  unfolding put_text
  save_wallet_mint_quote io quote db =
      let (result, bucket) =
        put_text bolt io (bytes_of quote.quote_id) (marshal_mint_quote quote) db.mint_quotes in
      (result, record db { mint_quotes = bucket })

  -- GetMintQuotes
  unfoldable pub get_mint_quotes : QuoteDb → List (WalletMintQuote PrivateKey Time)
  unfolding readable
  get_mint_quotes db = readable bolt unmarshal_mint_quote (entries db.mint_quotes)

  -- A text that is not there is not JSON.
  unfoldable pub read_text : {A : Type 0} → (Json → Option A) → Option Json → Option A
  read_text read none = none
  read_text read (some text) = read text

  -- GetMintQuoteById
  unfoldable pub get_mint_quote_by_id : String → QuoteDb → Option (WalletMintQuote PrivateKey Time)
  unfolding read_text
  get_mint_quote_by_id id db = read_text unmarshal_mint_quote (get (bytes_of id) db.mint_quotes)

  -- SaveMeltQuote
  unfoldable pub save_wallet_melt_quote :
      Bool → WalletMeltQuote Time → QuoteDb → Answer (Unit {0}) × QuoteDb
  unfolding put_text
  save_wallet_melt_quote io quote db =
      let (result, bucket) =
        put_text bolt io (bytes_of quote.quote_id) (marshal_melt_quote quote) db.melt_quotes in
      (result, record db { melt_quotes = bucket })

  -- GetMeltQuotes
  unfoldable pub get_melt_quotes : QuoteDb → List (WalletMeltQuote Time)
  unfolding readable
  get_melt_quotes db = readable bolt unmarshal_melt_quote (entries db.melt_quotes)

  -- GetMeltQuoteById
  unfoldable pub get_melt_quote_by_id : String → QuoteDb → Option (WalletMeltQuote Time)
  unfolding read_text
  get_melt_quote_by_id id db = read_text unmarshal_melt_quote (get (bytes_of id) db.melt_quotes)

  -- GetInvoices: none where one of them cannot be read.
  unfoldable pub get_invoices : QuoteDb → List (WalletInvoice Time)
  unfolding all_readable
  get_invoices db = elim db.invoices [
    | none ↦ []
    | some bucket ↦ elim (all_readable bolt unmarshal_invoice (entries bucket)) [
      | none ↦ []
      | some invoices ↦ invoices
    ]
  ]

  -- the quotes that are made of an invoice
  unfoldable pub mint_quote_of : WalletInvoice Time → WalletMintQuote PrivateKey Time
  mint_quote_of invoice = record {
    quote_id = invoice.id;
    mint = invoice.mint;
    method = "bolt11";
    state = if invoice.paid then MintState.paid else MintState.unpaid;
    unit = "sat";
    payment_request = invoice.payment_request;
    amount = invoice.quote_amount;
    created_at = invoice.created_at;
    settled_at = time_zero;
    quote_expiry = invoice.quote_expiry;
    private_key = none;
  }

  unfoldable pub melt_quote_of : WalletInvoice Time → WalletMeltQuote Time
  melt_quote_of invoice = record {
    quote_id = invoice.id;
    mint = invoice.mint;
    method = "bolt11";
    state = if invoice.paid then MeltState.paid else MeltState.unpaid;
    unit = "sat";
    payment_request = invoice.payment_request;
    amount = invoice.quote_amount;
    fee_reserve = (invoice.quote_amount + (u64_mod - invoice.invoice_amount)) % u64_mod;
    preimage = invoice.preimage;
    created_at = time_zero;
    settled_at = invoice.settled_at;
    quote_expiry = invoice.quote_expiry;
  }

  -- what a round of the migration saves
  unfoldable pub migrate :
      QuoteType → Bool → WalletInvoice Time → QuoteDb → Answer (Unit {0}) × QuoteDb
  unfolding save_wallet_mint_quote save_wallet_melt_quote mint_quote_of melt_quote_of
  migrate QuoteType.mint io invoice db = save_wallet_mint_quote io (mint_quote_of invoice) db
  migrate QuoteType.melt io invoice db = save_wallet_melt_quote io (melt_quote_of invoice) db
  migrate QuoteType.other io invoice db = (answer tt, db)

  -- An error ends the loop.
  unfoldable pub and_then :
      Answer (Unit {0}) × QuoteDb
      → (QuoteDb → Answer (Unit {0}) × QuoteDb)
      → Answer (Unit {0}) × QuoteDb
  and_then (answer tt, db) next = next db
  and_then (fault e, db) next = (fault e, db)
  and_then (crash, db) next = (crash, db)
  and_then (endless, db) next = (endless, db)

  -- the loop of the migration, whose i-th transaction works where `io i`
  unfoldable pub migrate_from :
      (ℕ → Bool) → ℕ → List (WalletInvoice Time) → QuoteDb → Answer (Unit {0}) × QuoteDb
  unfolding migrate and_then
  migrate_from io i [] db = (answer tt, db)
  migrate_from io i (invoice ∷ rest) db =
      and_then (migrate invoice.transaction_type (io (i + 1)) invoice db)
        (migrate_from io (i + 1) rest)

  -- The deletion of the bucket of invoices; that it fails is not noticed.
  unfoldable pub delete_invoices :
      Bool → List (WalletInvoice Time) → QuoteDb → Answer (Unit {0}) × QuoteDb
  delete_invoices io [] db = (answer tt, db)
  delete_invoices false (invoice ∷ rest) db = (answer tt, db)
  delete_invoices true (invoice ∷ rest) db = (answer tt, record db { invoices = none })

  -- MigrateInvoicesToQuotes
  unfoldable pub migrate_invoices_to_quotes : (ℕ → Bool) → QuoteDb → Answer (Unit {0}) × QuoteDb
  unfolding get_invoices migrate_from delete_invoices and_then
  migrate_invoices_to_quotes io db =
      and_then (migrate_from io 0 (get_invoices db) db) (delete_invoices (io 0) (get_invoices db))
