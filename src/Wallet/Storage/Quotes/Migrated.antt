-- ===== src/Wallet/Storage/Quotes/Migrated.antt =====
-- wallet/storage/bolt.go: which quotes stand in the database after `MigrateInvoicesToQuotes`.
use gonuts.Prelude.{◌+◌, ◌≡◌, ◌≢◌, ◌-◌, ◌%◌, u64_mod, if◌then◌else◌, none, some, List, [], ◌∷◌, All}
use gonuts.Library.{Library, Bytes}
use gonuts.Nuts.States.{MintState, MeltState}
use gonuts.Wallet.Storage.{Bolt}
use gonuts.Wallet.Storage.Quotes.{
  QuoteType, WalletMintQuote, WalletMeltQuote, WalletInvoice, QuoteTexts, QuoteDb,
  get_mint_quote_by_id, get_melt_quote_by_id,
}

-- What is read from a text is what it was made of.
pub record QuoteTextsLaws {lib : Library} {bolt : Bolt lib} (texts : QuoteTexts bolt) : Type 0 where
  pub unmarshal-marshal_mint_quote :
      (quote : WalletMintQuote lib.PrivateKey texts.Time) (text : bolt.Json)
      → texts.marshal_mint_quote quote ≡ some text
      → texts.unmarshal_mint_quote text ≡ some quote
  pub unmarshal-marshal_melt_quote :
      (quote : WalletMeltQuote texts.Time) (text : bolt.Json)
      → texts.marshal_melt_quote quote ≡ some text
      → texts.unmarshal_melt_quote text ≡ some quote

module _ {lib : Library} (bolt : Bolt lib) (texts : QuoteTexts bolt) where
  open lib use {bytes_of}
  open texts use {Time}

  -- What the quote of an invoice of a mint must say. The source does not take over `SettledAt`.
  abbrev pub IsMintQuoteOf : WalletInvoice Time → WalletMintQuote lib.PrivateKey Time → Type 0
  IsMintQuoteOf invoice quote =
      (quote.quote_id ≡ invoice.id)
      × (quote.mint ≡ invoice.mint)
      × (quote.method ≡ "bolt11")
      × (quote.state ≡ (if invoice.paid then MintState.paid else MintState.unpaid))
      × (quote.unit ≡ "sat")
      × (quote.payment_request ≡ invoice.payment_request)
      × (quote.amount ≡ invoice.quote_amount)
      × (quote.created_at ≡ invoice.created_at)
      × (quote.settled_at ≡ texts.time_zero)
      × (quote.quote_expiry ≡ invoice.quote_expiry)
      × (quote.private_key ≡ none)

  -- What the quote of an invoice of a melt must say: its fee reserve is the amount of the quote
  -- less that of the invoice, as a `uint64`. The source does not take over `CreatedAt`.
  abbrev pub IsMeltQuoteOf : WalletInvoice Time → WalletMeltQuote Time → Type 0
  IsMeltQuoteOf invoice quote =
      (quote.quote_id ≡ invoice.id)
      × (quote.mint ≡ invoice.mint)
      × (quote.method ≡ "bolt11")
      × (quote.state ≡ (if invoice.paid then MeltState.paid else MeltState.unpaid))
      × (quote.unit ≡ "sat")
      × (quote.payment_request ≡ invoice.payment_request)
      × (quote.amount ≡ invoice.quote_amount)
      × (quote.preimage ≡ invoice.preimage)
      × (quote.created_at ≡ texts.time_zero)
      × (quote.settled_at ≡ invoice.settled_at)
      × (quote.quote_expiry ≡ invoice.quote_expiry)
      × (quote.fee_reserve ≡ (invoice.quote_amount + (u64_mod - invoice.invoice_amount)) % u64_mod)

  -- The quote of an invoice stands in its bucket.
  abbrev pub StandsFor : QuoteDb bolt texts → QuoteType → WalletInvoice Time → Type 0
  StandsFor db QuoteType.mint invoice =
      (quote : WalletMintQuote lib.PrivateKey Time) × (get_mint_quote_by_id bolt texts invoice.id db
        ≡ some quote)
      × IsMintQuoteOf invoice quote
  StandsFor db QuoteType.melt invoice =
      (quote : WalletMeltQuote Time) × (get_melt_quote_by_id bolt texts invoice.id db ≡ some quote)
      × IsMeltQuoteOf invoice quote
  StandsFor db QuoteType.other invoice = Unit

  -- The identifiers of the invoices differ.
  abbrev pub HasDistinctIds : List (WalletInvoice Time) → Type 0
  HasDistinctIds [] = Unit
  HasDistinctIds (i ∷ is) =
      All (λ (j : WalletInvoice Time). bytes_of i.id ≢ bytes_of j.id) is × HasDistinctIds is

  -- Both buckets have the same under a key.
  abbrev SameAt : Bytes → QuoteDb bolt texts → QuoteDb bolt texts → Type 0
  SameAt key db db' =
      (bolt.get key db'.mint_quotes ≡ bolt.get key db.mint_quotes)
      × (bolt.get key db'.melt_quotes ≡ bolt.get key db.melt_quotes)
