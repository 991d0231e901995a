-- ===== src/Tests/Quotes.antt =====
-- A wallet with invoices of an older version, which become quotes.
use gonuts.Prelude.{ℕ, String, Bool, true, false, Option, none, some, [], ◌∷◌}
use gonuts.Wallet.Storage.Quotes.{
  QuoteType, WalletMintQuote, WalletMeltQuote, WalletInvoice, QuoteTexts, QuoteDb,
  migrate_invoices_to_quotes,
}
use gonuts.Tests.Values.{toy}
use gonuts.Tests.Buckets.{Json, of_mint_quote, of_melt_quote, of_invoice, lists}

abbrev read_mint_quote : Json → Option (WalletMintQuote ℕ ℕ)
read_mint_quote (of_mint_quote q) = some q
read_mint_quote _ = none

abbrev read_melt_quote : Json → Option (WalletMeltQuote ℕ)
read_melt_quote (of_melt_quote q) = some q
read_melt_quote _ = none

abbrev read_invoice : Json → Option (WalletInvoice ℕ)
read_invoice (of_invoice i) = some i
read_invoice _ = none

abbrev quote_texts : QuoteTexts lists
quote_texts = record {
  Time = ℕ;
  time_zero = 0;
  marshal_mint_quote = λ q. some (of_mint_quote q);
  unmarshal_mint_quote = read_mint_quote;
  marshal_melt_quote = λ q. some (of_melt_quote q);
  unmarshal_melt_quote = read_melt_quote;
  marshal_invoice = λ i. some (of_invoice i);
  unmarshal_invoice = read_invoice;
}

abbrev invoice : QuoteType → String → Bool → WalletInvoice ℕ
invoice kind id paid = record {
  transaction_type = kind;
  id = id;
  mint = "m";
  quote_amount = 21;
  invoice_amount = 20;
  payment_request = "lnbc";
  payment_hash = id;
  preimage = "";
  created_at = 7;
  paid = paid;
  settled_at = 8;
  quote_expiry = 9;
}

abbrev before : QuoteDb lists quote_texts
before = record {
  mint_quotes = [];
  melt_quotes = [];
  invoices = some (
      (toy.bytes_of "a", of_invoice (invoice QuoteType.mint "a" true))
      ∷ (toy.bytes_of "b", of_invoice (invoice QuoteType.melt "b" false))
      ∷ []);
}

abbrev after : QuoteDb lists quote_texts
after = (migrate_invoices_to_quotes lists quote_texts (λ i. true) before).1
