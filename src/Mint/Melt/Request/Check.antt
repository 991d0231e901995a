-- ===== src/Mint/Melt/Request/Check.antt =====
-- mint/mint.go: the part of `RequestMeltQuote` before its write.
use gonuts.Prelude.{
  ℕ, ◌+◌, ◌/◌, ◌==◌, ltb, leb, not, ◌&&◌, str_eq, String, Bool, true, false, Option, none, some,
  if◌then◌else◌,
}
use gonuts.Errors.{
  Result, ok, err, panic, ◌>>=◌, ◌>>◌, return_if, unit_not_supported, invalid_invoice,
  invoice_has_no_amount, mpp_internal, mpp_amount_not_less, mpp_not_supported, melt_amount_exceeded,
  melt_quote_for_request_exists, standard,
}
use gonuts.Library.{Library}
use gonuts.Nuts.States.{MeltState}
use gonuts.Storage.{MintQuote, MeltQuote}
use gonuts.Storage.MintQuotes.{get_mint_quote_by_payment_hash}
use gonuts.Storage.MeltQuotes.{get_melt_quote_by_payment_request}
use gonuts.Mint.{Mint, World, Bolt11, require}

-- `quote != nil` of a lookup whose error is dropped
found : {A : Type 0} → Result A → Bool
found (ok a) = true
found (err e) = false
found panic = false

module _ (lib : Library) where
  -- `err == nil` of the lookup of a mint quote with the same invoice; a panic of the lookup is one of
  -- the handler.
  is_internal : Result (MintQuote lib.PublicKey) → Result Bool
  is_internal (ok q) = ok true
  is_internal (err e) = ok false
  is_internal panic = panic

  -- The part that is to be paid, in millisatoshi, where the request has the option `mpp`.
  mpp_amount : Mint lib → Bolt11 → Bool → Option ℕ → Result (Option ℕ)
  mpp_amount m invoice internal none = ok none
  mpp_amount m invoice internal (some amount_msat) = do
    return_if (not m.mpp_enabled) mpp_not_supported
    return_if internal mpp_internal
    return_if (leb invoice.msatoshi amount_msat) mpp_amount_not_less
    ok (some amount_msat)

  amounts : Bolt11 → Option ℕ → ℕ × ℕ
  amounts invoice none = (invoice.msatoshi / 1000, 0)
  amounts invoice (some amount_msat) = (amount_msat / 1000, amount_msat)

  is_some : Option ℕ → Bool
  is_some none = false
  is_some (some n) = true

  -- RequestMeltQuote up to its write: the quote. QuoteExpiryMins is 10.
  unfoldable pub new_melt_quote :
      World lib → String → String → Option ℕ → Mint lib → Result MeltQuote
  unfolding found is_internal mpp_amount amounts is_some
  new_melt_quote w request unit mpp m = do
    return_if (not (str_eq unit "sat")) unit_not_supported
    invoice ← require invalid_invoice (w.decode_invoice request)
    return_if (invoice.msatoshi == 0) invoice_has_no_amount
    internal ← is_internal (get_mint_quote_by_payment_hash lib (w.io 0) invoice.payment_hash m.db)
    part ← mpp_amount m invoice internal mpp
    let (amount, amount_msat) = amounts invoice part
    return_if (ltb 0 m.limits.melt_max_amount && ltb m.limits.melt_max_amount amount)
        melt_amount_exceeded
    return_if (found (get_melt_quote_by_payment_request (w.io 1) request m.db))
        melt_quote_for_request_exists
    id ← require standard w.random_quote_id
    ok (record {
      id = id;
      invoice_request = request;
      payment_hash = invoice.payment_hash;
      amount = amount;
      fee_reserve = if internal then 0 else w.fee_reserve amount;
      state = MeltState.unpaid;
      expiry = w.now + 600;
      preimage = "";
      is_mpp = is_some part;
      amount_msat = amount_msat;
    })
