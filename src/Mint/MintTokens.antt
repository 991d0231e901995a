-- ===== src/Mint/MintTokens.antt =====
-- mint/mint.go: `RequestMintQuote`, `GetMintQuoteState` and `MintTokens`, and in
-- cashu/nuts/nut20/nut20.go the signature on a mint quote.
pub mod Check
pub mod Minted
pub mod Issued
pub mod Once
pub mod Failed
pub mod Kept
use gonuts.Prelude.{ℕ, ◌+◌, [], String, Bool, true, false, Option, none, some, List, if◌then◌else◌}
use gonuts.Errors.{
  Error, Result, ok, err, panic, mint_quote_request_not_paid, mint_quote_already_issued,
  quote_pending, quote_not_exist, lightning_backend_error, standard,
}
use gonuts.Library.{Library}
use gonuts.Cashu.{BlindedMessage, BlindedSignature}
use gonuts.Nuts.States.{MintState}
use gonuts.Storage.{MintQuote}
use gonuts.Storage.MintQuotes.{get_mint_quote, update_mint_quote_state, save_mint_quote}
use gonuts.Storage.BlindSignatures.{save_blind_signatures}
use gonuts.Mint.{
  Mint, World, Handler, Invoice, bolt11_mint_quote, ◌>>=◌, ◌>>◌, pure, raise, gets, write, publish,
  or_error, require,
}
use gonuts.Mint.Outputs.{b_s_of}
use Check.{check_mint, check_quote_request}

module _ (lib : Library) where
  open lib use {PublicKey}

  -- RequestMintQuote: the expiry is the clock and the life of the invoice. The goroutine that waits
  -- for the payment is `checkInvoicePaid`.
  unfoldable pub request_mint_quote :
      World lib → ℕ → String → String → Handler lib (MintQuote PublicKey)
  request_mint_quote w amount unit pubkey = do
    key ← gets (check_quote_request lib w amount unit pubkey)
    invoice ← gets (λ m. require lightning_backend_error (w.create_invoice amount))
    id ← gets (λ m. require standard w.random_quote_id)
    let quote : MintQuote PublicKey = record {
      id = id;
      amount = amount;
      payment_request = invoice.payment_request;
      payment_hash = invoice.payment_hash;
      state = MintState.unpaid;
      expiry = w.now + invoice.expiry;
      pubkey = key;
    }
    write (save_mint_quote lib (w.io 2) quote)
    pure quote

  -- The invoice of an unpaid quote was settled.
  pub mark_paid : World lib → MintQuote PublicKey → Invoice → Handler lib (MintQuote PublicKey)
  mark_paid w quote status =
      if status.settled
      then (do
        write (update_mint_quote_state (w.io 1) quote.id MintState.paid)
        publish (bolt11_mint_quote quote.id MintState.paid)
        pure (record quote { state = MintState.paid }))
      else pure quote

  pub refresh : World lib → MintQuote PublicKey → MintState → Handler lib (MintQuote PublicKey)
  unfolding mark_paid
  refresh w quote MintState.unpaid = do
    status ← gets (λ m. require lightning_backend_error (w.invoice_status quote.payment_hash))
    mark_paid w quote status
  refresh w quote _ = pure quote

  -- GetMintQuoteState
  unfoldable pub get_mint_quote_state : World lib → String → Handler lib (MintQuote PublicKey)
  unfolding refresh
  get_mint_quote_state w id = do
    quote ← gets (λ m. or_error quote_not_exist (get_mint_quote lib (w.io 0) id m.db))
    refresh w quote quote.state

  -- `update mint quote to previous state if there was an error`: to the state that the variable
  -- `mintQuote` holds by then. An error of the update itself takes the place of the first one.
  unfoldable pub restore :
      {A : Type 0} → World lib → String → MintState → Result A × Mint lib → Result A × Mint lib
  restore w id state (ok a, m) = (ok a, m)
  restore w id state (panic, m) = (panic, m)
  restore w id state (err e, m) = (write (update_mint_quote_state (w.io 6) id state) >> raise e) m

  -- The inner function up to the signatures; `mintQuote.State` is still PAID.
  unfoldable pub prepare_mint :
      World lib
      → MintQuote PublicKey
      → List BlindedMessage
      → String
      → Handler lib (List BlindedSignature)
  prepare_mint w quote messages sig = do
    write (update_mint_quote_state (w.io 2) quote.id MintState.pending)
    gets (check_mint lib w quote messages sig)

  -- The rest of it; `mintQuote.State` is ISSUED.
  unfoldable pub finish_mint :
      World lib
      → MintQuote PublicKey
      → List BlindedMessage
      → List BlindedSignature
      → Handler lib (List BlindedSignature)
  finish_mint w quote messages sigs = do
    write (update_mint_quote_state (w.io 4) quote.id MintState.issued)
    write (save_blind_signatures (w.io 5) (b_s_of messages) sigs)
    publish (bolt11_mint_quote quote.id MintState.issued)
    pure sigs

  unfoldable pub issue :
      World lib
      → MintQuote PublicKey
      → List BlindedMessage
      → String
      → Handler lib (List BlindedSignature)
  unfolding restore prepare_mint finish_mint
  issue w quote messages sig = do
    sigs ← λ m. restore w quote.id MintState.paid (prepare_mint w quote messages sig m)
    λ m. restore w quote.id MintState.issued (finish_mint w quote messages sigs m)

  -- The switch on the state of the quote; no case is for `Unknown`, which answers no signatures.
  unfoldable pub mint_by_state :
      World lib
      → MintQuote PublicKey
      → List BlindedMessage
      → String
      → MintState
      → Handler lib (List BlindedSignature)
  unfolding issue
  mint_by_state w quote messages sig MintState.unpaid = raise mint_quote_request_not_paid
  mint_by_state w quote messages sig MintState.issued = raise mint_quote_already_issued
  mint_by_state w quote messages sig MintState.pending = raise quote_pending
  mint_by_state w quote messages sig MintState.paid = issue w quote messages sig
  mint_by_state w quote messages sig MintState.unknown = pure []

  -- MintTokens
  unfoldable pub mint_tokens :
      World lib → String → List BlindedMessage → String → Handler lib (List BlindedSignature)
  unfolding get_mint_quote_state mint_by_state
  mint_tokens w quote_id messages sig = do
    quote ← get_mint_quote_state w quote_id
    mint_by_state w quote messages sig quote.state
