-- ===== src/Mint/Melt.antt =====
-- mint/mint.go: `GetMeltQuoteState`, `MeltTokens` and the helpers that they share. The inputs are pending while the backend pays.
pub mod Check
pub mod Request
pub mod Settled
pub mod Outcomes
pub mod Kept
use gonuts.Prelude.{
  ℕ, ◌/◌, String, Bool, true, false, Option, none, some, List, [], ◌∷◌, map, if◌then◌else◌,
}
use gonuts.Errors.{Error, Result, ok, err, panic, quote_not_exist, lightning_backend_error}
use gonuts.Library.{Library}
use gonuts.Cashu.{Proof}
use gonuts.Crypto.HashToCurve.{y_of}
use gonuts.Nuts.States.{MintState, MeltState}
use gonuts.Storage.{MintQuote, MeltQuote, DbProof}
use gonuts.Storage.Proofs.{
  save_proofs, add_pending_proofs, remove_pending_proofs, get_pending_proofs_by_quote, ys_of,
}
use gonuts.Storage.MintQuotes.{get_mint_quote_by_payment_hash, update_mint_quote_state}
use gonuts.Storage.MeltQuotes.{get_melt_quote, update_melt_quote}
use gonuts.Mint
use gonuts.Mint.{
  Mint, World, Handler, PaymentStatus, PaymentState, Outgoing, full, partial, bolt11_mint_quote,
  ◌>>=◌, ◌>>◌, pure, raise, gets, write, publish, record_payment, or_error, require,
}
use gonuts.Mint.States.{publish_spent}
use Check.{check_melt}

-- The proofs of the pending rows of a quote; the pointer to a DLEQ proof is nil.
pub proof_of_row : DbProof → Proof
proof_of_row row = record {
  amount = row.amount;
  id = row.id;
  secret = row.secret;
  c = row.c;
  witness = row.witness;
  dleq = none;
}

module _ (lib : Library) where
  open lib use {PublicKey}

  -- removePendingProofsForQuote
  unfoldable pub remove_pending_proofs_for_quote : World lib → String → Handler lib (List Proof)
  unfolding proof_of_row
  remove_pending_proofs_for_quote w quote_id = do
    rows ← gets (λ m. get_pending_proofs_by_quote (w.io 1) quote_id m.db)
    write (remove_pending_proofs (w.io 2) (ys_of rows))
    pure (map proof_of_row rows)

  -- The payment of a pending quote has an outcome.
  poll_outcome : World lib → MeltQuote → PaymentStatus → PaymentState → Handler lib MeltQuote
  unfolding remove_pending_proofs_for_quote
  poll_outcome w quote status PaymentState.succeeded = do
    proofs ← remove_pending_proofs_for_quote w quote.id
    write (save_proofs (y_of lib) (w.io 3) proofs)
    write (update_melt_quote (w.io 4) quote.id status.preimage MeltState.paid)
    publish_spent lib proofs
    pure (record quote { state = MeltState.paid; preimage = status.preimage })
  poll_outcome w quote status PaymentState.failed = do
    write (update_melt_quote (w.io 3) quote.id "" MeltState.unpaid)
    proofs ← remove_pending_proofs_for_quote w quote.id
    pure (record quote { state = MeltState.unpaid })
  poll_outcome w quote status PaymentState.pending = pure quote

  poll : World lib → MeltQuote → Outgoing → Handler lib MeltQuote
  unfolding poll_outcome
  poll w quote (Outgoing.found status) = poll_outcome w quote status status.payment_status
  poll w quote Outgoing.not_found = pure quote
  poll w quote Outgoing.other_error = pure quote

  poll_if_pending : World lib → MeltQuote → MeltState → Handler lib MeltQuote
  unfolding poll
  poll_if_pending w quote MeltState.pending =
      poll w quote (w.outgoing_payment_status quote.payment_hash)
  poll_if_pending w quote _ = pure quote

  -- GetMeltQuoteState
  unfoldable pub get_melt_quote_state : World lib → String → Handler lib MeltQuote
  unfolding poll_if_pending
  get_melt_quote_state w id = do
    quote ← gets (λ m. or_error quote_not_exist (get_melt_quote (w.io 0) id m.db))
    poll_if_pending w quote quote.state

  -- settleQuotesInternally; its updates are the calls 6 and 7 of MeltTokens.
  unfoldable pub settle_quotes_internally :
      World lib → MintQuote PublicKey → MeltQuote → Handler lib MeltQuote
  settle_quotes_internally w mint_quote quote = do
    invoice ← gets (λ m. require lightning_backend_error (w.invoice_status mint_quote.payment_hash))
    write (update_melt_quote (w.io 6) quote.id invoice.preimage MeltState.paid)
    write (update_mint_quote_state (w.io 7) mint_quote.id MintState.paid)
    publish (bolt11_mint_quote mint_quote.id MintState.paid)
    pure (record quote { state = MeltState.paid; preimage = invoice.preimage })

  -- settleProofs
  unfoldable pub settle_proofs : World lib → List String → List Proof → Handler lib (Unit {0})
  settle_proofs w ys proofs = do
    write (remove_pending_proofs (w.io 8) ys)
    write (save_proofs (y_of lib) (w.io 9) proofs)
    publish_spent lib proofs

  -- The payment succeeded.
  pub paid : World lib → List String → List Proof → MeltQuote → String → Handler lib MeltQuote
  unfolding settle_proofs
  paid w ys proofs quote preimage = do
    settle_proofs w ys proofs
    write (update_melt_quote (w.io 10) quote.id preimage MeltState.paid)
    pure (record quote { state = MeltState.paid; preimage = preimage })

  -- The payment certainly failed.
  pub unpaid : World lib → List String → MeltQuote → Handler lib MeltQuote
  unpaid w ys quote = do
    write (update_melt_quote (w.io 8) quote.id "" MeltState.unpaid)
    write (remove_pending_proofs (w.io 9) ys)
    pure (record quote { state = MeltState.unpaid })

  pub checked_outcome :
      World lib
      → List String
      → List Proof
      → MeltQuote
      → PaymentStatus
      → PaymentState
      → Handler lib MeltQuote
  unfolding paid unpaid
  checked_outcome w ys proofs quote status PaymentState.failed = unpaid w ys quote
  checked_outcome w ys proofs quote status PaymentState.succeeded =
      paid w ys proofs quote status.preimage
  checked_outcome w ys proofs quote status PaymentState.pending = pure quote

  -- The extra check of a payment that failed.
  pub check_failed :
      World lib → List String → List Proof → MeltQuote → Outgoing → Handler lib MeltQuote
  unfolding checked_outcome
  check_failed w ys proofs quote Outgoing.not_found = unpaid w ys quote
  check_failed w ys proofs quote Outgoing.other_error = pure quote
  check_failed w ys proofs quote (Outgoing.found status) =
      checked_outcome w ys proofs quote status status.payment_status

  pub payment_outcome :
      World lib
      → List String
      → List Proof
      → MeltQuote
      → PaymentStatus
      → PaymentState
      → Handler lib MeltQuote
  unfolding check_failed
  payment_outcome w ys proofs quote status PaymentState.succeeded =
      paid w ys proofs quote status.preimage
  payment_outcome w ys proofs quote status PaymentState.pending = pure quote
  payment_outcome w ys proofs quote status PaymentState.failed =
      check_failed w ys proofs quote (w.outgoing_payment_status quote.payment_hash)

  -- The answer of SendPayment or PayPartialAmount; an error counts as FAILED.
  unfoldable pub after_payment :
      World lib
      → List String
      → List Proof
      → MeltQuote
      → Option PaymentStatus
      → Handler lib MeltQuote
  unfolding payment_outcome
  after_payment w ys proofs quote none =
      check_failed w ys proofs quote (w.outgoing_payment_status quote.payment_hash)
  after_payment w ys proofs quote (some status) =
      payment_outcome w ys proofs quote status status.payment_status

  -- The payment through the backend, by whether the quote is a part of a larger payment. SendPayment
  -- is called with the amount as its fee limit.
  pub pay_by : World lib → List String → List Proof → MeltQuote → Bool → Handler lib MeltQuote
  unfolding after_payment
  pay_by w ys proofs quote true = do
    let fee = w.fee_reserve (quote.amount_msat / 1000)
    record_payment (partial quote.invoice_request quote.amount_msat fee)
    after_payment w ys proofs quote
        (w.pay_partial_amount quote.invoice_request quote.amount_msat fee)
  pay_by w ys proofs quote false = do
    record_payment (full quote.invoice_request quote.amount)
    after_payment w ys proofs quote (w.send_payment quote.invoice_request quote.amount)

  unfoldable pub pay : World lib → List String → List Proof → MeltQuote → Handler lib MeltQuote
  unfolding pay_by
  pay w ys proofs quote = pay_by w ys proofs quote quote.is_mpp

  -- Both quotes are of this mint.
  unfoldable pub melt_internally :
      World lib → List String → List Proof → MeltQuote → MintQuote PublicKey → Handler lib MeltQuote
  unfolding settle_quotes_internally settle_proofs
  melt_internally w ys proofs quote mint_quote = do
    quote' ← settle_quotes_internally w mint_quote quote
    settle_proofs w ys proofs
    pure quote'

  -- The answer of the lookup of a mint quote with the same invoice; an error of any kind means that
  -- there is none.
  pub melt_with :
      World lib
      → List String
      → List Proof
      → MeltQuote
      → Result (MintQuote PublicKey)
      → Handler lib MeltQuote
  unfolding pay melt_internally
  melt_with w ys proofs quote (ok mint_quote) m = melt_internally w ys proofs quote mint_quote m
  melt_with w ys proofs quote (err e) m = pay w ys proofs quote m
  melt_with w ys proofs quote panic m = (panic, m)

  unfoldable pub melt_pending :
      World lib → List String → List Proof → MeltQuote → Handler lib MeltQuote
  unfolding melt_with
  melt_pending w ys proofs quote m =
      melt_with w ys proofs quote
        (get_mint_quote_by_payment_hash lib (w.io 5) quote.payment_hash m.db) m

  -- MeltTokens
  unfoldable pub melt_tokens : World lib → String → List Proof → Handler lib MeltQuote
  unfolding melt_pending
  melt_tokens w quote_id proofs = do
    (ys, quote) ← gets (check_melt lib w quote_id proofs)
    write (add_pending_proofs (y_of lib) (w.io 3) proofs quote.id)
    write (update_melt_quote (w.io 4) quote.id "" MeltState.pending)
    melt_pending w ys proofs (record quote { state = MeltState.pending })
