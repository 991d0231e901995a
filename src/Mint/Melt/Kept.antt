-- ===== src/Mint/Melt/Kept.antt =====
-- `RequestMeltQuote`, `GetMeltQuoteState` and `MeltTokens` move the database on.
use gonuts.Prelude.{ℕ, String, Bool, true, false, Option, none, some, List, map}
use gonuts.Errors.{Result, ok, err, panic, quote_not_exist, lightning_backend_error}
use gonuts.Library.{Library}
use gonuts.Cashu.{Proof}
use gonuts.Nuts.States.{MintState, MeltState}
use gonuts.Storage.{MintQuote, MeltQuote}
use gonuts.Storage.Proofs.{ys_of, get_pending_proofs_by_quote}
use gonuts.Storage.MeltQuotes.{get_melt_quote}
use gonuts.Storage.Later.{Later-refl}
use gonuts.Mint.{World, PaymentStatus, PaymentState, Outgoing, bolt11_mint_quote, or_error, require}
use gonuts.Mint.Kept.{
  Keeps, Keeps->>=, Keeps->>, Keeps-gets, Keeps-pure, Keeps-publish, Keeps-record_payment,
  publish_spent-Keeps,
}
use gonuts.Mint.Kept.Writes.{
  Keeps-save_proofs, Keeps-add_pending_proofs, Keeps-remove_pending_proofs,
  Keeps-update_mint_quote_state, Keeps-update_melt_quote, Keeps-save_melt_quote,
}
use gonuts.Mint.Melt.{
  proof_of_row, remove_pending_proofs_for_quote, poll_outcome, poll, poll_if_pending,
  get_melt_quote_state, settle_quotes_internally, settle_proofs, paid, unpaid, checked_outcome,
  check_failed, payment_outcome, after_payment, pay_by, pay, melt_internally, melt_with,
  melt_pending, melt_tokens,
}
use gonuts.Mint.Melt.Check.{check_melt}
use gonuts.Mint.Melt.Request.{request_melt_quote}
use gonuts.Mint.Melt.Request.Check.{new_melt_quote}

module _ (lib : Library) (w : World lib) where
  pub request_melt_quote-Keeps :
      (request unit : String) (mpp : Option ℕ) → Keeps (request_melt_quote lib w request unit mpp)
  unfolding request_melt_quote
  request_melt_quote-Keeps request unit mpp =
      Keeps->>= _ _ (Keeps-gets (new_melt_quote lib w request unit mpp))
        (λ quote. Keeps->> _ _ (Keeps-save_melt_quote lib (w.io 2) quote) (Keeps-pure quote))

  remove_pending_proofs_for_quote-Keeps :
      (id : String) → Keeps (remove_pending_proofs_for_quote lib w id)
  unfolding remove_pending_proofs_for_quote
  remove_pending_proofs_for_quote-Keeps id =
      Keeps->>= _ _ (Keeps-gets (λ m. get_pending_proofs_by_quote (w.io 1) id m.db)) (λ rows.
        Keeps->> _ _ (Keeps-remove_pending_proofs lib (w.io 2) (ys_of rows))
          (Keeps-pure (map proof_of_row rows)))

  poll_outcome-Keeps :
      (quote : MeltQuote) (status : PaymentStatus) (state : PaymentState)
      → Keeps (poll_outcome lib w quote status state)
  unfolding poll_outcome
  poll_outcome-Keeps quote status PaymentState.succeeded =
      Keeps->>= _ _ (remove_pending_proofs_for_quote-Keeps quote.id) (λ proofs.
        Keeps->> _ _ (Keeps-save_proofs lib (w.io 3) proofs) (
          Keeps->> _ _
            (Keeps-update_melt_quote lib (w.io 4) quote.id status.preimage MeltState.paid)
            (Keeps->> _ _ (publish_spent-Keeps lib proofs) (Keeps-pure _))))
  poll_outcome-Keeps quote status PaymentState.failed =
      Keeps->> _ _ (Keeps-update_melt_quote lib (w.io 3) quote.id "" MeltState.unpaid)
        (Keeps->>= _ _ (remove_pending_proofs_for_quote-Keeps quote.id) (λ proofs. Keeps-pure _))
  poll_outcome-Keeps quote status PaymentState.pending = Keeps-pure quote

  poll-Keeps : (quote : MeltQuote) (outgoing : Outgoing) → Keeps (poll lib w quote outgoing)
  unfolding poll
  poll-Keeps quote (Outgoing.found status) = poll_outcome-Keeps quote status status.payment_status
  poll-Keeps quote Outgoing.not_found = Keeps-pure quote
  poll-Keeps quote Outgoing.other_error = Keeps-pure quote

  poll_if_pending-Keeps :
      (quote : MeltQuote) (state : MeltState) → Keeps (poll_if_pending lib w quote state)
  unfolding poll_if_pending
  poll_if_pending-Keeps quote MeltState.pending =
      poll-Keeps quote (w.outgoing_payment_status quote.payment_hash)
  poll_if_pending-Keeps quote MeltState.unpaid = Keeps-pure quote
  poll_if_pending-Keeps quote MeltState.paid = Keeps-pure quote
  poll_if_pending-Keeps quote MeltState.unknown = Keeps-pure quote

  pub get_melt_quote_state-Keeps : (id : String) → Keeps (get_melt_quote_state lib w id)
  unfolding get_melt_quote_state
  get_melt_quote_state-Keeps id =
      Keeps->>= _ _ (Keeps-gets (λ m. or_error quote_not_exist (get_melt_quote (w.io 0) id m.db)))
        (λ quote. poll_if_pending-Keeps quote quote.state)

  settle_quotes_internally-Keeps :
      (mint_quote : MintQuote lib.PublicKey) (quote : MeltQuote)
      → Keeps (settle_quotes_internally lib w mint_quote quote)
  unfolding settle_quotes_internally
  settle_quotes_internally-Keeps mint_quote quote =
      Keeps->>= _ _
        (Keeps-gets
          (λ m. require lightning_backend_error (w.invoice_status mint_quote.payment_hash)))
        (λ invoice.
          Keeps->> _ _
            (Keeps-update_melt_quote lib (w.io 6) quote.id invoice.preimage MeltState.paid)
            (Keeps->> _ _ (Keeps-update_mint_quote_state lib (w.io 7) mint_quote.id MintState.paid)
              (Keeps->> _ _ (Keeps-publish (bolt11_mint_quote mint_quote.id MintState.paid))
                (Keeps-pure _))))

  module _ (ys : List String) (proofs : List Proof) where
    settle_proofs-Keeps : Keeps (settle_proofs lib w ys proofs)
    unfolding settle_proofs
    settle_proofs-Keeps =
        Keeps->> _ _ (Keeps-remove_pending_proofs lib (w.io 8) ys)
          (Keeps->> _ _ (Keeps-save_proofs lib (w.io 9) proofs) (publish_spent-Keeps lib proofs))

    paid-Keeps :
        (quote : MeltQuote) (preimage : String) → Keeps (paid lib w ys proofs quote preimage)
    unfolding paid
    paid-Keeps quote preimage = Keeps->> _ _ settle_proofs-Keeps (
        Keeps->> _ _ (Keeps-update_melt_quote lib (w.io 10) quote.id preimage MeltState.paid)
          (Keeps-pure _))

    unpaid-Keeps : (quote : MeltQuote) → Keeps (unpaid lib w ys quote)
    unfolding unpaid
    unpaid-Keeps quote =
        Keeps->> _ _ (Keeps-update_melt_quote lib (w.io 8) quote.id "" MeltState.unpaid)
          (Keeps->> _ _ (Keeps-remove_pending_proofs lib (w.io 9) ys) (Keeps-pure _))

    checked_outcome-Keeps :
        (quote : MeltQuote) (status : PaymentStatus) (state : PaymentState)
        → Keeps (checked_outcome lib w ys proofs quote status state)
    unfolding checked_outcome
    checked_outcome-Keeps quote status PaymentState.failed = unpaid-Keeps quote
    checked_outcome-Keeps quote status PaymentState.succeeded = paid-Keeps quote status.preimage
    checked_outcome-Keeps quote status PaymentState.pending = Keeps-pure quote

    check_failed-Keeps :
        (quote : MeltQuote) (outgoing : Outgoing)
        → Keeps (check_failed lib w ys proofs quote outgoing)
    unfolding check_failed
    check_failed-Keeps quote Outgoing.not_found = unpaid-Keeps quote
    check_failed-Keeps quote Outgoing.other_error = Keeps-pure quote
    check_failed-Keeps quote (Outgoing.found status) =
        checked_outcome-Keeps quote status status.payment_status

    payment_outcome-Keeps :
        (quote : MeltQuote) (status : PaymentStatus) (state : PaymentState)
        → Keeps (payment_outcome lib w ys proofs quote status state)
    unfolding payment_outcome
    payment_outcome-Keeps quote status PaymentState.succeeded = paid-Keeps quote status.preimage
    payment_outcome-Keeps quote status PaymentState.pending = Keeps-pure quote
    payment_outcome-Keeps quote status PaymentState.failed =
        check_failed-Keeps quote (w.outgoing_payment_status quote.payment_hash)

    after_payment-Keeps :
        (quote : MeltQuote) (answered : Option PaymentStatus)
        → Keeps (after_payment lib w ys proofs quote answered)
    unfolding after_payment
    after_payment-Keeps quote none =
        check_failed-Keeps quote (w.outgoing_payment_status quote.payment_hash)
    after_payment-Keeps quote (some status) =
        payment_outcome-Keeps quote status status.payment_status

    pay_by-Keeps : (quote : MeltQuote) (is_mpp : Bool) → Keeps (pay_by lib w ys proofs quote is_mpp)
    unfolding pay_by
    pay_by-Keeps quote true = Keeps->> _ _ (Keeps-record_payment _) (after_payment-Keeps quote _)
    pay_by-Keeps quote false = Keeps->> _ _ (Keeps-record_payment _) (after_payment-Keeps quote _)

    melt_internally-Keeps :
        (quote : MeltQuote) (mint_quote : MintQuote lib.PublicKey)
        → Keeps (melt_internally lib w ys proofs quote mint_quote)
    unfolding melt_internally
    melt_internally-Keeps quote mint_quote =
        Keeps->>= _ _ (settle_quotes_internally-Keeps mint_quote quote)
          (λ quote'. Keeps->> _ _ settle_proofs-Keeps (Keeps-pure quote'))

    melt_with-Keeps :
        (quote : MeltQuote) (same : Result (MintQuote lib.PublicKey))
        → Keeps (melt_with lib w ys proofs quote same)
    unfolding melt_with pay
    melt_with-Keeps quote (ok mint_quote) = record {
      moves = λ m. (melt_internally-Keeps quote mint_quote).moves m;
    }
    melt_with-Keeps quote (err e) = record {
      moves = λ m. (pay_by-Keeps quote quote.is_mpp).moves m;
    }
    melt_with-Keeps quote panic = record { moves = λ m. Later-refl m.db }

    melt_pending-Keeps : (quote : MeltQuote) → Keeps (melt_pending lib w ys proofs quote)
    unfolding melt_pending
    melt_pending-Keeps quote = record { moves = λ m. (melt_with-Keeps quote _).moves m }

  pub melt_tokens-Keeps : (id : String) (proofs : List Proof) → Keeps (melt_tokens lib w id proofs)
  unfolding melt_tokens
  melt_tokens-Keeps id proofs = Keeps->>= _ _ (Keeps-gets (check_melt lib w id proofs)) (λ passed.
      Keeps->> _ _ (Keeps-add_pending_proofs lib (w.io 3) proofs passed.1.id) (
        Keeps->> _ _ (Keeps-update_melt_quote lib (w.io 4) passed.1.id "" MeltState.pending)
          (melt_pending-Keeps passed.0 proofs _)))
