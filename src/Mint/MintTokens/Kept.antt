-- ===== src/Mint/MintTokens/Kept.antt =====
-- `RequestMintQuote`, `GetMintQuoteState` and `MintTokens` move the database on.
use gonuts.Prelude.{ℕ, ◌+◌, String, List, Bool-cases, inl, inr}
use gonuts.Errors.{Result, ok, err, panic, lightning_backend_error, standard}
use gonuts.Library.{Library}
use gonuts.Cashu.{BlindedMessage, BlindedSignature}
use gonuts.Nuts.States.{MintState}
use gonuts.Storage.{MintQuote, Db}
use gonuts.Storage.Later.{Later, Later-trans}
use gonuts.Mint.{Mint, World, Handler, Invoice, bolt11_mint_quote, require}
use gonuts.Mint.MintTokens.Check.{check_quote_request}
use gonuts.Mint.Kept.{
  Keeps, Keeps->>=, Keeps->>, Keeps-gets, Keeps-pure, Keeps-raise, Keeps-publish,
}
use gonuts.Mint.Kept.Writes.{
  Keeps-update_mint_quote_state, Keeps-save_mint_quote, Keeps-save_blind_signatures,
}
use gonuts.Mint.Outputs.{b_s_of}
use gonuts.Mint.MintTokens.{
  request_mint_quote, mark_paid, refresh, get_mint_quote_state, restore, prepare_mint, finish_mint,
  issue, mint_by_state, mint_tokens,
}

module _ (lib : Library) (w : World lib) where
  pub request_mint_quote-Keeps :
      (amount : ℕ) (unit pubkey : String) → Keeps (request_mint_quote lib w amount unit pubkey)
  unfolding request_mint_quote
  request_mint_quote-Keeps amount unit pubkey =
      Keeps->>= _ _ (Keeps-gets (check_quote_request lib w amount unit pubkey)) (λ key.
        Keeps->>= _ _ (Keeps-gets (λ m. require lightning_backend_error (w.create_invoice amount)))
          (λ invoice. Keeps->>= _ _ (Keeps-gets (λ m. require standard w.random_quote_id)) (λ id.
            let quote : MintQuote lib.PublicKey = record {
              id = id;
              amount = amount;
              payment_request = invoice.payment_request;
              payment_hash = invoice.payment_hash;
              state = MintState.unpaid;
              expiry = w.now + invoice.expiry;
              pubkey = key;
            } in
            Keeps->> _ _ (Keeps-save_mint_quote lib (w.io 2) quote) (Keeps-pure quote))))

  mark_paid-Keeps :
      (quote : MintQuote lib.PublicKey) (status : Invoice) → Keeps (mark_paid lib w quote status)
  unfolding mark_paid
  mark_paid-Keeps quote status = elim (Bool-cases status.settled) [
    | inl settled ↦
        rw (settled, mark_paid)
          (Keeps->> _ _ (Keeps-update_mint_quote_state lib (w.io 1) quote.id MintState.paid) (
            Keeps->> _ _ (Keeps-publish (bolt11_mint_quote quote.id MintState.paid))
              (Keeps-pure _)))
    | inr open_still ↦ rw (open_still, mark_paid) (Keeps-pure quote)
  ]

  refresh-Keeps :
      (quote : MintQuote lib.PublicKey) (state : MintState) → Keeps (refresh lib w quote state)
  unfolding refresh
  refresh-Keeps quote MintState.unpaid = Keeps->>= _ _ (Keeps-gets _) (mark_paid-Keeps quote)
  refresh-Keeps quote MintState.paid = Keeps-pure quote
  refresh-Keeps quote MintState.issued = Keeps-pure quote
  refresh-Keeps quote MintState.pending = Keeps-pure quote
  refresh-Keeps quote MintState.unknown = Keeps-pure quote

  pub get_mint_quote_state-Keeps : (id : String) → Keeps (get_mint_quote_state lib w id)
  unfolding get_mint_quote_state
  get_mint_quote_state-Keeps id =
      Keeps->>= _ _ (Keeps-gets _) (λ quote. refresh-Keeps quote quote.state)

  restore-Later :
      {A : Type 0} (id : String) (state : MintState) (db : Db) (r : Result A) (m : Mint lib)
      → Later db m.db
      → Later db (restore lib w id state (r, m)).1.db
  unfolding restore
  restore-Later id state db (ok a) m l = l
  restore-Later id state db panic m l = l
  restore-Later id state db (err e) m l =
      Later-trans l (
        (Keeps->> _ _ (Keeps-update_mint_quote_state lib (w.io 6) id state) (Keeps-raise e)).moves
          m)

  restore-Keeps :
      {A : Type 0} (id : String) (state : MintState) (h : Handler lib A)
      → Keeps h
      → Keeps (λ m. restore lib w id state (h m))
  restore-Keeps id state h kept = record {
    moves = λ m. restore-Later id state m.db (h m).0 (h m).1 (kept.moves m);
  }

  prepare_mint-Keeps :
      (quote : MintQuote lib.PublicKey) (messages : List BlindedMessage) (sig : String)
      → Keeps (prepare_mint lib w quote messages sig)
  unfolding prepare_mint
  prepare_mint-Keeps quote messages sig =
      Keeps->> _ _ (Keeps-update_mint_quote_state lib (w.io 2) quote.id MintState.pending)
        (Keeps-gets _)

  finish_mint-Keeps :
      (quote : MintQuote lib.PublicKey) (messages : List BlindedMessage)
      (sigs : List BlindedSignature)
      → Keeps (finish_mint lib w quote messages sigs)
  unfolding finish_mint
  finish_mint-Keeps quote messages sigs =
      Keeps->> _ _ (Keeps-update_mint_quote_state lib (w.io 4) quote.id MintState.issued) (
        Keeps->> _ _ (Keeps-save_blind_signatures lib (w.io 5) (b_s_of messages) sigs) (
          Keeps->> _ _ (Keeps-publish (bolt11_mint_quote quote.id MintState.issued))
            (Keeps-pure sigs)))

  issue-Keeps :
      (quote : MintQuote lib.PublicKey) (messages : List BlindedMessage) (sig : String)
      → Keeps (issue lib w quote messages sig)
  unfolding issue
  issue-Keeps quote messages sig =
      Keeps->>= _ _
        (restore-Keeps quote.id MintState.paid _ (prepare_mint-Keeps quote messages sig))
        (λ sigs. restore-Keeps quote.id MintState.issued _ (finish_mint-Keeps quote messages sigs))

  mint_by_state-Keeps :
      (quote : MintQuote lib.PublicKey) (messages : List BlindedMessage) (sig : String)
      (state : MintState)
      → Keeps (mint_by_state lib w quote messages sig state)
  unfolding mint_by_state
  mint_by_state-Keeps quote messages sig MintState.unpaid = Keeps-raise _
  mint_by_state-Keeps quote messages sig MintState.issued = Keeps-raise _
  mint_by_state-Keeps quote messages sig MintState.pending = Keeps-raise _
  mint_by_state-Keeps quote messages sig MintState.paid = issue-Keeps quote messages sig
  mint_by_state-Keeps quote messages sig MintState.unknown = Keeps-pure _

  pub mint_tokens-Keeps :
      (id : String) (messages : List BlindedMessage) (sig : String)
      → Keeps (mint_tokens lib w id messages sig)
  unfolding mint_tokens
  mint_tokens-Keeps id messages sig =
      Keeps->>= _ _ (get_mint_quote_state-Keeps id)
        (λ quote. mint_by_state-Keeps quote messages sig quote.state)
