-- ===== src/Mint/MintTokens/Failed.antt =====
-- The state in which a failing `MintTokens` leaves a paid quote.
use gonuts.Prelude.{◌≡◌, refl, ◌∙◌, inl, inr, String, true, List, [], arith, ltb, Bool-cases}
use gonuts.Errors.{Error, ok, err, panic, db_error}
use gonuts.Library.{Library}
use gonuts.Cashu.{BlindedMessage, BlindedSignature}
use gonuts.Cashu.Duplicates.{check_duplicate_blinded_messages}
use gonuts.Nuts.States.{MintState, mint_state_text}
use gonuts.Storage.{MintQuote}
use gonuts.Storage.MintQuotes.{count_id, get_mint_quote}
use gonuts.Storage.MintQuotes.Laws.{stated, update_mint_quote_state-once, count_id-set_state}
use gonuts.Storage.BlindSignatures.{get_blind_signatures, save_blind_signatures}
use gonuts.Mint.{Mint, World}
use gonuts.Mint.Outputs.{b_s_of}
use gonuts.Mint.MintTokens.{
  refresh, get_mint_quote_state, restore, prepare_mint, finish_mint, issue, mint_by_state,
  mint_tokens,
}
use gonuts.Mint.MintTokens.Check.{check_mint}
use gonuts.Cashu.Amounts.{amount_checked}

module _ (lib : Library) (w : World lib) (m : Mint lib) (id : String)
    (q : MintQuote lib.PublicKey) where
  -- The mint while the quote is PENDING, or with another state of it.
  abbrev pub marked : MintState → Mint lib
  marked s = record m { db = stated q.id s m.db }

  -- The query of a paid quote answers it as it is.
  paid_quote :
      (messages : List BlindedMessage) (sig : String)
      → get_mint_quote lib (w.io 0) id m.db ≡ ok q
      → q.state ≡ MintState.paid
      → mint_tokens lib w id messages sig m ≡ issue lib w q messages sig m
  unfolding mint_tokens get_mint_quote_state refresh mint_by_state
  paid_quote messages sig found e = rw (found, e) refl

  prepared :
      (messages : List BlindedMessage) (sig : String)
      → w.io 2 ≡ true
      → count_id q.id m.db.mint_quotes ≡ 1
      → prepare_mint lib w q messages sig m
        ≡ (check_mint lib w q messages sig (marked MintState.pending), marked MintState.pending)
  unfolding prepare_mint
  prepared messages sig works once =
      rw (update_mint_quote_state-once (w.io 2) q.id MintState.pending m.db works once) refl

  -- Where a paid quote is stored once and the updates of its state, to PENDING and back, work,
  -- MintTokens on outputs that the checks refuse with an error answers that error, and leaves the
  -- quote set to PENDING and then to PAID, and nothing else changed.
  pub mint_tokens-refused :
      (messages : List BlindedMessage) (sig : String) (e : Error)
      → get_mint_quote lib (w.io 0) id m.db ≡ ok q
      → q.state ≡ MintState.paid
      → count_id q.id m.db.mint_quotes ≡ 1
      → w.io 2 ≡ true
      → w.io 6 ≡ true
      → check_mint lib w q messages sig (marked MintState.pending) ≡ err e
      → mint_tokens lib w id messages sig m
        ≡ (err e, record m { db = stated q.id MintState.paid (stated q.id MintState.pending m.db) })
  unfolding issue restore
  mint_tokens-refused messages sig e found paid once works works' refused =
      let again =
        update_mint_quote_state-once (w.io 6) q.id MintState.paid
          (stated q.id MintState.pending m.db) works'
          (count_id-set_state q.id (mint_state_text MintState.pending) m.db.mint_quotes ∙ once) in
      paid_quote messages sig found paid
      ∙ rw (prepared messages sig works once, refused, again) refl

  -- On a paid quote that is stored once, where the update works, MintTokens without outputs panics
  -- and leaves the quote in state PENDING.
  pub mint_tokens-no_outputs :
      (sig : String)
      → get_mint_quote lib (w.io 0) id m.db ≡ ok q
      → q.state ≡ MintState.paid
      → count_id q.id m.db.mint_quotes ≡ 1
      → w.io 2 ≡ true
      → mint_tokens lib w id [] sig m ≡ (panic, marked MintState.pending)
  unfolding issue restore check_mint amount_checked check_duplicate_blinded_messages
      get_blind_signatures
  mint_tokens-no_outputs sig found paid once works = elim (Bool-cases (ltb q.amount 0)) [
    | inl negative ↦ ground arith
    | inr fits ↦ paid_quote [] sig found paid ∙ rw (prepared [] sig works once, fits) refl
  ]

  -- Where a paid quote is stored once, the updates of its state work, the checks pass and
  -- SaveBlindSignatures then fails, MintTokens answers an error, stores no signature and leaves the
  -- quote set to ISSUED.
  pub mint_tokens-loses_quote :
      (messages : List BlindedMessage) (sig : String) (sigs : List BlindedSignature)
      → get_mint_quote lib (w.io 0) id m.db ≡ ok q
      → q.state ≡ MintState.paid
      → count_id q.id m.db.mint_quotes ≡ 1
      → w.io 2 ≡ true
      → w.io 4 ≡ true
      → w.io 6 ≡ true
      → check_mint lib w q messages sig (marked MintState.pending) ≡ ok sigs
      → save_blind_signatures
          (w.io 5)
          (b_s_of messages)
          sigs
          (stated q.id MintState.issued (stated q.id MintState.pending m.db))
        ≡ (err db_error, stated q.id MintState.issued (stated q.id MintState.pending m.db))
      → mint_tokens lib w id messages sig m ≡ (
        err db_error,
        record m {
          db =
              stated q.id MintState.issued
                (stated q.id MintState.issued (stated q.id MintState.pending m.db));
        },
      )
  unfolding issue restore finish_mint
  mint_tokens-loses_quote messages sig sigs found paid once works works' works'' passed failed =
      let pending_once =
        count_id-set_state q.id (mint_state_text MintState.pending) m.db.mint_quotes ∙ once in
      let issued_db = stated q.id MintState.issued (stated q.id MintState.pending m.db) in
      let issue_ =
        update_mint_quote_state-once (w.io 4) q.id MintState.issued
          (stated q.id MintState.pending m.db) works' pending_once in
      let again = update_mint_quote_state-once (w.io 6) q.id MintState.issued issued_db works'' (
        count_id-set_state q.id (mint_state_text MintState.issued)
          (stated q.id MintState.pending m.db).mint_quotes
        ∙ pending_once) in
      paid_quote messages sig found paid
      ∙ rw (prepared messages sig works once, passed, issue_, failed, again) refl
