-- ===== src/Mint/MintTokens/Issued.antt =====
-- The steps of `MintTokens` on a paid quote, when they answer.
use mathlib.Core.Path.{subst}
use gonuts.Prelude.{
  ℕ, ◌≤◌, ◌≡◌, ◌≢◌, refl, sym, ap, ◌∙◌, inl, inr, String, not, some, List, [], ◌++◌, map, arith,
  ltb, is_empty,
}
use gonuts.Prelude.Keys.{IsDisjoint}
use gonuts.Errors.{
  Error, Result, ok, err, panic, >>=-eq-ok, ok_injective, return_if, duplicate_outputs,
  outputs_over_quote_amount, blinded_message_already_signed,
}
use gonuts.Library.{Library}
use gonuts.Cashu.{BlindedMessage, BlindedSignature, message_amounts, signature_amounts}
use gonuts.Cashu.Amounts.{amount_checked}
use gonuts.Cashu.Duplicates.{check_duplicate_blinded_messages}
use gonuts.Nuts.States.{MintState, mint_state_text}
use gonuts.Storage.{Db, MintQuote, MintQuoteRow, SignatureRow}
use gonuts.Storage.MintQuotes.{find_id, get_mint_quote, update_mint_quote_state}
use gonuts.Storage.MintQuotes.Laws.{update_mint_quote_state_ok, updated_row, get_mint_quote_row}
use gonuts.Storage.BlindSignatures.{
  b_s_of as row_b_s_of, rows_of, get_blind_signatures, save_blind_signatures,
}
use gonuts.Storage.BlindSignatures.Laws.{no_signature, save_blind_signatures-Saved}
use gonuts.Mint.{Mint, World, continue-eq-ok}
use gonuts.Mint.Outputs.{b_s_of}
use gonuts.Mint.Outputs.Signed.{Stored, sign_blinded_messages-Stored}
use gonuts.Mint.MintTokens.{
  get_mint_quote_state, restore, prepare_mint, finish_mint, issue, mint_by_state, mint_tokens,
}
use gonuts.Mint.MintTokens.Check.{check_mint, check_quote_signature}
use gonuts.Mint.MintTokens.Minted.{
  SameBooks, Refreshed, IsSettled, get_mint_quote_state-Refreshed, update_books,
}

module _ (lib : Library) (w : World lib) where
  open lib use {PublicKey}

  restore_ok :
      {A : Type 0}
      → (id : String) (s : MintState) (answer : Result A × Mint lib) (a : A) (m' : Mint lib)
      → restore lib w id s answer ≡ (ok a, m')
      → answer ≡ (ok a, m')
  unfolding restore
  restore_ok id s (ok b, m) a m' h = h
  restore_ok id s (panic, m) a m' h = h
  restore_ok id s (err e, m) a m' h =
      let (_, e1, h1) = continue-eq-ok (update_mint_quote_state (w.io 6) id s m.db).0 _ _ a m' h in
      cc

  -- The checks of a paid quote.
  record Checked (m : Mint lib) (q : MintQuote PublicKey) (messages : List BlindedMessage)
      (sig : String) (sigs : List BlindedSignature) : Type 0 where
    total : ℕ
    summed : amount_checked 0 (message_amounts messages) ≡ ok total
    covered : total ≤ q.amount
    unsigned : IsDisjoint (b_s_of messages) (row_b_s_of m.db.blind_signatures)
    authorised : check_quote_signature lib q.pubkey q.id messages sig ≡ ok tt
    stored : Stored lib messages sigs

  covered_lem :
      (e : Error) (total amount : ℕ) → return_if (ltb amount total) e ≡ ok tt → total ≤ amount
  covered_lem e total amount h = ground arith

  check_mint-Checked :
      (m : Mint lib) (q : MintQuote PublicKey) (messages : List BlindedMessage) (sig : String)
      (sigs : List BlindedSignature)
      → check_mint lib w q messages sig m ≡ ok sigs
      → Checked m q messages sig sigs
  unfolding check_mint
  check_mint-Checked m q messages sig sigs h =
      let (total, e1, h1) = >>=-eq-ok (amount_checked 0 (message_amounts messages)) _ h in
      let (_, e2, h2) =
        >>=-eq-ok (return_if (check_duplicate_blinded_messages messages) duplicate_outputs) _ h1 in
      let (_, e3, h3) = >>=-eq-ok (return_if (ltb q.amount total) outputs_over_quote_amount) _ h2 in
      let (signed, e4, h4) =
        >>=-eq-ok (get_blind_signatures (w.io 3) (b_s_of messages) m.db) _ h3 in
      let (_, e5, h5) =
        >>=-eq-ok (return_if (not (is_empty signed)) blinded_message_already_signed) _ h4 in
      let (_, e6, h6) = >>=-eq-ok (check_quote_signature lib q.pubkey q.id messages sig) _ h5 in
      record {
        total = total;
        summed = e1;
        covered = covered_lem _ total q.amount e3;
        unsigned = no_signature (w.io 3) (b_s_of messages) signed _ m.db e4 e5;
        authorised = e6;
        stored = sign_blinded_messages-Stored lib w m messages sigs h6;
      }

  prepare_mint_ok :
      (m m' : Mint lib) (q : MintQuote PublicKey) (messages : List BlindedMessage) (sig : String)
      (sigs : List BlindedSignature)
      → prepare_mint lib w q messages sig m ≡ (ok sigs, m')
      → SameBooks lib w m m m' × Checked m' q messages sig sigs
  unfolding prepare_mint
  prepare_mint_ok m m' q messages sig sigs h =
      let (_, e1, h1) =
        continue-eq-ok (update_mint_quote_state (w.io 2) q.id MintState.pending m.db).0 _ _ sigs m'
          h in
      let m1 : Mint lib = record m {
        db = (update_mint_quote_state (w.io 2) q.id MintState.pending m.db).1;
      } in
      let left : m1 ≡ m' = ap (λ r. r.1) h1 in
      subst (λ m'. SameBooks lib w m m m' × Checked m' q messages sig sigs) left
        (
          update_books lib w m (w.io 2) q.id MintState.pending m.db,
          check_mint-Checked m1 q messages sig sigs (ap (λ r. r.0) h1),
        )

  -- The books and the quote after the signatures are stored.
  abbrev Closed : Db → Db → List SignatureRow → String → Type 0
  Closed db db' srows id =
      (db'.blind_signatures ≡ db.blind_signatures ++ srows)
      × (db'.proofs ≡ db.proofs)
      × ((row : MintQuoteRow) × (find_id id db'.mint_quotes ≡ some row)
          × (row.state ≡ mint_state_text MintState.issued))

  finish_mint_ok :
      (m m' : Mint lib) (q : MintQuote PublicKey) (messages : List BlindedMessage)
      (sigs sigs' : List BlindedSignature) (srows : List SignatureRow)
      → rows_of (b_s_of messages) sigs ≡ ok srows
      → finish_mint lib w q messages sigs m ≡ (ok sigs', m')
      → (sigs ≡ sigs') × Closed m.db m'.db srows q.id
  unfolding finish_mint
  finish_mint_ok m m' q messages sigs sigs' srows stored h =
      let (_, e1, h1) =
        continue-eq-ok (update_mint_quote_state (w.io 4) q.id MintState.issued m.db).0 _ _ sigs' m'
          h in
      let (updated, once) = update_mint_quote_state_ok (w.io 4) q.id MintState.issued m.db e1 in
      let db1 : Db = (update_mint_quote_state (w.io 4) q.id MintState.issued m.db).1 in
      let (_, e2, h2) =
        continue-eq-ok (save_blind_signatures (w.io 5) (b_s_of messages) sigs db1).0 _ _ sigs' m'
          h1 in
      let left : (save_blind_signatures (w.io 5) (b_s_of messages) sigs db1).1 ≡ m'.db =
        ap (λ r. r.1.db) h2 in
      elim (save_blind_signatures-Saved srows db1 (w.io 5) (b_s_of messages) sigs stored) [
        | inr failed ↦ cc
        | inl (saved, _) ↦ (
          ok_injective (ap (λ r. r.0) h2),
          subst (λ db'. Closed m.db db' srows q.id) (sym (ap (λ r. r.1) saved) ∙ left)
              (subst
                (λ db1.
                  Closed m.db (record db1 { blind_signatures = db1.blind_signatures ++ srows })
                    srows q.id)
                (sym updated)
                (refl, refl, updated_row q.id MintState.issued m.db.mint_quotes once)),
        )
      ]

  -- What has happened when MintTokens answers some signatures.
  pub record Minted (m : Mint lib) (id : String) (messages : List BlindedMessage) (sig : String)
      (sigs : List BlindedSignature) (m' : Mint lib) : Type 0 where
    pub quote : MintQuote PublicKey
    pub found : get_mint_quote lib (w.io 0) id m.db ≡ ok quote
    pub settled : IsSettled lib w m quote
    pub total : ℕ
    pub summed : amount_checked 0 (message_amounts messages) ≡ ok total
    pub covered : total ≤ quote.amount
    pub unsigned : IsDisjoint (b_s_of messages) (row_b_s_of m.db.blind_signatures)
    pub authorised : check_quote_signature lib quote.pubkey id messages sig ≡ ok tt
    pub signed : signature_amounts sigs ≡ message_amounts messages
    pub srows : List SignatureRow
    pub keys : row_b_s_of srows ≡ b_s_of messages
    pub amounts : map (λ r. r.amount) srows ≡ message_amounts messages
    pub closed : Closed m.db m'.db srows id

  issue-Minted :
      (m m1 m' : Mint lib) (id : String) (q q' : MintQuote PublicKey)
      (messages : List BlindedMessage) (sig : String) (sigs : List BlindedSignature)
      → get_mint_quote lib (w.io 0) id m.db ≡ ok q
      → Refreshed lib w m q q' m1
      → q'.state ≡ MintState.paid
      → issue lib w q' messages sig m1 ≡ (ok sigs, m')
      → Minted m id messages sig sigs m'
  unfolding issue
  issue-Minted m m1 m' id q q' messages sig sigs found
        (same_id, same_amount, same_key, (signatures, proofs), settled) paid h =
      let first = restore lib w q'.id MintState.paid (prepare_mint lib w q' messages sig m1) in
      let (sigs0, e1, h1) = continue-eq-ok first.0 first.1 _ sigs m' h in
      let ((signatures2, proofs2), c) = prepare_mint_ok m1 first.1 q' messages sig sigs0 (
        restore_ok q'.id MintState.paid (prepare_mint lib w q' messages sig m1) sigs0 first.1
          (ap (λ r. (r, first.1)) e1)) in
      let (srows, rows, keys, amounts, sums) = c.stored in
      let (same, done) = finish_mint_ok first.1 m' q' messages sigs0 sigs srows rows (
        restore_ok q'.id MintState.issued (finish_mint lib w q' messages sigs0 first.1) sigs m'
          h1) in
      let (issued_rows, spent_rows, row) = done in
      let (_, _, _, same_as) = get_mint_quote_row lib (w.io 0) id m.db q found in
      let known : q'.id ≡ id = same_id ∙ same_as in
      record {
        quote = q;
        found = found;
        settled = settled paid;
        total = c.total;
        summed = c.summed;
        covered = rw (← same_amount) c.covered;
        unsigned =
            subst (IsDisjoint (b_s_of messages)) (ap row_b_s_of (signatures2 ∙ signatures))
              c.unsigned;
        authorised = rw (← known, ← same_key) c.authorised;
        signed = rw (← same) sums;
        srows = srows;
        keys = keys;
        amounts = amounts;
        closed = (
          issued_rows ∙ ap (λ rows. rows ++ srows) (signatures2 ∙ signatures),
          spent_rows ∙ proofs2 ∙ proofs,
          rw (← known) row,
        );
      }

  by_state-Minted :
      (m m1 m' : Mint lib) (id : String) (q q' : MintQuote PublicKey)
      (messages : List BlindedMessage) (sig : String) (sigs : List BlindedSignature) (s : MintState)
      → get_mint_quote lib (w.io 0) id m.db ≡ ok q
      → Refreshed lib w m q q' m1
      → q'.state ≡ s
      → sigs ≢ []
      → mint_by_state lib w q' messages sig s m1 ≡ (ok sigs, m')
      → Minted m id messages sig sigs m'
  unfolding mint_by_state
  by_state-Minted m m1 m' id q q' messages sig sigs MintState.unpaid found fresh e some_ h = cc
  by_state-Minted m m1 m' id q q' messages sig sigs MintState.issued found fresh e some_ h = cc
  by_state-Minted m m1 m' id q q' messages sig sigs MintState.pending found fresh e some_ h = cc
  by_state-Minted m m1 m' id q q' messages sig sigs MintState.paid found fresh e some_ h =
      issue-Minted m m1 m' id q q' messages sig sigs found fresh e h
  by_state-Minted m m1 m' id q q' messages sig sigs MintState.unknown found fresh e some_ h =
      absurd (some_ (sym (ok_injective (ap (λ r. r.0) h))))

  pub mint_tokens-Minted :
      (m m' : Mint lib) (id : String) (messages : List BlindedMessage) (sig : String)
      (sigs : List BlindedSignature)
      → sigs ≢ []
      → mint_tokens lib w id messages sig m ≡ (ok sigs, m')
      → Minted m id messages sig sigs m'
  unfolding mint_tokens
  mint_tokens-Minted m m' id messages sig sigs some_ h =
      let before = get_mint_quote_state lib w id m in
      let (q', e, h1) = continue-eq-ok before.0 before.1 _ sigs m' h in
      let (q, found, fresh) =
        get_mint_quote_state-Refreshed lib w m id q' before.1 (ap (λ r. (r, before.1)) e) in
      by_state-Minted m before.1 m' id q q' messages sig sigs q'.state found fresh refl some_ h1
