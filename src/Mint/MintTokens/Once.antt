-- ===== src/Mint/MintTokens/Once.antt =====
-- How much `MintTokens` signs for a quote, and that it does not sign again while the quote is ISSUED.
use gonuts.Prelude.{
  ◌+◌, ◌≤◌, ◌≡◌, ◌≢◌, refl, sym, ap, ◌∙◌, String, List, [], ◌++◌, map, arith, sum, All,
}
use gonuts.Prelude.Keys.{IsDisjoint}
use gonuts.Errors.{ok, err, mint_quote_already_issued}
use gonuts.Library.{Library}
use gonuts.Cashu.{BlindedMessage, BlindedSignature, message_amounts}
use gonuts.Nuts.States.{MintState, mint_state_text, mint_state_of, mint_state_of-text}
use gonuts.Storage.{Db, MintQuote, SignatureRow}
use gonuts.Storage.MintQuotes.{get_mint_quote, find_id}
use gonuts.Storage.MintQuotes.Laws.{get_mint_quote_row}
use gonuts.Storage.BlindSignatures.{b_s_of as row_b_s_of}
use gonuts.Mint.{Mint, World, continue-eq-ok}
use gonuts.Mint.Outputs.{b_s_of}
use gonuts.Mint.MintTokens.{refresh, get_mint_quote_state, mint_by_state, mint_tokens}
use gonuts.Mint.MintTokens.Check.{check_quote_signature}
use gonuts.Mint.MintTokens.Minted.{IsSettled, get_mint_quote_state-Refreshed}
use gonuts.Cashu.Amounts.{IsUint64}
use gonuts.Cashu.Totals.{amount_checked_ok}
use gonuts.Mint.Ledger.{issued, redeemed, issued-append}
use gonuts.Mint.MintTokens.Issued.{mint_tokens-Minted}

module _ (lib : Library) (w : World lib) where
  open lib use {PublicKey}

  minted_books :
      (db db' : Db) (srows : List SignatureRow)
      → db'.blind_signatures ≡ db.blind_signatures ++ srows
      → issued db' ≡ issued db + sum (map (λ r. r.amount) srows)
  unfolding issued
  minted_books db db' srows e = rw e (issued-append db srows)

  -- Where the amounts of the outputs are 64-bit numbers and MintTokens answers some signatures, the
  -- quote is stored, its invoice is paid by the stored state or by the answer of the backend, the
  -- signature that its key asks for is valid, no output was signed before, the ecash issued grows by
  -- the true sum of the outputs, which is at most the amount of the quote, and the ecash redeemed
  -- stays.
  pub mint_tokens-backed :
      (m m' : Mint lib) (id : String) (messages : List BlindedMessage) (sig : String)
      (sigs : List BlindedSignature)
      → All IsUint64 (message_amounts messages)
      → sigs ≢ []
      → mint_tokens lib w id messages sig m ≡ (ok sigs, m')
      → (q : MintQuote PublicKey) × (get_mint_quote lib (w.io 0) id m.db ≡ ok q)
        × IsSettled lib w m q
        × (check_quote_signature lib q.pubkey id messages sig ≡ ok tt)
        × IsDisjoint (b_s_of messages) (row_b_s_of m.db.blind_signatures)
        × (issued m'.db ≡ issued m.db + sum (message_amounts messages))
        × (sum (message_amounts messages) ≤ q.amount)
        × (redeemed m'.db ≡ redeemed m.db)
  unfolding redeemed
  mint_tokens-backed m m' id messages sig sigs small some_ h =
      let c = mint_tokens-Minted lib w m m' id messages sig sigs some_ h in
      let (signatures, proofs, _) = c.closed in
      let total = amount_checked_ok (message_amounts messages) c.total small c.summed in
      (
        c.quote,
        c.found,
        c.settled,
        c.authorised,
        c.unsigned,
        minted_books m.db m'.db c.srows signatures ∙ ap (λ xs. issued m.db + sum xs) c.amounts,
        omega (arith, total, c.covered),
        ap (λ rows. sum (map (λ r. r.amount) rows)) proofs,
      )

  -- On a quote whose stored state is ISSUED, MintTokens answers that, and changes nothing.
  pub mint_tokens-issued :
      (m : Mint lib) (id : String) (messages : List BlindedMessage) (sig : String)
      (q : MintQuote PublicKey)
      → get_mint_quote lib (w.io 0) id m.db ≡ ok q
      → q.state ≡ MintState.issued
      → mint_tokens lib w id messages sig m ≡ (err mint_quote_already_issued, m)
  unfolding mint_tokens get_mint_quote_state refresh mint_by_state
  mint_tokens-issued m id messages sig q found e = rw (found, e) refl

-- After a MintTokens that answers some signatures for a quote, MintTokens answers none for that quote
-- in any state, whatever else has happened in between, in which the stored row of the quote is still
-- the one that the first call left, whatever the outputs, the signature and the answers of the world
-- are.
pub mint_tokens-once :
    (lib : Library) (w w' : World lib) (m m' later m'' : Mint lib) (id : String)
    (messages messages' : List BlindedMessage) (sig sig' : String)
    (sigs sigs' : List BlindedSignature)
    → sigs ≢ []
    → mint_tokens lib w id messages sig m ≡ (ok sigs, m')
    → find_id id later.db.mint_quotes ≡ find_id id m'.db.mint_quotes
    → ¬ (mint_tokens lib w' id messages' sig' later ≡ (ok sigs', m''))
unfolding mint_tokens mint_state_text
mint_tokens-once lib w w' m m' later m'' id messages messages' sig sig' sigs sigs' some_ first kept
      second =
    let (_, _, (row, found, state)) =
      (mint_tokens-Minted lib w m m' id messages sig sigs some_ first).closed in
    let before = get_mint_quote_state lib w' id later in
    let (q', e, h1) = continue-eq-ok before.0 before.1 _ sigs' m'' second in
    let (q, stored, _) =
      get_mint_quote_state-Refreshed lib w' later id q' before.1 (ap (λ r. (r, before.1)) e) in
    let (row', found', state', _) = get_mint_quote_row lib (w'.io 0) id later.db q stored in
    let same : row.state ≡ row'.state = cc in
    let closed : q.state ≡ MintState.issued =
      state' ∙ ap mint_state_of (sym same ∙ state) ∙ mint_state_of-text MintState.issued in
    let refused = mint_tokens-issued lib w' later id messages' sig' q stored closed in
    let clash : (err mint_quote_already_issued, later) ≡ (ok sigs', m'') = sym refused ∙ second in
    cc
