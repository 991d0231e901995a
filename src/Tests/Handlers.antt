-- ===== src/Tests/Handlers.antt =====
-- Runs of Swap, MintTokens and MeltTokens, and the theorems about them at these runs.
use gonuts.Prelude.{
  none, ℕ, ◌+◌, ◌≤◌, ◌≡◌, refl, String, true, List, [], ◌∷◌, ◌++◌, arith, sum, IsDistinct,
}
use gonuts.Prelude.Keys.{IsDisjoint}
use gonuts.Errors.{ok, err, panic, db_error, outputs_over_quote_amount, insufficient_proofs_amount}
use gonuts.Cashu.{BlindedSignature, message_amounts}
use gonuts.Nuts.States.{MintState, MeltState}
use gonuts.Storage.{SignatureRow, DbProof, MintQuote, MeltQuote}
use gonuts.Storage.Proofs.{ys_of}
use gonuts.Storage.BlindSignatures.{b_s_of as row_b_s_of}
use gonuts.Storage.MintQuotes.{get_mint_quote, update_mint_quote_state, find_id}
use gonuts.Storage.MintQuotes.Laws.{stated, get_mint_quote-update_mint_quote_state}
use gonuts.Mint.{Mint}
use gonuts.Mint.Ledger.{issued, redeemed}
use gonuts.Mint.Proofs.{ys_of_proofs, transaction_fees, verify_each}
use gonuts.Mint.Proofs.Checked.{Unspent}
use gonuts.Mint.Outputs.{b_s_of}
use gonuts.Mint.Swap.{swap}
use gonuts.Mint.Outputs.Made.{AreSigned}
use gonuts.Mint.Swap.Books.{swap-conserves, swap-spends, swap-signs, swap-no_double_spend}
use gonuts.Mint.Swap.Refused.{swap-error-unchanged, swap-same_outputs-burns_inputs}
use gonuts.Mint.MintTokens.{mint_tokens}
use gonuts.Mint.MintTokens.Once.{mint_tokens-backed, mint_tokens-once}
use gonuts.Mint.MintTokens.Failed.{
  mint_tokens-refused, mint_tokens-no_outputs, mint_tokens-loses_quote,
}
use gonuts.Mint.Melt.Outcomes.{Accepted, Ends, melt_tokens-settles}
use gonuts.Mint.MintTokens.Minted.{IsSettled}
use gonuts.Mint.MintTokens.Check.{check_quote_signature}
use gonuts.Mint.Melt.Request.{request_melt_quote-get_melt_quote}
use gonuts.Mint.Melt.Request.Check.{new_melt_quote}
use gonuts.Storage.MeltQuotes.{get_melt_quote}
use gonuts.Mint.DoubleSpend.{melt_tokens-blocks-swap}
use gonuts.Tests.Values.{mint_quote, toy, working, fresh, output, outputs, quoted, melting}
use gonuts.Tests.Runs.{
  or_nothing, coins, swapped, same_outputs, same_sigs, spent_db, minted, paid_quote, while_pending,
  failing, lost_sigs, melted, after_melt, asked, after_asking, runs, minted_some,
}

abbrev swapped_sigs : List BlindedSignature
swapped_sigs = or_nothing swapped.0

abbrev after_swap : Mint toy
after_swap = swapped.1

swap-conserves_example :
    (issued after_swap.db + transaction_fees fresh coins) + redeemed fresh.db
    ≤ issued fresh.db + redeemed after_swap.db
swap-conserves_example =
    swap-conserves toy working coins outputs fresh swapped_sigs after_swap
      (omega arith, (omega arith, tt)) runs.swapped_run

swap-spends_example :
    (ys : List String) × (ys_of_proofs toy coins ≡ ok ys)
    × (verify_each toy working fresh coins ≡ ok tt)
    × Unspent toy fresh.db ys
    × IsDistinct ys
    × (ys_of after_swap.db.proofs ≡ ys_of fresh.db.proofs ++ ys)
swap-spends_example =
    swap-spends toy working coins outputs fresh swapped_sigs after_swap runs.swapped_run

swap-signs_example :
    (rows : List SignatureRow) × (after_swap.db.blind_signatures
      ≡ fresh.db.blind_signatures ++ rows)
    × IsDisjoint (b_s_of outputs) (row_b_s_of fresh.db.blind_signatures)
    × AreSigned toy fresh outputs swapped_sigs rows
swap-signs_example =
    swap-signs toy working coins outputs fresh swapped_sigs after_swap runs.swapped_run

-- The same proof again, for other outputs.
swap-no_double_spend_example :
    ¬ (swap toy working coins (output 1 "c" ∷ []) after_swap ≡ (ok [], fresh))
swap-no_double_spend_example =
    swap-no_double_spend toy working working coins coins outputs (output 1 "c" ∷ []) fresh
      after_swap fresh swapped_sigs [] "1" ("1" ∷ []) ("1" ∷ []) runs.coin_points runs.coin_points
      refl refl runs.swapped_run

swap-error-unchanged_example : fresh ≡ fresh
swap-error-unchanged_example =
    swap-error-unchanged toy working coins (output 4 "a" ∷ []) fresh insufficient_proofs_amount
      fresh (refl, tt) refl runs.over_run

swap-same_outputs-burns_inputs_example :
    (ys : List String) × (rows : List DbProof) × (ys_of_proofs toy coins ≡ ok ys)
    × (ys_of rows ≡ ys)
    × (swap toy working coins same_outputs fresh ≡ (
      err db_error,
      record fresh { db = record fresh.db { proofs = fresh.db.proofs ++ rows } },
    ))
swap-same_outputs-burns_inputs_example =
    swap-same_outputs-burns_inputs toy working coins same_outputs fresh same_sigs spent_db
      runs.same_checked runs.same_saved (λ distinct. cc distinct.0)

abbrev minted_sigs : List BlindedSignature
minted_sigs = or_nothing minted.0

mint_tokens-backed_example :
    (q : MintQuote ℕ) × (get_mint_quote toy true "quote" (quoted "UNPAID").db ≡ ok q)
    × IsSettled toy working (quoted "UNPAID") q
    × (check_quote_signature toy q.pubkey "quote" outputs "" ≡ ok tt)
    × IsDisjoint (b_s_of outputs) (row_b_s_of (quoted "UNPAID").db.blind_signatures)
    × (issued minted.1.db ≡ issued (quoted "UNPAID").db + sum (message_amounts outputs))
    × (sum (message_amounts outputs) ≤ q.amount)
    × (redeemed minted.1.db ≡ redeemed (quoted "UNPAID").db)
mint_tokens-backed_example =
    mint_tokens-backed toy working (quoted "UNPAID") minted.1 "quote" outputs "" minted_sigs
      (omega arith, (omega arith, tt)) minted_some runs.minted_run

-- The mint after the call, with another quote in front.
abbrev minted_then : Mint toy
minted_then = record minted.1 {
  db = record minted.1.db {
    mint_quotes =
        record (mint_quote "UNPAID") { id = "other"; payment_hash = "other" }
        ∷ minted.1.db.mint_quotes;
  };
}

quote_kept : find_id "quote" minted_then.db.mint_quotes ≡ find_id "quote" minted.1.db.mint_quotes
unfolding find_id
quote_kept = refl

mint_tokens-once_example :
    ¬ (mint_tokens toy working "quote" (output 3 "c" ∷ []) "" minted_then ≡ (ok [], minted.1))
mint_tokens-once_example =
    mint_tokens-once toy working working (quoted "UNPAID") minted.1 minted_then minted.1 "quote"
      outputs (output 3 "c" ∷ []) "" "" minted_sigs [] minted_some runs.minted_run quote_kept

mint_tokens-refused_example :
    mint_tokens toy working "quote" (output 4 "a" ∷ []) "" (quoted "PAID") ≡ (
      err outputs_over_quote_amount,
      record (quoted "PAID") {
        db = stated "quote" MintState.paid (stated "quote" MintState.pending (quoted "PAID").db);
      },
    )
mint_tokens-refused_example =
    mint_tokens-refused toy working (quoted "PAID") "quote" paid_quote (output 4 "a" ∷ []) ""
      outputs_over_quote_amount runs.paid_found refl runs.quote_once refl refl runs.over_checked

mint_tokens-no_outputs_example :
    mint_tokens toy working "quote" [] "" (quoted "PAID") ≡ (panic, while_pending)
mint_tokens-no_outputs_example =
    mint_tokens-no_outputs toy working (quoted "PAID") "quote" paid_quote "" runs.paid_found refl
      runs.quote_once refl

mint_tokens-loses_quote_example : mint_tokens toy failing "quote" outputs "" (quoted "PAID") ≡ (
  err db_error,
  record (quoted "PAID") {
    db =
        stated "quote" MintState.issued
          (stated "quote" MintState.issued (stated "quote" MintState.pending (quoted "PAID").db));
  },
)
mint_tokens-loses_quote_example =
    mint_tokens-loses_quote toy failing (quoted "PAID") "quote" paid_quote outputs "" lost_sigs
      runs.paid_found refl runs.quote_once refl refl refl runs.lost_checked runs.lost_saved

melt_tokens-settles_example :
    (ys : List String) × (quote : MeltQuote) × Accepted toy working melting "melt" coins ys quote
    × Ends toy working melting "melt" coins ys melted after_melt.db
melt_tokens-settles_example =
    melt_tokens-settles toy working melting "melt" coins melted after_melt runs.melted_run

melted_not_unpaid : ¬ (melted.state ≡ MeltState.unpaid)
melted_not_unpaid e = cc (runs.melted_state, e)

melt_tokens-blocks-swap_example : ¬ (swap toy working coins outputs after_melt ≡ (ok [], fresh))
melt_tokens-blocks-swap_example =
    melt_tokens-blocks-swap toy working working melting after_melt fresh "melt" melted coins coins
      outputs [] "1" ("1" ∷ []) ("1" ∷ []) runs.coin_points runs.coin_points refl refl
      runs.melted_run melted_not_unpaid

get_mint_quote-update_mint_quote_state_example :
    get_mint_quote toy true "quote"
      (update_mint_quote_state true "quote" MintState.issued (quoted "PAID").db).1
    ≡ ok (record paid_quote { state = MintState.issued })
get_mint_quote-update_mint_quote_state_example =
    get_mint_quote-update_mint_quote_state toy "quote" MintState.issued (quoted "PAID").db
      paid_quote runs.paid_found

request_melt_quote-get_melt_quote_example :
    (new_melt_quote toy working "lnbc9" "sat" none melting ≡ ok asked)
    × (get_melt_quote true asked.id after_asking.db ≡ ok asked)
request_melt_quote-get_melt_quote_example =
    request_melt_quote-get_melt_quote toy working "lnbc9" "sat" none melting after_asking asked
      runs.asked_run
