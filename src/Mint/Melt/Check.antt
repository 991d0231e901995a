-- ===== src/Mint/Melt/Check.antt =====
-- mint/mint.go: the part of `MeltTokens` before its first write.
use gonuts.Prelude.{ℕ, ◌+◌, ◌%◌, String, List, ltb, u64_mod}
use gonuts.Errors.{
  Result, ok, err, ◌>>=◌, ◌>>◌, return_if, quote_not_exist, melt_quote_already_paid, quote_pending,
  insufficient_proofs_amount, sig_all_only_swap,
}
use gonuts.Library.{Library}
use gonuts.Cashu.{Proof, proofs_amount}
use gonuts.Nuts.States.{MeltState}
use gonuts.Nuts.Conditions.{proofs_sig_all}
use gonuts.Storage.{MeltQuote}
use gonuts.Storage.MeltQuotes.{get_melt_quote}
use gonuts.Mint.{Mint, World, or_error}
use gonuts.Mint.Proofs.{ys_of_proofs, transaction_fees, verify_proofs}

-- A quote that is paid or pending is not melted again.
unfoldable pub check_open : MeltState → Result (Unit {0})
check_open MeltState.paid = err melt_quote_already_paid
check_open MeltState.pending = err quote_pending
check_open MeltState.unpaid = ok tt
check_open MeltState.unknown = ok tt

-- `meltQuote.Amount+meltQuote.FeeReserve+uint64(fees)`
abbrev pub amount_needed : MeltQuote → ℕ → ℕ
amount_needed quote fees = ((quote.amount + quote.fee_reserve) % u64_mod + fees) % u64_mod

module _ (lib : Library) where
  -- The query of the quote is call 2.
  unfoldable pub check_melt :
      World lib → String → List Proof → Mint lib → Result (List String × MeltQuote)
  unfolding check_open
  check_melt w quote_id proofs m = do
    ys ← ys_of_proofs lib proofs
    quote ← or_error quote_not_exist (get_melt_quote (w.io 2) quote_id m.db)
    check_open quote.state
    verify_proofs lib w m proofs ys
    return_if (ltb (proofs_amount proofs) (amount_needed quote (transaction_fees m proofs)))
        insufficient_proofs_amount
    return_if (proofs_sig_all lib proofs) sig_all_only_swap
    ok (ys, quote)
