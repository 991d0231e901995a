-- ===== src/Mint/StateCheck/Asked.antt =====
-- The calls of GetMeltQuoteState that ProofsStateCheck makes, and for which quotes.
use mathlib.Core.Path.{subst}
use mathlib.Core.List.{append_assoc, map-append}
use gonuts.Prelude.{
  ℕ, ◌+◌, ◌≡◌, ap, String, true, List, [], ◌∷◌, ◌++◌, map, arith, contains, contains-append,
  str_eq_iff, All, ◌||◌,
}
use gonuts.Errors.{ok}
use gonuts.Library.{Library}
use gonuts.Storage.{DbProof, MeltQuote}
use gonuts.Mint.{Mint, World, continue-eq-ok}
use gonuts.Mint.Melt.{get_melt_quote_state}
use gonuts.Mint.StateCheck.{check_quotes, pending_quotes}

-- Calls of GetMeltQuoteState for some quotes, one after the other, all of which answer: the state
-- before the first and the state after the last.
pub data Asked (lib : Library) (ws : ℕ → World lib)
    : ℕ → List String → Mint lib → Mint lib → Type 0 where
  none_left : (i : ℕ) (m : Mint lib) → Asked lib ws i [] m m
  asked :
      (i : ℕ) (id : String) (ids : List String) (quote : MeltQuote) (m m₁ m' : Mint lib)
      → get_melt_quote_state lib (ws i) id m ≡ (ok quote, m₁)
      → Asked lib ws (i + 1) ids m₁ m'
      → Asked lib ws i (id ∷ ids) m m'

pub check_quotes-Asked :
    (lib : Library) (ws : ℕ → World lib) (i : ℕ) (ids : List String) (m m' : Mint lib)
    → check_quotes lib ws i ids m ≡ (ok tt, m')
    → Asked lib ws i ids m m'
unfolding check_quotes
check_quotes-Asked lib ws i [] m m' h =
    subst (λ (n : Mint lib). Asked lib ws i [] m n) (ap (λ r. r.1) h) (none_left i m)
check_quotes-Asked lib ws i (id ∷ ids) m m' h =
    let answer = get_melt_quote_state lib (ws i) id m in
    let (quote, e, h1) = continue-eq-ok answer.0 answer.1 _ tt m' h in
    asked i id ids quote m answer.1 m' (ap (λ r. (r, answer.1)) e)
      (check_quotes-Asked lib ws (i + 1) ids answer.1 m' h1)

-- A quote is among those that are asked for, or was seen before.
pending_quotes-contains :
    (id : String) (seen : List String) (rows : List DbProof)
    → contains id (map (λ (row : DbProof). row.melt_quote_id) rows) ≡ true
    → (contains id seen || contains id (pending_quotes seen rows)) ≡ true
unfolding pending_quotes
pending_quotes-contains id seen [] h = cc
pending_quotes-contains id seen (row ∷ rows) h = ground (
  arith,
  pending_quotes-contains id seen rows,
  pending_quotes-contains id (row.melt_quote_id ∷ seen) rows,
  str_eq_iff id row.melt_quote_id,
  str_eq_iff row.melt_quote_id id,
)

-- The quotes of all rows are asked for.
quotes-contains :
    (more rows : List DbProof) (row : DbProof)
    → contains row.melt_quote_id (map (λ (r : DbProof). r.melt_quote_id) (more ++ row ∷ rows))
      ≡ true
quotes-contains more rows row =
    let quotes = map (λ (r : DbProof). r.melt_quote_id) in
    rw (map-append (λ (r : DbProof). r.melt_quote_id) more (row ∷ rows)) (
      ground (
        arith,
        contains-append row.melt_quote_id (quotes more) (quotes (row ∷ rows)),
        str_eq_iff row.melt_quote_id row.melt_quote_id,
      ))

pub pending_quotes-covers :
    (more rows : List DbProof)
    → All
        (λ (row : DbProof). contains row.melt_quote_id (pending_quotes [] (more ++ rows)) ≡ true)
        rows
pending_quotes-covers more [] = tt
pending_quotes-covers more (row ∷ rows) = (
  pending_quotes-contains row.melt_quote_id [] (more ++ row ∷ rows) (quotes-contains more rows row),
  rw (append_assoc more (row ∷ []) rows) at (pending_quotes-covers (more ++ row ∷ []) rows),
)
