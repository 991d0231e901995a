-- ===== src/Mint/Melt/Request.antt =====
-- mint/mint.go: `RequestMeltQuote`.
pub mod Check
use mathlib.Core.Path.{subst}
use gonuts.Prelude.{ℕ, ◌≡◌, ap, ◌∙◌, String, Bool, true, Option}
use gonuts.Errors.{Result, ok, err, panic, ok_injective}
use gonuts.Library.{Library}
use gonuts.Storage.{MeltQuote}
use gonuts.Storage.MeltQuotes.{get_melt_quote, save_melt_quote}
use gonuts.Storage.MeltQuotes.Laws.{get_melt_quote-save_melt_quote}
use gonuts.Mint.{Mint, World, Handler, ◌>>=◌, ◌>>◌, gets, write, pure, continue-eq-ok}
use Check.{new_melt_quote}

module _ (lib : Library) where
  -- RequestMeltQuote
  unfoldable pub request_melt_quote : World lib → String → String → Option ℕ → Handler lib MeltQuote
  request_melt_quote w request unit mpp = do
    quote ← gets (new_melt_quote lib w request unit mpp)
    write (save_melt_quote (w.io 2) quote)
    pure quote

  -- A melt quote that RequestMeltQuote answers is the one that its checks make, and reads back from
  -- the database that is left as it was answered.
  pub request_melt_quote-get_melt_quote :
      (w : World lib) (request unit : String) (mpp : Option ℕ) (m m' : Mint lib) (q : MeltQuote)
      → request_melt_quote w request unit mpp m ≡ (ok q, m')
      → (new_melt_quote lib w request unit mpp m ≡ ok q) × (get_melt_quote true q.id m'.db ≡ ok q)
  unfolding request_melt_quote
  request_melt_quote-get_melt_quote w request unit mpp m m' q h =
      let (q0, e1, h1) = continue-eq-ok (new_melt_quote lib w request unit mpp m) m _ q m' h in
      let (_, e2, h2) = continue-eq-ok (save_melt_quote (w.io 2) q0 m.db).0 _ _ q m' h1 in
      let same : q0 ≡ q = ok_injective (ap (λ r. r.0) h2) in
      let stored =
        subst (λ db. get_melt_quote true q0.id db ≡ ok q0) (ap (λ r. r.1.db) h2)
          (get_melt_quote-save_melt_quote (w.io 2) q0 m.db e2) in
      (e1 ∙ ap ok same, subst (λ q. get_melt_quote true q.id m'.db ≡ ok q) same stored)
