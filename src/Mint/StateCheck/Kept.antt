-- ===== src/Mint/StateCheck/Kept.antt =====
-- `ProofsStateCheck` moves the database on, since it settles payments that have come to an end.
use gonuts.Prelude.{ℕ, ◌+◌, String, List, [], ◌∷◌, map}
use gonuts.Library.{Library}
use gonuts.Storage.Proofs.{get_pending_proofs, get_proofs_used}
use gonuts.Mint.{World}
use gonuts.Mint.Kept.{Keeps, Keeps->>=, Keeps->>, Keeps-gets, Keeps-pure}
use gonuts.Mint.Melt.Kept.{get_melt_quote_state-Keeps}
use gonuts.Mint.StateCheck.{check_quotes, pending_quotes, proof_state_of, proofs_state_check}

module _ (lib : Library) where
  check_quotes-Keeps :
      (ws : ℕ → World lib) (i : ℕ) (ids : List String) → Keeps (check_quotes lib ws i ids)
  unfolding check_quotes
  check_quotes-Keeps ws i [] = Keeps-pure tt
  check_quotes-Keeps ws i (id ∷ ids) =
      Keeps->>= _ _ (get_melt_quote_state-Keeps lib (ws i) id)
        (λ quote. check_quotes-Keeps ws (i + 1) ids)

  pub proofs_state_check-Keeps :
      (w : World lib) (ws : ℕ → World lib) (order : List String → List String) (ys : List String)
      → Keeps (proofs_state_check lib w ws order ys)
  unfolding proofs_state_check
  proofs_state_check-Keeps w ws order ys =
      Keeps->>= _ _ (Keeps-gets (λ m. get_pending_proofs (w.io 0) ys m.db)) (λ before.
        Keeps->> _ _ (check_quotes-Keeps ws 0 (order (pending_quotes [] before))) (
          Keeps->>= _ _ (Keeps-gets (λ m. get_pending_proofs (w.io 1) ys m.db)) (λ pending.
            Keeps->>= _ _ (Keeps-gets (λ m. get_proofs_used (w.io 2) ys m.db))
              (λ used. Keeps-pure (map (proof_state_of used pending) ys)))))
