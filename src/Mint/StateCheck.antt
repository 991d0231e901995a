-- ===== src/Mint/StateCheck.antt =====
-- mint/mint.go: `ProofsStateCheck`. Go ranges over the keys of the map `pendingQuotes` in an order
-- of its own, `order`; the world answers anew, `ws i`, for the i-th quote that is asked for.
pub mod Asked
pub mod Answered
pub mod Kept
use gonuts.Prelude.{
  ℕ, ◌+◌, String, Bool, true, false, Option, none, some, List, [], ◌∷◌, map, str_eq, contains,
  if◌then◌else◌,
}
use gonuts.Errors.{Result, ok}
use gonuts.Library.{Library}
use gonuts.Nuts.States.{ProofStatus}
use gonuts.Storage.{Db, DbProof}
use gonuts.Storage.Proofs.{get_pending_proofs, get_proofs_used}
use gonuts.Mint.{Mint, World, Handler, ProofState, ◌>>=◌, ◌>>◌, pure, gets}
use gonuts.Mint.Melt.{get_melt_quote_state}

-- slices.IndexFunc with the test for `y`, and the proof at the index
unfoldable pub row_of_y : String → List DbProof → Option DbProof
row_of_y y [] = none
row_of_y y (row ∷ rows) = let later = row_of_y y rows in if str_eq row.y y then some row else later

-- the keys of the map
unfoldable pub pending_quotes : List String → List DbProof → List String
pending_quotes seen [] = []
pending_quotes seen (row ∷ rows) =
    let skipped = pending_quotes seen rows in
    let added = row.melt_quote_id ∷ pending_quotes (row.melt_quote_id ∷ seen) rows in
    if contains row.melt_quote_id seen then skipped else added

-- the state and the witness of a proof, by the spent and the pending proofs that were found
state_by : String → Option DbProof → Option DbProof → ProofState
state_by y (some row) _ = record { y = y; state = ProofStatus.spent; witness = row.witness }
state_by y none (some row) = record { y = y; state = ProofStatus.pending; witness = row.witness }
state_by y none none = record { y = y; state = ProofStatus.unspent; witness = "" }

unfoldable pub proof_state_of : List DbProof → List DbProof → String → ProofState
unfolding row_of_y state_by
proof_state_of used pending y = state_by y (row_of_y y used) (row_of_y y pending)

module _ (lib : Library) where
  -- The states of the quotes are asked for, which can settle or release their proofs.
  unfoldable pub check_quotes : (ℕ → World lib) → ℕ → List String → Handler lib (Unit {0})
  check_quotes ws i [] = pure tt
  check_quotes ws i (id ∷ ids) = do
    quote ← get_melt_quote_state lib (ws i) id
    check_quotes ws (i + 1) ids

  -- ProofsStateCheck
  unfoldable pub proofs_state_check :
      World lib
      → (ℕ → World lib)
      → (List String → List String)
      → List String
      → Handler lib (List ProofState)
  unfolding check_quotes pending_quotes proof_state_of
  proofs_state_check w ws order ys = do
    before ← gets (λ m. get_pending_proofs (w.io 0) ys m.db)
    check_quotes ws 0 (order (pending_quotes [] before))
    pending ← gets (λ m. get_pending_proofs (w.io 1) ys m.db)
    used ← gets (λ m. get_proofs_used (w.io 2) ys m.db)
    pure (map (proof_state_of used pending) ys)
