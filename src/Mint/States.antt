-- ===== src/Mint/States.antt =====
-- mint/mint.go: `publishProofsStateChanges`, which every caller calls with the state SPENT.
use gonuts.Prelude.{◌≡◌, refl, String, List, [], ◌∷◌}
use gonuts.Errors.{Result, ok, err, panic, ◌>>=◌, >>=-eq-ok}
use gonuts.Library.{Library}
use gonuts.Cashu.{Proof}
use gonuts.Crypto.HashToCurve.{y_of}
use gonuts.Nuts.States.{ProofStatus}
use gonuts.Mint
use gonuts.Mint.Proofs.{ys_of_proofs}
use gonuts.Mint.{Mint, Handler, ProofState, proof_state, publish}

module _ (lib : Library) where
  -- The error of HashToCurve is dropped; the nil point that comes with it is then a panic.
  point_or_panic : Result String → Result String
  point_or_panic (ok y) = ok y
  point_or_panic (err e) = panic
  point_or_panic panic = panic

  spent_states : List Proof → Result (List ProofState)
  unfolding point_or_panic
  spent_states [] = ok []
  spent_states (p ∷ ps) = do
    y ← point_or_panic (y_of lib p.secret)
    states ← spent_states ps
    ok (record { y = y; state = ProofStatus.spent; witness = p.witness } ∷ states)

  unfoldable pub publish_spent : List Proof → Handler lib (Unit {0})
  unfolding spent_states
  publish_spent proofs m =
      Mint.continue (spent_states proofs) m (λ states. publish (proof_state states))

  -- Where every secret has a point, publishing succeeds.
  spent_states_ok :
      (proofs : List Proof) (ys : List String)
      → ys_of_proofs lib proofs ≡ ok ys
      → (states : List ProofState) × (spent_states proofs ≡ ok states)
  unfolding ys_of_proofs spent_states
  spent_states_ok [] ys h = ([], refl)
  spent_states_ok (p ∷ ps) ys h =
      let (y, e1, h1) = >>=-eq-ok (y_of lib p.secret) _ h in
      let (rest, e2, h2) = >>=-eq-ok (ys_of_proofs lib ps) _ h1 in
      let (states, e) = spent_states_ok ps rest e2 in
      (record { y = y; state = ProofStatus.spent; witness = p.witness } ∷ states, rw (e1, e) refl)

  pub publish_spent_ok :
      (proofs : List Proof) (ys : List String) (m : Mint lib)
      → ys_of_proofs lib proofs ≡ ok ys
      → (states : List ProofState) × (publish_spent proofs m ≡ publish (proof_state states) m)
  unfolding publish_spent
  publish_spent_ok proofs ys m h =
      let (states, e) = spent_states_ok proofs ys h in (states, rw e refl)
