-- ===== src/Tests/Restored.antt =====
-- Runs of RestoreSignatures and ProofsStateCheck: the outputs of a swap are restored, and a payment
-- that has come to an end turns a pending proof into a spent one.
use gonuts.Prelude.{◌≡◌, refl, true, none, String, All, contains, List, [], ◌∷◌}
use gonuts.Errors.{Result, ok, err, panic}
use gonuts.Storage.{DbProof, Db, empty_db}
use gonuts.Mint.{Mint, World, ProofState, PaymentState, Outgoing}
use gonuts.Mint.Restore.{restore_signatures}
use gonuts.Mint.Restore.Swapped.{restore_signatures-swap}
use gonuts.Mint.StateCheck.{proofs_state_check}
use gonuts.Mint.StateCheck.Asked.{Asked}
use gonuts.Storage.Proofs.{select_ys}
use gonuts.Mint.StateCheck.Answered.{AnswersFor, proofs_state_check-AnswersFor}
use gonuts.Tests.Values.{toy, working, world_with, mint_with, fresh, outputs, melt_quote}
use gonuts.Tests.Runs.{or_nothing, coins, swapped, runs}

restore_signatures-swap_example :
    restore_signatures working outputs swapped.1 ≡ ok (outputs, or_nothing swapped.0)
restore_signatures-swap_example =
    restore_signatures-swap toy working working (λ i. refl) fresh swapped.1 coins outputs
      (or_nothing swapped.0) runs.swapped_run

abbrev held : DbProof
held = record {
  amount = 4;
  id = "k";
  secret = "s";
  y = "1";
  c = "d";
  witness = "";
  melt_quote_id = "melt";
}

abbrev in_flight : Mint toy
in_flight = mint_with (record empty_db {
  pending_proofs = held ∷ [];
  melt_quotes = record melt_quote { state = "PENDING" } ∷ [];
})

abbrev settling : World toy
settling =
    world_with (λ i. true) none
      (Outgoing.found (record { preimage = "preimage"; payment_status = PaymentState.succeeded }))

abbrev state_run : Result (List ProofState) × Mint toy
state_run = proofs_state_check toy working (λ i. settling) (λ ids. ids) ("1" ∷ "2" ∷ []) in_flight

abbrev states_or_nothing : Result (List ProofState) → List ProofState
states_or_nothing (ok states) = states
states_or_nothing (err e) = []
states_or_nothing panic = []

states_answered : state_run ≡ (ok (states_or_nothing state_run.0), state_run.1)
unfolding gonuts.Mint.StateCheck.proofs_state_check gonuts.Mint.Melt.get_melt_quote_state
    gonuts.Storage.MeltQuotes.get_melt_quote gonuts.Storage.MeltQuotes.find_id
    gonuts.Storage.MeltQuotes.read_melt_quote gonuts.Storage.MeltQuotes.update_melt_quote
    gonuts.Storage.MeltQuotes.set_state gonuts.Storage.MeltQuotes.count_id
    gonuts.Nuts.States.melt_state_of gonuts.Nuts.States.melt_state_text
    gonuts.Storage.Proofs.get_pending_proofs gonuts.Storage.Proofs.get_pending_proofs_by_quote
    gonuts.Storage.Proofs.get_proofs_used gonuts.Storage.Proofs.remove_pending_proofs
    gonuts.Storage.Proofs.save_proofs gonuts.Mint.States.publish_spent
    gonuts.Crypto.HashToCurve.hash_to_curve gonuts.Crypto.HashToCurve.rounds
    gonuts.Crypto.HashToCurve.y_of
states_answered = refl

proofs_state_check-AnswersFor_example :
    (ids : List String) × All
      (λ (row : DbProof). contains row.melt_quote_id ids ≡ true)
      (select_ys ("1" ∷ "2" ∷ []) in_flight.db.pending_proofs)
    × Asked toy (λ i. settling) 0 ids in_flight state_run.1
    × AnswersFor state_run.1.db ("1" ∷ "2" ∷ []) (states_or_nothing state_run.0)
proofs_state_check-AnswersFor_example =
    proofs_state_check-AnswersFor toy working (λ i. settling) (λ ids. ids) ("1" ∷ "2" ∷ [])
      in_flight state_run.1 (states_or_nothing state_run.0) states_answered
