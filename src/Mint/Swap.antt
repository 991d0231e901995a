-- ===== src/Mint/Swap.antt =====
-- mint/mint.go: `Swap`. All checks and the signatures come first; then the inputs are stored as
-- spent and the signatures are stored, in two transactions.
pub mod Check
pub mod Passed
pub mod Outcomes
pub mod Books
pub mod Refused
pub mod Kept
use gonuts.Prelude.{List}
use gonuts.Library.{Library}
use gonuts.Cashu.{Proof, BlindedMessage, BlindedSignature}
use gonuts.Crypto.HashToCurve.{y_of}
use gonuts.Storage.Proofs.{save_proofs}
use gonuts.Storage.BlindSignatures.{save_blind_signatures}
use gonuts.Mint.{World, Handler, ◌>>=◌, ◌>>◌, pure, gets, write}
use gonuts.Mint.Outputs.{b_s_of}
use gonuts.Mint.States.{publish_spent}
use Check.{check_swap}

module _ (lib : Library) where
  -- The writes of Swap.
  unfoldable pub commit_swap :
      World lib
      → List Proof
      → List BlindedMessage
      → List BlindedSignature
      → Handler lib (List BlindedSignature)
  commit_swap w proofs messages sigs = do
    write (save_proofs (y_of lib) (w.io 3) proofs)
    write (save_blind_signatures (w.io 4) (b_s_of messages) sigs)
    publish_spent lib proofs
    pure sigs

  -- Swap
  unfoldable pub swap :
      World lib → List Proof → List BlindedMessage → Handler lib (List BlindedSignature)
  unfolding commit_swap
  swap w proofs messages = do
    sigs ← gets (check_swap lib w proofs messages)
    commit_swap w proofs messages sigs
