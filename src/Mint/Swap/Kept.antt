-- ===== src/Mint/Swap/Kept.antt =====
-- `Swap` moves the database on.
use gonuts.Prelude.{List}
use gonuts.Library.{Library}
use gonuts.Cashu.{Proof, BlindedMessage, BlindedSignature}
use gonuts.Mint.{World}
use gonuts.Mint.Kept.{Keeps, Keeps->>=, Keeps->>, Keeps-gets, Keeps-pure, publish_spent-Keeps}
use gonuts.Mint.Kept.Writes.{Keeps-save_proofs, Keeps-save_blind_signatures}
use gonuts.Mint.Outputs.{b_s_of}
use gonuts.Mint.Swap.{commit_swap, swap}
use gonuts.Mint.Swap.Check.{check_swap}

module _ (lib : Library) (w : World lib) (proofs : List Proof)
    (messages : List BlindedMessage) where
  commit_swap-Keeps :
      (sigs : List BlindedSignature) → Keeps (commit_swap lib w proofs messages sigs)
  unfolding commit_swap
  commit_swap-Keeps sigs = Keeps->> _ _ (Keeps-save_proofs lib (w.io 3) proofs) (
      Keeps->> _ _ (Keeps-save_blind_signatures lib (w.io 4) (b_s_of messages) sigs)
        (Keeps->> _ _ (publish_spent-Keeps lib proofs) (Keeps-pure sigs)))

  pub swap-Keeps : Keeps (swap lib w proofs messages)
  unfolding swap
  swap-Keeps = Keeps->>= _ _ (Keeps-gets (check_swap lib w proofs messages)) commit_swap-Keeps
