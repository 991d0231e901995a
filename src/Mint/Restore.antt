-- ===== src/Mint/Restore.antt =====
-- mint/mint.go: `RestoreSignatures`, which answers the stored signatures of some outputs. The query
-- of the output at a position is the call at that position.
pub mod Swapped
use gonuts.Prelude.{ℕ, ◌+◌, String, Bool, true, false, List, [], ◌∷◌}
use gonuts.Errors.{Error, Result, ok, err, panic, db_error, no_rows, ◌>>=◌}
use gonuts.Library.{Library}
use gonuts.Cashu.{BlindedMessage, BlindedSignature}
use gonuts.Storage.BlindSignatures.{get_blind_signature}
use gonuts.Mint.{Mint, World}

-- What the answer about one output does to those about the later ones.
unfoldable pub with_answer :
    BlindedMessage
    → Result BlindedSignature
    → Result (List BlindedMessage × List BlindedSignature)
    → Result (List BlindedMessage × List BlindedSignature)
with_answer msg panic later = panic
with_answer msg (err no_rows) later = later
with_answer msg (err _) later = err db_error
with_answer msg (ok sig) later = do answers ← later; ok (msg ∷ answers.0, sig ∷ answers.1)

unfoldable pub restore_from :
    {lib : Library}
    → World lib
    → Mint lib
    → ℕ
    → List BlindedMessage
    → Result (List BlindedMessage × List BlindedSignature)
unfolding with_answer
restore_from w m i [] = ok ([], [])
restore_from w m i (msg ∷ messages) =
    with_answer msg (get_blind_signature (w.io i) msg.b_ m.db) (restore_from w m (i + 1) messages)

-- RestoreSignatures
unfoldable pub restore_signatures :
    {lib : Library}
    → World lib
    → List BlindedMessage
    → Mint lib
    → Result (List BlindedMessage × List BlindedSignature)
unfolding restore_from
restore_signatures w messages m = restore_from w m 0 messages
