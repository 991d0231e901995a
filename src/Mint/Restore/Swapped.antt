-- ===== src/Mint/Restore/Swapped.antt =====
-- A wallet that loses the answer of a swap gets it again by RestoreSignatures.
use mathlib.Core.List.{append_assoc, map-append}
use gonuts.Prelude.{
  ℕ, ◌+◌, ◌≡◌, refl, sym, ap, ◌∙◌, String, true, false, some, List, [], ◌∷◌, ◌++◌, arith, contains,
  str_eq_iff, IsDistinct,
}
use gonuts.Prelude.Keys.{IsDisjoint, IsDisjoint-of_append, IsDisjoint-of_not_contains}
use gonuts.Errors.{ok, >>=-eq-ok, ok_injective}
use gonuts.Library.{Library}
use gonuts.Cashu.{Proof, BlindedMessage, BlindedSignature}
use gonuts.Storage.{SignatureRow}
use gonuts.Storage.BlindSignatures.{
  b_s_of as row_b_s_of, rows_of, find_b_, get_blind_signature, read_signature,
}
use gonuts.Mint.{Mint, World}
use gonuts.Mint.Outputs.{b_s_of, signature}
use gonuts.Mint.Outputs.Made.{Made, MadeFrom, sign_blinded_messages-MadeFrom}
use gonuts.Mint.Restore.{restore_from, restore_signatures}
use gonuts.Mint.Swap.{swap}
use gonuts.Mint.Swap.Outcomes.{swap-Completed}

-- The first row of a key that the rows before do not have.
find_b_-middle :
    (b : String) (before : List SignatureRow) (row : SignatureRow) (after : List SignatureRow)
    → contains b (row_b_s_of before) ≡ false
    → row.b_ ≡ b
    → find_b_ b (before ++ row ∷ after) ≡ some row
unfolding find_b_
find_b_-middle b [] row after h e = ground (arith, str_eq_iff row.b_ b)
find_b_-middle b (other ∷ before) row after h e = ground (arith, find_b_-middle b before row after)

-- The row of a signature, and the rows of the later ones.
abbrev RowFirst :
    BlindedSignature → String → List String → List BlindedSignature → List SignatureRow → Type 0
RowFirst sig b b_s sigs rows =
    (row : SignatureRow) × (rest : List SignatureRow) × (rows ≡ row ∷ rest)
    × (rows_of b_s sigs ≡ ok rest)
    × (row.b_ ≡ b)
    × (read_signature row ≡ sig)

-- A signature of the mint, read from its row, is as it was.
read_signature-signature :
    (lib : Library) (m : Mint lib) (r k : lib.PrivateKey) (msg : BlindedMessage)
    (b_ : lib.PublicKey) (b : String) (b_s : List String) (sigs : List BlindedSignature)
    (rows : List SignatureRow)
    → rows_of (b ∷ b_s) (signature lib m r msg k b_ ∷ sigs) ≡ ok rows
    → RowFirst (signature lib m r msg k b_) b b_s sigs rows
unfolding rows_of signature read_signature
read_signature-signature lib m r k msg b_ b b_s sigs rows e =
    let (rest, stored, whole) = >>=-eq-ok (rows_of b_s sigs) _ e in
    (_, rest, sym (ok_injective whole), stored, refl, refl)

read_signature-Made :
    (lib : Library) (m : Mint lib) (r : lib.PrivateKey) (msg : BlindedMessage)
    (sig : BlindedSignature) (b : String) (b_s : List String) (sigs : List BlindedSignature)
    (rows : List SignatureRow)
    → Made lib m r msg sig
    → rows_of (b ∷ b_s) (sig ∷ sigs) ≡ ok rows
    → RowFirst sig b b_s sigs rows
read_signature-Made lib m r msg sig b b_s sigs rows made e =
    rw made.made at
      (read_signature-signature lib m r made.k msg made.b_ b b_s sigs rows (rw made.made e))

module _ (lib : Library) (w w' : World lib) (works : (i : ℕ) → w'.io i ≡ true)
    (m m' : Mint lib) where
  stored_answer :
      (j : ℕ) (b : String) (before : List SignatureRow) (row : SignatureRow)
      (after : List SignatureRow)
      → m'.db.blind_signatures ≡ before ++ row ∷ after
      → contains b (row_b_s_of before) ≡ false
      → row.b_ ≡ b
      → get_blind_signature (w'.io j) b m'.db ≡ ok (read_signature row)
  unfolding get_blind_signature
  stored_answer j b before row after e h same =
      rw (works j, e, find_b_-middle b before row after h same, get_blind_signature) refl

  restored_cons :
      (j : ℕ) (msg : BlindedMessage) (messages : List BlindedMessage) (sig : BlindedSignature)
      (sigs : List BlindedSignature) (row : SignatureRow)
      → get_blind_signature (w'.io j) msg.b_ m'.db ≡ ok (read_signature row)
      → read_signature row ≡ sig
      → restore_from w' m' (j + 1) messages ≡ ok (messages, sigs)
      → restore_from w' m' j (msg ∷ messages) ≡ ok (msg ∷ messages, sig ∷ sigs)
  unfolding restore_from
  restored_cons j msg messages sig sigs row answered read later = rw (answered, read, later) refl

  restored_from :
      (i j : ℕ) (messages : List BlindedMessage) (sigs : List BlindedSignature)
      (before rows : List SignatureRow)
      → MadeFrom lib w m i messages sigs
      → rows_of (b_s_of messages) sigs ≡ ok rows
      → m'.db.blind_signatures ≡ before ++ rows
      → IsDistinct (row_b_s_of rows)
      → IsDisjoint (row_b_s_of rows) (row_b_s_of before)
      → restore_from w' m' j messages ≡ ok (messages, sigs)
  unfolding restore_from
  restored_from i j [] [] before rows made e table distinct apart = refl
  restored_from i j [] (sig ∷ sigs) before rows made e table distinct apart = absurd made
  restored_from i j (msg ∷ messages) [] before rows made e table distinct apart = absurd made
  restored_from i j (msg ∷ messages) (sig ∷ sigs) before rows made e table distinct apart =
      let (row, rest, whole, stored, same, read) =
        read_signature-Made lib m (w.nonce i) msg sig msg.b_ (b_s_of messages) sigs rows made.0 e in
      let table' : m'.db.blind_signatures ≡ before ++ row ∷ rest =
        table ∙ ap (λ r. before ++ r) whole in
      let distinct' : IsDistinct (row.b_ ∷ row_b_s_of rest) = rw whole at distinct in
      let apart' : IsDisjoint (row.b_ ∷ row_b_s_of rest) (row_b_s_of before) = rw whole at apart in
      let answered = stored_answer j msg.b_ before row rest table' (rw same at apart'.0) same in
      let later =
        restored_from (i + 1) (j + 1) messages sigs (before ++ row ∷ []) rest made.1 stored
          (table' ∙ sym (append_assoc before (row ∷ []) rest)) distinct'.1
          (rw (map-append (λ (r : SignatureRow). r.b_) before (row ∷ [])) (
            IsDisjoint-of_append (row_b_s_of rest) (row_b_s_of before) (row.b_ ∷ []) apart'.1
              (IsDisjoint-of_not_contains row.b_ (row_b_s_of rest) distinct'.0))) in
      restored_cons j msg messages sig sigs row answered read later

  -- After a swap that answers, RestoreSignatures of its outputs answers the same outputs and the same
  -- signatures, as long as its queries work.
  pub restore_signatures-swap :
      (proofs : List Proof) (messages : List BlindedMessage) (sigs : List BlindedSignature)
      → swap lib w proofs messages m ≡ (ok sigs, m')
      → restore_signatures w' messages m' ≡ ok (messages, sigs)
  unfolding restore_signatures
  restore_signatures-swap proofs messages sigs h =
      let c = swap-Completed lib w proofs messages m sigs m' h in
      restored_from 0 0 messages sigs m.db.blind_signatures c.srows
        (sign_blinded_messages-MadeFrom lib w m messages sigs c.passed.signed) c.stored
        (ap (λ (n : Mint lib). n.db.blind_signatures) c.after) c.distinct_keys
        (rw c.signed_keys c.passed.unsigned)
