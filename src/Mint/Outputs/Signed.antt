-- ===== src/Mint/Outputs/Signed.antt =====
-- The rows that store the signatures of a request: one for each output, under its `B_`, with its
-- amount.
use mathlib.Core.Path.{subst}
use gonuts.Prelude.{ℕ, ◌+◌, ◌≡◌, refl, some, List, [], ◌∷◌, map, arith}
use gonuts.Errors.{ok, >>=-eq-ok, ok_injective, unknown_keyset, invalid_b}
use gonuts.Library.{Library}
use gonuts.Cashu.{BlindedMessage, BlindedSignature, DleqProof, message_amounts, signature_amounts}
use gonuts.Storage.{SignatureRow}
use gonuts.Storage.BlindSignatures.{b_s_of as row_b_s_of, rows_of}
use gonuts.Mint.{Mint, World, find_keyset, require}
use gonuts.Mint.Outputs.{
  b_s_of, active_key, signature, sign_message, sign_from, sign_blinded_messages,
}

abbrev pub row_amounts : List SignatureRow → List ℕ
row_amounts = map (λ r. r.amount)

module _ (lib : Library) where
  -- Rows for the signatures of some outputs.
  abbrev pub Stored : List BlindedMessage → List BlindedSignature → Type 0
  Stored messages sigs =
      (rows : List SignatureRow) × (rows_of (b_s_of messages) sigs ≡ ok rows)
      × (row_b_s_of rows ≡ b_s_of messages)
      × (row_amounts rows ≡ message_amounts messages)
      × (signature_amounts sigs ≡ message_amounts messages)

  -- A signature carries the amount of its message, and a DLEQ proof.
  abbrev Signs : BlindedMessage → BlindedSignature → Type 0
  Signs msg sig = (sig.amount ≡ msg.amount) × ((d : DleqProof) × (sig.dleq ≡ some d))

  signature-Signs :
      (m : Mint lib) (r k : lib.PrivateKey) (msg : BlindedMessage) (b_ : lib.PublicKey)
      (sig : BlindedSignature)
      → signature lib m r msg k b_ ≡ sig
      → Signs msg sig
  unfolding signature
  signature-Signs m r k msg b_ sig e = subst (Signs msg) e (refl, (_, refl))

  sign_message-Signs :
      (m : Mint lib) (r : lib.PrivateKey) (msg : BlindedMessage) (sig : BlindedSignature)
      → sign_message lib m r msg ≡ ok sig
      → Signs msg sig
  unfolding sign_message
  sign_message-Signs m r msg sig h =
      let (known, e1, h1) = >>=-eq-ok (require unknown_keyset (find_keyset msg.id m.keysets)) _ h in
      let (k, e2, h2) = >>=-eq-ok (active_key lib m msg) _ h1 in
      let (bytes, e3, h3) = >>=-eq-ok (require invalid_b (lib.decode_hex msg.b_)) _ h2 in
      let (b_, e4, h4) = >>=-eq-ok (require invalid_b (lib.parse_public_key bytes)) _ h3 in
      signature-Signs m r k msg b_ sig (ok_injective h4)

  Stored-nil : Stored [] []
  unfolding rows_of
  Stored-nil = ([], refl, refl, refl, refl)

  Stored-cons :
      (msg : BlindedMessage) (sig : BlindedSignature) (messages : List BlindedMessage)
      (sigs : List BlindedSignature)
      → Signs msg sig
      → Stored messages sigs
      → Stored (msg ∷ messages) (sig ∷ sigs)
  unfolding rows_of
  Stored-cons msg sig messages sigs (amount, (d, e)) (rows, stored, keys, amounts, sums) = (
    record {
      b_ = msg.b_;
      c_ = sig.c_;
      keyset_id = sig.id;
      amount = sig.amount;
      e = some d.e;
      s = some d.s;
    }
        ∷ rows,
    ground arith,
    ground arith,
    ground arith,
    ground arith,
  )

  sign_from-Stored :
      (w : World lib) (m : Mint lib) (i : ℕ) (messages : List BlindedMessage)
      (sigs : List BlindedSignature)
      → sign_from lib w m i messages ≡ ok sigs
      → Stored messages sigs
  unfolding sign_from
  sign_from-Stored w m i [] sigs h = let none_left : sigs ≡ [] = cc in rw none_left Stored-nil
  sign_from-Stored w m i (msg ∷ messages) sigs h =
      let (sig, signed, h1) = >>=-eq-ok (sign_message lib m (w.nonce i) msg) _ h in
      let (rest, others, h2) = >>=-eq-ok (sign_from lib w m (i + 1) messages) _ h1 in
      rw (← ok_injective h2) (
        Stored-cons msg sig messages rest (sign_message-Signs m (w.nonce i) msg sig signed)
          (sign_from-Stored w m (i + 1) messages rest others))

  -- The signatures of a request can be stored, one row for each output.
  pub sign_blinded_messages-Stored :
      (w : World lib) (m : Mint lib) (messages : List BlindedMessage) (sigs : List BlindedSignature)
      → sign_blinded_messages lib w m messages ≡ ok sigs
      → Stored messages sigs
  unfolding sign_blinded_messages
  sign_blinded_messages-Stored w m messages sigs h = sign_from-Stored w m 0 messages sigs h
