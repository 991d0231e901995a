-- ===== src/Wallet/Outputs.antt =====
-- wallet/wallet.go: the outputs that the wallet asks the mint to sign, and the proofs that it makes of
-- the signatures.
pub mod Writable
pub mod Accepted
use gonuts.Prelude.{
  ℕ, ◌+◌, ◌^◌, ◌%◌, String, Bool, true, false, not, ◌&&◌, Option, none, some, List, [], ◌∷◌, ◌==◌,
  length, if◌then◌else◌,
}
use gonuts.Library.{Library, Bytes}
use gonuts.Cashu.{Proof, BlindedMessage, BlindedSignature, DleqProof, DleqPointer}
use gonuts.Crypto.Bdhke.{blind_message, unblind_signature}
use gonuts.Crypto.Keyset.{key_for}
use gonuts.Nuts.Dleq.{parse_point, verify_blind_signature_dleq}
use gonuts.Wallet.{
  WalletKeyset, Answer, crash, fault, answer, ◌>>=◌, must_have, lifted, lengths_do_not_match,
  key_not_found, invalid_dleq, invalid_text, derivation_failed,
}

-- The three slices that are returned with the error.
pub record Outputs (lib : Library) : Type 0 where
  pub messages : List BlindedMessage
  pub secrets : List String
  pub rs : List lib.PrivateKey

-- What gives the secret and the blinding factor of each output, by its position: random numbers, or
-- nut13 from the counter of the keyset on.
abbrev pub Secrets : Library → Type 0
Secrets lib = ℕ → Option (String × lib.PrivateKey)

module _ (lib : Library) where
  open lib use {PublicKey, PrivateKey, encode_hex, serialize_compressed, serialize}

  -- cashu.NewBlindedMessage
  unfoldable pub new_blinded_message : String → ℕ → PublicKey → BlindedMessage
  new_blinded_message id amount b_ = record {
    amount = amount;
    b_ = encode_hex (serialize_compressed b_);
    id = id;
    witness = "";
  }

  -- the loop of createBlindedMessages
  unfoldable pub create_from : Secrets lib → String → ℕ → List ℕ → Answer (Outputs lib)
  unfolding new_blinded_message
  create_from next keyset_id i [] = answer (record { messages = []; secrets = []; rs = [] })
  create_from next keyset_id i (amount ∷ amounts) = do
    drawn ← must_have derivation_failed (next i)
    b_ ← lifted (blind_message lib drawn.0 drawn.1)
    outputs ← create_from next keyset_id (i + 1) amounts
    answer (record {
      messages = new_blinded_message keyset_id amount b_ ∷ outputs.messages;
      secrets = drawn.0 ∷ outputs.secrets;
      rs = drawn.1 ∷ outputs.rs;
    })

  -- Where the secrets come from: a counter is a `uint32`, and is advanced by each output.
  secrets_from : Secrets lib → Secrets lib → Option ℕ → Secrets lib
  secrets_from random derive none = random
  secrets_from random derive (some counter) = λ i. derive ((counter + i) % 2 ^ 32)

  -- createBlindedMessages. `random` is generateRandomSecret, and `derive` is nut13 on the path of the
  -- keyset, which can fail to be derived; `*counter` afterwards is the counter plus the number of
  -- outputs.
  unfoldable pub create_blinded_messages :
      Secrets lib → Option (Secrets lib) → List ℕ → String → Option ℕ → Answer (Outputs lib)
  unfolding create_from secrets_from
  create_blinded_messages random derive amounts keyset_id counter = do
    path ← must_have derivation_failed derive
    create_from (secrets_from random path counter) keyset_id 0 amounts

  -- unblindSignature
  unfoldable pub unblind_text : String → PrivateKey → PublicKey → Answer String
  unblind_text c_text r key = do
    c_ ← must_have invalid_text (parse_point lib c_text)
    answer (encode_hex (serialize_compressed (unblind_signature lib c_ r key)))

  first : {A : Type 0} → List A → Option A
  first [] = none
  first (x ∷ xs) = some x

  rest_of : {A : Type 0} → List A → List A
  rest_of [] = []
  rest_of (x ∷ xs) = xs

  -- `address` is where Go puts the DLEQ proof of the output at a position.
  module _ (same_bytes : Bytes → Bytes → Bool) (address : ℕ → ℕ)
      (keyset : WalletKeyset PublicKey) where
    -- The check of the DLEQ proof of a signature, and the proof with the blinding factor.
    unfoldable pub checked_dleq :
        ℕ
        → Option DleqProof
        → Option BlindedMessage
        → String
        → PrivateKey
        → PublicKey
        → Answer (Option DleqPointer)
    checked_dleq i none message c_text r key = answer none
    checked_dleq i (some dleq) none c_text r key = crash
    checked_dleq i (some dleq) (some message) c_text r key =
        if verify_blind_signature_dleq lib same_bytes dleq key message.b_ c_text
        then answer (
            some (record {
              address = address i;
              value = record { e = dleq.e; s = dleq.s; r = encode_hex (serialize r) };
            }))
        else fault invalid_dleq

    unfoldable pub construct_from :
        ℕ
        → List BlindedSignature
        → List BlindedMessage
        → List String
        → List PrivateKey
        → Answer (List Proof)
    unfolding checked_dleq unblind_text first rest_of
    construct_from i [] messages secrets rs = answer []
    construct_from i (sig ∷ sigs) messages (secret ∷ secrets) (r ∷ rs) = do
      key ← must_have key_not_found (key_for sig.amount keyset.public_keys)
      dleq ← checked_dleq i sig.dleq (first messages) sig.c_ r key
      c ← unblind_text sig.c_ r key
      proofs ← construct_from (i + 1) sigs (rest_of messages) secrets rs
      answer (
          record {
            amount = sig.amount;
            id = sig.id;
            secret = secret;
            c = c;
            witness = "";
            dleq = dleq;
          }
          ∷ proofs)
    construct_from i (sig ∷ sigs) messages _ _ = crash

    -- constructProofs
    unfoldable pub construct_proofs :
        List BlindedSignature
        → List BlindedMessage
        → List String
        → List PrivateKey
        → Answer (List Proof)
    unfolding construct_from
    construct_proofs sigs messages secrets rs =
        if (length sigs == length secrets) && (length sigs == length rs)
        then construct_from 0 sigs messages secrets rs
        else fault lengths_do_not_match
