-- ===== src/Nuts/Signatures.antt =====
-- cashu/nuts/nut11: counting the valid signatures of a witness against a list of keys. A key is
-- taken off the list when it has signed, except the last one.
pub mod Threshold
use gonuts.Prelude.{
  ℕ, ◌+◌, ◌≡◌, String, Bool, true, false, Option, none, some, List, [], ◌∷◌, arith, leb, ltb,
  if◌then◌else◌, length,
}
use gonuts.Library.{Library, Bytes}

module _ (lib : Library) (hash : Bytes) where
  open lib use {PublicKey, Signature, decode_hex, parse_schnorr, verify_schnorr}

  -- ParseSignature; the loop only asks whether there is an error.
  unfoldable pub parse_signature : String → Option Signature
  parse_signature signature = elim (decode_hex signature) [
    | none ↦ none
    | some bytes ↦ parse_schnorr bytes
  ]

  prepend : PublicKey → Option (List PublicKey) → Option (List PublicKey)
  prepend k none = none
  prepend k (some ks) = some (k ∷ ks)

  -- The inner loop: the list without the first key under which the signature is valid.
  unfoldable pub take_signer : Signature → List PublicKey → Option (List PublicKey)
  unfolding prepend
  take_signer sig [] = none
  take_signer sig (k ∷ ks) =
      let rest = prepend k (take_signer sig ks) in
      if verify_schnorr sig hash k then some ks else rest

  -- One signature: whether it counts, and the keys that are left.
  unfoldable pub count_signature : Option Signature → List PublicKey → Bool × List PublicKey
  unfolding take_signer
  count_signature none keys = (false, keys)
  count_signature (some sig) keys = elim (take_signer sig keys) [
    | none ↦ (false, keys)
    | some left ↦ (true, if ltb 1 (length keys) then left else keys)
  ]

  -- The outer loop.
  unfoldable pub valid_signatures : List String → List PublicKey → ℕ
  unfolding count_signature parse_signature
  valid_signatures [] keys = 0
  valid_signatures (s ∷ signatures) keys =
      let (valid, left) = count_signature (parse_signature s) keys in
      let rest = valid_signatures signatures left in if valid then rest + 1 else rest

  -- HasValidSignatures
  unfoldable pub has_valid_signatures : List String → ℕ → List PublicKey → Bool
  unfolding valid_signatures
  has_valid_signatures signatures n_sigs keys = leb n_sigs (valid_signatures signatures keys)
