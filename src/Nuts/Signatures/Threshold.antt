-- ===== src/Nuts/Signatures/Threshold.antt =====
-- What the count of valid signatures says about the keys.
use gonuts.Prelude.{
  ℕ, suc, ◌+◌, ◌≤◌, ◌≡◌, refl, String, Bool, true, false, Option, none, some, List, [], ◌∷◌, arith,
  leb, if◌then◌else◌, length, All, Option-cases, inl, inr, min,
}
use gonuts.Library.{Library, Bytes}
use gonuts.Nuts.Signatures.{
  parse_signature, take_signer, count_signature, valid_signatures, has_valid_signatures,
}

module _ (lib : Library) (hash : Bytes) where
  open lib use {PublicKey, Signature, verify_schnorr}

  abbrev pub verifies : Option Signature → PublicKey → Bool
  verifies none k = false
  verifies (some sig) k = verify_schnorr sig hash k

  -- Whether a key made one of the signatures.
  abbrev pub has_signed : List String → PublicKey → Bool
  has_signed [] k = false
  has_signed (s ∷ signatures) k =
      if verifies (parse_signature lib hash s) k then true else has_signed signatures k

  -- At how many places of the list stands a key that made one of the signatures.
  abbrev pub signers : List String → List PublicKey → ℕ
  signers signatures [] = 0
  signers signatures (k ∷ ks) =
      if has_signed signatures k then suc (signers signatures ks) else signers signatures ks

  signers-more :
      (s : String) (signatures : List String) (keys : List PublicKey)
      → signers signatures keys ≤ signers (s ∷ signatures) keys
  signers-more s signatures [] = omega arith
  signers-more s signatures (k ∷ ks) = ground (arith, signers-more s signatures ks)

  -- What `take_signer` leaves is one key shorter, and that key has signed.
  abbrev Taken : String → List String → List PublicKey → List PublicKey → Type 0
  Taken s signatures keys left =
      (length keys ≡ suc (length left))
      × (signers signatures left + 1 ≤ signers (s ∷ signatures) keys)

  take_signer-Taken :
      (s : String) (sig : Signature) (signatures : List String) (keys left : List PublicKey)
      → parse_signature lib hash s ≡ some sig
      → take_signer lib hash sig keys ≡ some left
      → Taken s signatures keys left
  unfolding take_signer
  take_signer-Taken s sig signatures [] left e h = cc
  take_signer-Taken s sig signatures (k ∷ ks) left e h =
      elim (Option-cases (take_signer lib hash sig ks)) [
        | inl none_left ↦ ground (arith, signers-more s signatures ks)
        | inr (left', found) ↦ ground (
          arith,
          signers-more s signatures ks,
          take_signer-Taken s sig signatures ks left' e found,
        )
      ]

  -- The last key stays on the list, and it has signed.
  signers-last :
      (s : String) (sig : Signature) (signatures : List String) (keys left : List PublicKey)
      → parse_signature lib hash s ≡ some sig
      → take_signer lib hash sig keys ≡ some left
      → 1 ≤ signers (s ∷ signatures) keys
  signers-last s sig signatures keys left e h =
      omega (arith, take_signer-Taken s sig signatures keys left e h)

  min-valid-le-signers :
      (signatures : List String) (keys : List PublicKey)
      → min (valid_signatures lib hash signatures keys) (length keys) ≤ signers signatures keys
  unfolding valid_signatures count_signature
  min-valid-le-signers [] keys = omega arith
  min-valid-le-signers (s ∷ signatures) keys = elim (Option-cases (parse_signature lib hash s)) [
    | inl bad ↦
        rw bad (omega (arith, min-valid-le-signers signatures keys, signers-more s signatures keys))
    | inr (sig, e) ↦ elim (Option-cases (take_signer lib hash sig keys)) [
      | inl no_key ↦
          ground
            (arith, e, no_key, min-valid-le-signers signatures keys, signers-more s signatures keys)
      | inr (left, found) ↦ ground (
        arith,
        e,
        found,
        take_signer-Taken s sig signatures keys left e found,
        min-valid-le-signers signatures left,
        min-valid-le-signers signatures keys,
      )
    ]
  ]

  -- When the threshold is at most the length of the list of keys, an accepted witness holds
  -- signatures by the keys at that many places of the list at least. A key that stands at two places
  -- counts at both.
  pub has_valid_signatures_sound :
      (signatures : List String) (n : ℕ) (keys : List PublicKey)
      → n ≤ length keys
      → has_valid_signatures lib hash signatures n keys ≡ true
      → n ≤ signers signatures keys
  unfolding has_valid_signatures
  has_valid_signatures_sound signatures n keys le h =
      ground (arith, min-valid-le-signers signatures keys)

  abbrev pub AllBy : PublicKey → List String → Type 0
  AllBy k = All (λ s. verifies (parse_signature lib hash s) k ≡ true)

  valid_signatures-single :
      (k : PublicKey) (signatures : List String)
      → AllBy k signatures
      → valid_signatures lib hash signatures (k ∷ []) ≡ length signatures
  unfolding valid_signatures count_signature take_signer
  valid_signatures-single k [] h = refl
  valid_signatures-single k (s ∷ signatures) h =
      ground (arith, valid_signatures-single k signatures)

  -- A single key reaches every threshold: with one key on the list, a witness whose signatures are
  -- all valid under it is accepted exactly when it holds as many signatures as are required.
  pub has_valid_signatures-single :
      (k : PublicKey) (signatures : List String) (n : ℕ)
      → AllBy k signatures
      → has_valid_signatures lib hash signatures n (k ∷ []) ≡ leb n (length signatures)
  unfolding has_valid_signatures
  has_valid_signatures-single k signatures n h = rw (valid_signatures-single k signatures h)
