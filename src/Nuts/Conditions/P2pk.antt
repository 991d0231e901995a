-- ===== src/Nuts/Conditions/P2pk.antt =====
-- When a proof that is locked to keys is accepted.
use gonuts.Prelude.{
  ℕ, zero, suc, ◌≤◌, ◌≡◌, refl, ◌⊎◌, inl, inr, String, true, false, List, [], ◌∷◌, arith, length,
  if◌then◌else◌, Bool-cases,
}
use gonuts.Errors.{ok, ◌>>=◌, >>=-eq-ok}
use gonuts.Library.{Library, Bytes}
use gonuts.Cashu.{Proof}
use gonuts.Nuts.Secrets.{WellKnownSecret}
use gonuts.Nuts.Tags.{P2pkTags, parse_p2pk_tags, parse_key}
use gonuts.Nuts.Signatures.{has_valid_signatures}
use gonuts.Nuts.Signatures.Threshold.{signers, has_valid_signatures_sound}
use gonuts.Nuts.Conditions.{
  is_expired, verify_p2pk_locked_proof, check_refund, check_locked, required_keys, check_signatures,
}

module _ (lib : Library) where
  open lib use {PublicKey, bytes_of, sha256, unmarshal_p2pk_witness}

  -- How many signatures a secret asks for, and by which keys.
  abbrev pub threshold : ℕ → ℕ
  threshold zero = 1
  threshold (suc n) = suc n

  abbrev pub signer_keys : ℕ → PublicKey → List PublicKey → List PublicKey
  signer_keys zero key pubkeys = key ∷ []
  signer_keys (suc n) key pubkeys = key ∷ pubkeys

  -- After the lock: there is no refund key, or one of them has signed.
  abbrev pub Refunded : Bytes → List String → List PublicKey → Type 0
  Refunded hash signatures keys = (keys ≡ []) ⊎ (1 ≤ signers lib hash signatures keys)

  -- Before it: as many keys have signed as the secret asks for, if it lists so many.
  abbrev pub Unlocked : Bytes → List String → String → P2pkTags PublicKey → Type 0
  Unlocked hash signatures text tags =
      (key : PublicKey) × (parse_key lib text ≡ ok key)
      × (threshold tags.n_sigs ≤ length (signer_keys tags.n_sigs key tags.pubkeys)
          → threshold tags.n_sigs
            ≤ signers lib hash signatures (signer_keys tags.n_sigs key tags.pubkeys))

  pub check_refund-Refunded :
      (hash : Bytes) (signatures : List String) (keys : List PublicKey)
      → check_refund lib hash signatures keys ≡ ok tt
      → Refunded hash signatures keys
  unfolding check_refund
  check_refund-Refunded hash signatures [] h = inl refl
  check_refund-Refunded hash signatures (k ∷ ks) h =
      inr (has_valid_signatures_sound lib hash signatures 1 (k ∷ ks) (omega arith) (ground arith))

  valid_when_locked :
      (hash : Bytes) (signatures : List String) (n : ℕ) (key : PublicKey) (pubkeys : List PublicKey)
      → (required_keys lib n key pubkeys >>= check_signatures lib hash signatures) ≡ ok tt
      → has_valid_signatures lib hash signatures (threshold n) (signer_keys n key pubkeys) ≡ true
  unfolding required_keys check_signatures
  valid_when_locked hash signatures zero key pubkeys h = ground arith
  valid_when_locked hash signatures (suc n) key [] h = cc
  valid_when_locked hash signatures (suc n) key (k ∷ pubkeys) h = ground arith

  pub check_locked-Unlocked :
      (hash : Bytes) (signatures : List String) (text : String) (tags : P2pkTags PublicKey)
      → check_locked lib hash signatures text tags ≡ ok tt
      → Unlocked hash signatures text tags
  unfolding check_locked
  check_locked-Unlocked hash signatures text tags h =
      let (key, parsed, rest) = >>=-eq-ok (parse_key lib text) _ h in
      (
        key,
        parsed,
        λ le.
            has_valid_signatures_sound lib hash signatures (threshold tags.n_sigs)
              (signer_keys tags.n_sigs key tags.pubkeys) le
              (valid_when_locked hash signatures tags.n_sigs key tags.pubkeys rest),
      )

  abbrev pub Spendable : ℕ → Bytes → List String → String → P2pkTags PublicKey → Type 0
  Spendable now hash signatures text tags =
      ((is_expired tags.locktime now ≡ true) × Refunded hash signatures tags.refund)
      ⊎ ((is_expired tags.locktime now ≡ false) × Unlocked hash signatures text tags)

  either_branch :
      (now : ℕ) (hash : Bytes) (signatures : List String) (text : String)
      (tags : P2pkTags PublicKey)
      → (if is_expired tags.locktime now
          then check_refund lib hash signatures tags.refund
          else check_locked lib hash signatures text tags)
        ≡ ok tt
      → Spendable now hash signatures text tags
  either_branch now hash signatures text tags h = elim (Bool-cases (is_expired tags.locktime now)) [
    | inl late ↦ inl (late, check_refund-Refunded hash signatures tags.refund (rw late at h))
    | inr early ↦ inr (early, check_locked-Unlocked hash signatures text tags (rw early at h))
  ]

  -- An accepted P2PK proof has tags that parse. When the lock has expired, there is no refund key
  -- or one of the refund keys signed the secret. Otherwise the key of the secret parses, and if
  -- the secret names as many keys as the signatures it asks for, at least so many of them signed.
  pub verify_p2pk_locked_proof-Spendable :
      (now : ℕ) (proof : Proof) (secret : WellKnownSecret)
      → verify_p2pk_locked_proof lib now proof secret ≡ ok tt
      → (tags : P2pkTags PublicKey) × (parse_p2pk_tags lib secret.content.tags ≡ ok tags)
        × Spendable now
            (sha256 (bytes_of proof.secret))
            (unmarshal_p2pk_witness proof.witness).1
            secret.content.text
            tags
  unfolding verify_p2pk_locked_proof
  verify_p2pk_locked_proof-Spendable now proof secret h =
      let (tags, parsed, rest) = >>=-eq-ok (parse_p2pk_tags lib secret.content.tags) _ h in
      (tags, parsed, either_branch now _ _ _ tags rest)
