-- ===== src/Nuts/Conditions/Htlc.antt =====
-- When a proof that is locked to a hash is accepted.
use gonuts.Prelude.{
  ℕ, zero, suc, ◌≤◌, ◌≡◌, ◌⊎◌, inl, inr, String, true, false, some, List, arith, length,
  if◌then◌else◌, Bool-cases, Option-cases, str_eq_iff,
}
use gonuts.Errors.{ok, ◌>>◌, >>=-eq-ok}
use gonuts.Library.{Library, Bytes, HtlcWitness}
use gonuts.Cashu.{Proof}
use gonuts.Nuts.Secrets.{WellKnownSecret}
use gonuts.Nuts.Tags.{P2pkTags, parse_p2pk_tags}
use gonuts.Nuts.Signatures.Threshold.{signers, has_valid_signatures_sound}
use gonuts.Nuts.Conditions.{
  is_expired, verify_htlc_proof, check_refund, check_preimage, check_htlc_signatures,
}
use gonuts.Nuts.Conditions.P2pk.{Refunded, check_refund-Refunded}

module _ (lib : Library) where
  open lib use {PublicKey, bytes_of, sha256, encode_hex, decode_hex, unmarshal_htlc_witness}

  -- The preimage decodes to bytes whose hash is the text of the secret.
  abbrev pub IsPreimage : String → String → Type 0
  IsPreimage preimage text =
      (bytes : Bytes) × (decode_hex preimage ≡ some bytes) × (encode_hex (sha256 bytes) ≡ text)

  abbrev pub Claimed : Bytes → HtlcWitness → String → P2pkTags PublicKey → Type 0
  Claimed hash witness text tags =
      IsPreimage witness.preimage text
      × (tags.n_sigs ≤ length tags.pubkeys
          → tags.n_sigs ≤ signers lib hash witness.signatures tags.pubkeys)

  check_preimage-IsPreimage :
      (preimage text : String) → check_preimage lib preimage text ≡ ok tt → IsPreimage preimage text
  unfolding check_preimage
  check_preimage-IsPreimage preimage text h = elim (Option-cases (decode_hex preimage)) [
    | inl bad ↦ ground arith
    | inr (bytes, e) ↦ (bytes, e, (str_eq_iff (encode_hex (sha256 bytes)) text).0 (ground arith))
  ]

  check_htlc_signatures_sound :
      (n : ℕ) (hash : Bytes) (signatures : List String) (keys : List PublicKey)
      → check_htlc_signatures lib n hash signatures keys ≡ ok tt
      → n ≤ length keys
      → n ≤ signers lib hash signatures keys
  unfolding check_htlc_signatures
  check_htlc_signatures_sound zero hash signatures keys h le = omega arith
  check_htlc_signatures_sound (suc n) hash signatures keys h le =
      has_valid_signatures_sound lib hash signatures (suc n) keys le (ground arith)

  claimed :
      (hash : Bytes) (witness : HtlcWitness) (text : String) (tags : P2pkTags PublicKey)
      → (check_preimage lib witness.preimage text
          >> check_htlc_signatures lib tags.n_sigs hash witness.signatures tags.pubkeys)
        ≡ ok tt
      → Claimed hash witness text tags
  claimed hash witness text tags h =
      let (_, preimage, rest) = >>=-eq-ok (check_preimage lib witness.preimage text) _ h in
      (
        check_preimage-IsPreimage witness.preimage text preimage,
        check_htlc_signatures_sound tags.n_sigs hash witness.signatures tags.pubkeys rest,
      )

  abbrev pub Redeemable : ℕ → Bytes → HtlcWitness → String → P2pkTags PublicKey → Type 0
  Redeemable now hash witness text tags =
      ((is_expired tags.locktime now ≡ true) × Refunded lib hash witness.signatures tags.refund)
      ⊎ ((is_expired tags.locktime now ≡ false) × Claimed hash witness text tags)

  either_branch :
      (now : ℕ) (hash : Bytes) (witness : HtlcWitness) (text : String) (tags : P2pkTags PublicKey)
      → (if is_expired tags.locktime now
          then check_refund lib hash witness.signatures tags.refund
          else check_preimage lib witness.preimage text
            >> check_htlc_signatures lib tags.n_sigs hash witness.signatures tags.pubkeys)
        ≡ ok tt
      → Redeemable now hash witness text tags
  either_branch now hash witness text tags h = elim (Bool-cases (is_expired tags.locktime now)) [
    | inl late ↦
        inl (late, check_refund-Refunded lib hash witness.signatures tags.refund (rw late at h))
    | inr early ↦ inr (early, claimed hash witness text tags (rw early at h))
  ]

  -- An accepted HTLC proof has tags that parse. When the lock has expired, there is no refund key
  -- or one of the refund keys signed the secret. Otherwise the witness holds a preimage of the
  -- hash in the secret, and if the secret names as many keys as the signatures it asks for, at
  -- least so many of them signed.
  pub verify_htlc_proof-Redeemable :
      (now : ℕ) (proof : Proof) (secret : WellKnownSecret)
      → verify_htlc_proof lib now proof secret ≡ ok tt
      → (tags : P2pkTags PublicKey) × (parse_p2pk_tags lib secret.content.tags ≡ ok tags)
        × Redeemable now
            (sha256 (bytes_of proof.secret))
            (unmarshal_htlc_witness proof.witness).1
            secret.content.text
            tags
  unfolding verify_htlc_proof
  verify_htlc_proof-Redeemable now proof secret h =
      let (tags, parsed, rest) = >>=-eq-ok (parse_p2pk_tags lib secret.content.tags) _ h in
      (tags, parsed, either_branch now _ _ _ tags rest)
