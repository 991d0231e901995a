-- ===== src/Crypto/Bdhke.antt =====
-- crypto/bdhke.go: blinding, signing, unblinding and verifying, and the proof that two points have
-- the same discrete logarithm (DLEQ).
use gonuts.Prelude.{◌≡◌, ap, String, Bool, true, false, List, [], ◌∷◌, ◌++◌}
use gonuts.Errors.{Result, ok, err, panic, ◌>>=◌, >>=-eq-ok, ok_injective}
use gonuts.Library.{Library, Bytes, CurveLaws}
use gonuts.Crypto.HashToCurve.{hash_to_curve}

module _ (lib : Library) where
  open lib use {
    PublicKey, PrivateKey, bytes_of, encode_hex, sha256, same_key, public_of, add_points,
    scalar_mult, add_scalars, mul_scalars, negate, private_key_of, serialize,
    serialize_uncompressed,
  }

  -- BlindMessage: B_ = Y + rG
  unfoldable pub blind_message : String → PrivateKey → Result PublicKey
  blind_message secret r = do
    y ← hash_to_curve lib (bytes_of secret)
    ok (add_points y (public_of r))

  -- SignBlindedMessage: C_ = kB_
  unfoldable pub sign_blinded_message : PublicKey → PrivateKey → PublicKey
  sign_blinded_message b_ k = scalar_mult k b_

  -- UnblindSignature: C = C_ - rK
  unfoldable pub unblind_signature : PublicKey → PrivateKey → PublicKey → PublicKey
  unblind_signature c_ r key = add_points c_ (scalar_mult (negate r) key)

  -- verify: k * HashToCurve(secret) == C
  unfoldable pub verify_point : PublicKey → PrivateKey → PublicKey → Bool
  verify_point y k c = same_key c (scalar_mult k y)

  -- Verify; a loop of HashToCurve without end is one here too.
  unfoldable pub verify : String → PrivateKey → PublicKey → Result Bool
  unfolding verify_point
  verify secret k c = elim (hash_to_curve lib (bytes_of secret)) [
    | ok y ↦ ok (verify_point y k c)
    | err e ↦ ok false
    | panic ↦ panic
  ]

  -- HashE
  hex_keys : List PublicKey → Bytes
  hex_keys [] = []
  hex_keys (k ∷ ks) = bytes_of (encode_hex (serialize_uncompressed k)) ++ hex_keys ks

  unfoldable pub hash_e : List PublicKey → Bytes
  unfolding hex_keys
  hash_e keys = sha256 (hex_keys keys)

  -- GenerateDLEQ, with the random scalar r: e and s.
  unfoldable pub generate_dleq :
      PrivateKey → PrivateKey → PublicKey → PublicKey → PrivateKey × PrivateKey
  generate_dleq r a b_ c_ =
      let e = private_key_of (hash_e (public_of r ∷ scalar_mult r b_ ∷ public_of a ∷ c_ ∷ [])) in
      (e, add_scalars r (mul_scalars e a))

  -- the two points that VerifyDLEQ hashes
  unfoldable pub r1_point : PrivateKey → PrivateKey → PublicKey → PublicKey
  r1_point e s a = add_points (public_of s) (scalar_mult (negate e) a)

  unfoldable pub r2_point : PrivateKey → PrivateKey → PublicKey → PublicKey → PublicKey
  r2_point e s b_ c_ = add_points (scalar_mult s b_) (scalar_mult (negate e) c_)

  -- VerifyDLEQ
  unfoldable pub verify_dleq :
      (Bytes → Bytes → Bool) → PrivateKey → PrivateKey → PublicKey → PublicKey → PublicKey → Bool
  unfolding r1_point r2_point
  verify_dleq same_bytes e s a b_ c_ =
      same_bytes (serialize e) (hash_e (r1_point e s a ∷ r2_point e s b_ c_ ∷ a ∷ c_ ∷ []))

  module _ (laws : CurveLaws lib) where
    -- What the mint signs blindly, unblinded by the wallet, is k times the point of the secret.
    unblind-sign :
        (y : PublicKey) (r k : PrivateKey)
        → unblind_signature (sign_blinded_message (add_points y (public_of r)) k) r (public_of k)
          ≡ scalar_mult k y
    unfolding unblind_signature sign_blinded_message
    unblind-sign y r k =
        rw (laws.mult_add_points k y (public_of r), laws.mult_public_comm k r)
          (laws.add_cancel (scalar_mult k y) (public_of k) r)

    -- For the outputs of a secret, it is a multiple of a point that was parsed.
    pub unblind-blind :
        (secret : String) (r k : PrivateKey) (b_ : PublicKey)
        → blind_message secret r ≡ ok b_
        → (y : PublicKey) × (hash_to_curve lib (bytes_of secret) ≡ ok y)
          × (unblind_signature (sign_blinded_message b_ k) r (public_of k) ≡ scalar_mult k y)
    unfolding blind_message
    unblind-blind secret r k b_ h =
        let (y, found, blinded) = >>=-eq-ok (hash_to_curve lib (bytes_of secret)) _ h in
        (y, found, rw (← ok_injective blinded) (unblind-sign y r k))

    r1_point_lem :
        (r e a : PrivateKey)
        → r1_point e (add_scalars r (mul_scalars e a)) (public_of a) ≡ public_of r
    unfolding r1_point
    r1_point_lem r e a =
        rw (laws.public_add_scalars r (mul_scalars e a), laws.public_mul_scalars e a, r1_point)
          (laws.add_cancel (public_of r) (public_of a) e)

    r2_point_lem :
        (r e a : PrivateKey) (b_ : PublicKey)
        → r2_point e (add_scalars r (mul_scalars e a)) b_ (scalar_mult a b_) ≡ scalar_mult r b_
    unfolding r2_point
    r2_point_lem r e a b_ =
        rw (laws.mult_add_scalars r (mul_scalars e a) b_, laws.mult_mult e a b_, r2_point)
          (laws.add_cancel (scalar_mult r b_) (scalar_mult a b_) e)

    -- By the laws of the curve, a signature that the mint makes on a secret that could be blinded,
    -- unblinded with the blinding factor, verifies under the mint's key, whatever the factor.
    pub verify-unblind-sign :
        (secret : String) (r k : PrivateKey) (b_ : PublicKey)
        → blind_message secret r ≡ ok b_
        → verify secret k (unblind_signature (sign_blinded_message b_ k) r (public_of k)) ≡ ok true
    unfolding verify blind_message
    verify-unblind-sign secret r k b_ h =
        let (y, found, blinded) = >>=-eq-ok (hash_to_curve lib (bytes_of secret)) _ h in
        rw (found, verify, verify_point, ← ok_injective blinded, unblind-sign y r k)
          (ap ok (laws.same_key_refl (scalar_mult k y)))

    -- By the laws of the curve, the proof that the mint makes for a signature verifies, if the
    -- comparison of bytes is reflexive and the scalar read from the hash of the proof is written as
    -- that hash.
    pub verify_dleq-generate_dleq :
        (same_bytes : Bytes → Bytes → Bool) (r a : PrivateKey) (b_ : PublicKey)
        → ((b : Bytes) → same_bytes b b ≡ true)
        → (let h =
              hash_e
                (public_of r ∷ scalar_mult r b_ ∷ public_of a ∷ sign_blinded_message b_ a ∷ []) in
            serialize (private_key_of h) ≡ h)
        → (let (e, s) = generate_dleq r a b_ (sign_blinded_message b_ a) in
            verify_dleq same_bytes e s (public_of a) b_ (sign_blinded_message b_ a) ≡ true)
    unfolding verify_dleq generate_dleq sign_blinded_message
    verify_dleq-generate_dleq same_bytes r a b_ same canonical =
        rw (r1_point_lem r _ a, r2_point_lem r _ a b_, canonical) (same _)
