-- ===== src/Nuts/Dleq/Laws.antt =====
-- A DLEQ proof as the mint writes it passes the checks of nut12, once its parts are read back.
use gonuts.Prelude.{◌≡◌, refl, ap, true, Bool, none, some, [], ◌∷◌}
use gonuts.Library.{Library, Bytes, CurveLaws, CodecLaws}
use gonuts.Cashu.{DleqProof}
use gonuts.Crypto.Bdhke.{sign_blinded_message, generate_dleq, hash_e, verify_dleq-generate_dleq}
use gonuts.Nuts.Dleq.{parse_point, parse_scalar, parse_dleq, verify_blind_signature_dleq}

module _ (lib : Library) (codec : CodecLaws lib) where
  open lib use {
    PublicKey, PrivateKey, encode_hex, serialize_compressed, serialize, public_of, scalar_mult,
  }

  -- A point that can be written and read back: it is not the one at infinity.
  abbrev pub IsWritable : PublicKey → Type 0
  IsWritable p = lib.parse_public_key (serialize_compressed p) ≡ some p

  pub parse_point-encode :
      (p : PublicKey)
      → IsWritable p
      → parse_point lib (encode_hex (serialize_compressed p)) ≡ some p
  unfolding parse_point
  parse_point-encode p writable =
      rw (codec.decode_encode (serialize_compressed p), parse_point) writable

  -- What is read from the text of a point is the point, which is then writable.
  pub parse_point-written :
      (p q : PublicKey)
      → parse_point lib (encode_hex (serialize_compressed p)) ≡ some q
      → (q ≡ p) × IsWritable p
  unfolding parse_point
  parse_point-written p q h =
      let read : lib.parse_public_key (serialize_compressed p) ≡ some q =
        rw (codec.decode_encode (serialize_compressed p), parse_point) at h in
      let same = codec.parse_serialize p q read in (same, rw same at read)

  parse_scalar-encode : (k : PrivateKey) → parse_scalar lib (encode_hex (serialize k)) ≡ some k
  unfolding parse_scalar
  parse_scalar-encode k =
      rw (codec.decode_encode (serialize k), parse_scalar) (ap some (codec.read_serialize k))

  abbrev pub dleq_of : PrivateKey → PrivateKey → DleqProof
  dleq_of e s = record { e = encode_hex (serialize e); s = encode_hex (serialize s); r = "" }

  parse_dleq-encode : (e s : PrivateKey) → parse_dleq lib (dleq_of e s) ≡ some (e, s, none)
  unfolding parse_dleq
  parse_dleq-encode e s = rw (parse_scalar-encode e, parse_scalar-encode s, parse_dleq) refl

  -- The hash of one DLEQ proof is written as the scalar that is read from it: it is below the order of
  -- the group.
  abbrev pub HasScalar : PrivateKey → PrivateKey → PublicKey → Type 0
  HasScalar r k b_ =
      (let h =
          hash_e lib
            (public_of r ∷ scalar_mult r b_ ∷ public_of k ∷ sign_blinded_message lib b_ k ∷ []) in
        serialize (lib.private_key_of h) ≡ h)

  module _ (curve : CurveLaws lib) (same_bytes : Bytes → Bytes → Bool)
      (same : (b : Bytes) → same_bytes b b ≡ true) where
    -- The DLEQ proof of the mint passes the check of the wallet.
    pub verify_blind_signature_dleq-signature :
        (r k : PrivateKey) (b_ : PublicKey)
        → HasScalar r k b_
        → IsWritable b_
        → IsWritable (sign_blinded_message lib b_ k)
        → (let (e, s) = generate_dleq lib r k b_ (sign_blinded_message lib b_ k) in
            verify_blind_signature_dleq lib same_bytes
              (dleq_of e s)
              (public_of k)
              (encode_hex (serialize_compressed b_))
              (encode_hex (serialize_compressed (sign_blinded_message lib b_ k)))
            ≡ true)
    unfolding verify_blind_signature_dleq
    verify_blind_signature_dleq-signature r k b_ fits writable signed =
        let c_ = sign_blinded_message lib b_ k in
        rw
          (
            parse_dleq-encode (generate_dleq lib r k b_ c_).0 (generate_dleq lib r k b_ c_).1,
            parse_point-encode b_ writable,
            parse_point-encode c_ signed,
            verify_blind_signature_dleq,
          )
          (verify_dleq-generate_dleq lib curve same_bytes r k b_ same fits)
