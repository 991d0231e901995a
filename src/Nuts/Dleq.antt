-- ===== src/Nuts/Dleq.antt =====
-- cashu/nuts/nut12/nut12.go: the DLEQ proofs as the wallet checks them. `same_bytes` is the
-- comparison of two byte slices in `VerifyDLEQ`.
pub mod Laws
use gonuts.Prelude.{
  ℕ, String, Bool, true, false, Option, none, some, List, [], ◌∷◌, str_eq, if◌then◌else◌,
}
use gonuts.Errors.{Result, ok, err, panic}
use gonuts.Library.{Library, Bytes}
use gonuts.Cashu.{Proof, DleqProof, DleqPointer}
use gonuts.Crypto.Bdhke.{blind_message, verify_dleq}
use gonuts.Crypto.Keyset.{key_for}

module _ (lib : Library) where
  open lib use {
    PublicKey, PrivateKey, decode_hex, parse_public_key, private_key_of, add_points, scalar_mult,
  }

  -- hex.DecodeString and PrivKeyFromBytes
  unfoldable pub parse_scalar : String → Option PrivateKey
  parse_scalar text = elim (decode_hex text) [ none ↦ none | some b ↦ some (private_key_of b) ]

  -- hex.DecodeString and ParsePubKey
  unfoldable pub parse_point : String → Option PublicKey
  parse_point text = elim (decode_hex text) [ none ↦ none | some b ↦ parse_public_key b ]

  -- the third scalar, which is nil where `R` is empty
  parse_r : String → Option (Option PrivateKey)
  parse_r text =
      if str_eq text ""
      then some none
      else elim (parse_scalar text) [ none ↦ none | some r ↦ some (some r) ]

  -- ParseDLEQ
  unfoldable pub parse_dleq : DleqProof → Option (PrivateKey × PrivateKey × Option PrivateKey)
  unfolding parse_r
  parse_dleq dleq = elim (parse_scalar dleq.e) [
    | none ↦ none
    | some e ↦ elim (parse_scalar dleq.s) [
      | none ↦ none
      | some s ↦ elim (parse_r dleq.r) [ none ↦ none | some r ↦ some (e, s, r) ]
    ]
  ]

  module _ (same_bytes : Bytes → Bytes → Bool) where
    -- VerifyBlindSignatureDLEQ
    unfoldable pub verify_blind_signature_dleq : DleqProof → PublicKey → String → String → Bool
    unfolding parse_dleq
    verify_blind_signature_dleq dleq a b_text c_text = elim (parse_dleq dleq) [
      | none ↦ false
      | some (e, s, r) ↦ elim (parse_point b_text) [
        | none ↦ false
        | some b_ ↦ elim (parse_point c_text) [
          | none ↦ false
          | some c_ ↦ verify_dleq lib same_bytes e s a b_ c_
        ]
      ]
    ]

    -- C' = C + r*A, and the check of the proof
    with_point :
        PrivateKey → PrivateKey → PrivateKey → PublicKey → PublicKey → Option PublicKey → Bool
    with_point e s r a b_ none = false
    with_point e s r a b_ (some c) =
        verify_dleq lib same_bytes e s a b_ (add_points c (scalar_mult r a))

    -- The blinded message is made again; a loop of HashToCurve without end is one here too.
    with_message :
        PrivateKey
        → PrivateKey
        → PrivateKey
        → PublicKey
        → Option PublicKey
        → Result PublicKey
        → Result Bool
    unfolding with_point
    with_message e s r a c panic = panic
    with_message e s r a c (err problem) = ok false
    with_message e s r a c (ok b_) = ok (with_point e s r a b_ c)

    with_scalars :
        Proof → PublicKey → Option (PrivateKey × PrivateKey × Option PrivateKey) → Result Bool
    unfolding with_message
    with_scalars proof a none = ok false
    with_scalars proof a (some (e, s, none)) = ok false
    with_scalars proof a (some (e, s, some r)) =
        with_message e s r a (parse_point proof.c) (blind_message lib proof.secret r)

    -- VerifyProofDLEQ, for a proof that has one
    unfoldable pub verify_proof_dleq : Proof → DleqProof → PublicKey → Result Bool
    unfolding parse_dleq with_scalars
    verify_proof_dleq proof dleq a = with_scalars proof a (parse_dleq dleq)

    -- one round of the loop of VerifyProofsDLEQ
    unfoldable pub verify_pointer : List (ℕ × PublicKey) → Proof → Option DleqPointer → Result Bool
    unfolding verify_proof_dleq
    verify_pointer keys proof none = ok true
    verify_pointer keys proof (some pointer) = elim (key_for proof.amount keys) [
      | none ↦ ok false
      | some key ↦ verify_proof_dleq proof pointer.value key
    ]

    -- VerifyProofsDLEQ
    unfoldable pub verify_proofs_dleq : List (ℕ × PublicKey) → List Proof → Result Bool
    unfolding verify_pointer
    verify_proofs_dleq keys [] = ok true
    verify_proofs_dleq keys (p ∷ ps) = elim (verify_pointer keys p p.dleq) [
      | panic ↦ panic
      | err problem ↦ err problem
      | ok false ↦ ok false
      | ok true ↦ verify_proofs_dleq keys ps
    ]
