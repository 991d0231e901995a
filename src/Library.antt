-- ===== src/Library.antt =====
-- What the repository calls and does not hold: hashing, the curve and the signatures of secp256k1,
-- JSON and hexadecimal text. Each is a parameter of the definitions that use it; laws that a
-- theorem relies on are its hypotheses.
use gonuts.Prelude.{ℕ, ◌≡◌, String, Bool, true, Option, some, List}

abbrev pub Bytes : Type 0
Bytes = List ℕ

-- nut10.SecretData
pub record SecretData : Type 0 where
  pub nonce : String
  pub text : String
  pub tags : List (List String)

-- nut14.HTLCWitness; nut11.P2PKWitness is its `signatures` alone.
pub record HtlcWitness : Type 0 where
  pub preimage : String
  pub signatures : List String

pub record Library : Type 1 where
  pub PublicKey : Type 0
  pub PrivateKey : Type 0
  pub Signature : Type 0
  -- the JSON values in a `json.RawMessage`
  pub Raw : Type 0
  -- `[]byte(s)`
  pub bytes_of : String → Bytes
  -- encoding/hex
  pub encode_hex : Bytes → String
  pub decode_hex : String → Option Bytes
  -- crypto/sha256
  pub sha256 : Bytes → Bytes
  -- secp256k1
  pub parse_public_key : Bytes → Option PublicKey
  pub serialize_compressed : PublicKey → Bytes
  pub is_on_curve : PublicKey → Bool
  pub same_key : PublicKey → PublicKey → Bool
  -- a private key is a scalar, a public key a point: the key of a scalar, sum, product, negation
  pub public_of : PrivateKey → PublicKey
  pub add_points : PublicKey → PublicKey → PublicKey
  pub scalar_mult : PrivateKey → PublicKey → PublicKey
  pub add_scalars : PrivateKey → PrivateKey → PrivateKey
  pub mul_scalars : PrivateKey → PrivateKey → PrivateKey
  pub negate : PrivateKey → PrivateKey
  pub private_key_of : Bytes → PrivateKey
  pub serialize : PrivateKey → Bytes
  pub serialize_uncompressed : PublicKey → Bytes
  -- schnorr
  pub parse_schnorr : Bytes → Option Signature
  pub verify_schnorr : Signature → Bytes → PublicKey → Bool
  -- encoding/json: `none` for an error; a witness is also what an error leaves of it
  pub unmarshal_array : String → Option (List Raw)
  pub unmarshal_text : Raw → Option String
  pub unmarshal_secret_data : Raw → Option SecretData
  pub unmarshal_p2pk_witness : String → Bool × List String
  pub unmarshal_htlc_witness : String → Bool × HtlcWitness

-- The documented behaviour of secp256k1 that the correctness of the signatures rests on: points
-- are a group with commutative addition, on which scalars act, and keys are compared by value.
module _ (lib : Library) where
  open lib use {
    PublicKey, PrivateKey, same_key, public_of, add_points, scalar_mult, add_scalars, mul_scalars,
    negate,
  }

  pub record CurveLaws : Type 0 where
    pub same_key_refl : (p : PublicKey) → same_key p p ≡ true
    pub add_assoc :
        (p q r : PublicKey) → add_points (add_points p q) r ≡ add_points p (add_points q r)
    -- p + k r + (- k) r = p
    pub add_cancel :
        (p r : PublicKey) (k : PrivateKey)
        → add_points (add_points p (scalar_mult k r)) (scalar_mult (negate k) r) ≡ p
    pub mult_add_points :
        (k : PrivateKey) (p q : PublicKey)
        → scalar_mult k (add_points p q) ≡ add_points (scalar_mult k p) (scalar_mult k q)
    pub mult_add_scalars :
        (j k : PrivateKey) (p : PublicKey)
        → scalar_mult (add_scalars j k) p ≡ add_points (scalar_mult j p) (scalar_mult k p)
    pub mult_mult :
        (j k : PrivateKey) (p : PublicKey)
        → scalar_mult (mul_scalars j k) p ≡ scalar_mult j (scalar_mult k p)
    pub mult_comm :
        (j k : PrivateKey) (p : PublicKey)
        → scalar_mult j (scalar_mult k p) ≡ scalar_mult k (scalar_mult j p)
    -- the key of a scalar is its product with the generator
    pub public_add_scalars :
        (j k : PrivateKey) → public_of (add_scalars j k) ≡ add_points (public_of j) (public_of k)
    pub public_mul_scalars :
        (j k : PrivateKey) → public_of (mul_scalars j k) ≡ scalar_mult j (public_of k)
    pub mult_public_comm :
        (j k : PrivateKey) → scalar_mult j (public_of k) ≡ scalar_mult k (public_of j)

-- What is written is read back: hexadecimal text, and the points and scalars of secp256k1.
module _ (lib : Library) where
  open lib use {
    PublicKey, PrivateKey, encode_hex, decode_hex, parse_public_key, serialize_compressed,
    private_key_of, serialize,
  }

  pub record CodecLaws : Type 0 where
    pub decode_encode : (b : Bytes) → decode_hex (encode_hex b) ≡ some b
    -- the point at infinity has bytes that are not read back
    pub parse_serialize :
        (p q : PublicKey) → parse_public_key (serialize_compressed p) ≡ some q → q ≡ p
    pub parse_parsed :
        (b : Bytes) (p : PublicKey)
        → parse_public_key b ≡ some p
        → parse_public_key (serialize_compressed p) ≡ some p
    pub read_serialize : (k : PrivateKey) → private_key_of (serialize k) ≡ k
