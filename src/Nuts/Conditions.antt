-- ===== src/Nuts/Conditions.antt =====
-- cashu/nuts/nut11 and nut14: the checks of a proof that is locked to keys or to a hash. `now` is
-- the clock, in seconds; the message that is signed is the hash of the proof's secret.
pub mod P2pk
pub mod Htlc
use Prim.Native.String.{len}
use gonuts.Prelude.{
  ℕ, zero, suc, ◌≡◌, String, Bool, true, false, not, ◌&&◌, Option, none, some, List, [], ◌∷◌, ◌++◌,
  ltb, leb, ◌==◌, str_eq, if◌then◌else◌, length, is_empty,
}
use gonuts.Prelude.Int.{ℤ, pos, negsuc}
use gonuts.Errors.{
  Result, ok, err, ◌>>=◌, ◌>>◌, return_if, invalid_witness, not_enough_signatures, empty_pubkeys,
  duplicate_signatures, no_signatures, invalid_preimage, invalid_hash,
}
use gonuts.Library.{Library, HtlcWitness, Bytes}
use gonuts.Cashu.{Proof}
use gonuts.Cashu.Duplicates.{check_duplicate_signatures}
use gonuts.Nuts.Secrets.{WellKnownSecret, deserialize_secret}
use gonuts.Nuts.Tags.{P2pkTags, parse_p2pk_tags, parse_key, is_sig_all}
use gonuts.Nuts.Signatures.{has_valid_signatures}

-- `locktime > 0 && now > locktime`
abbrev pub is_expired : ℤ → ℕ → Bool
is_expired (pos t) now = ltb 0 t && ltb t now
is_expired (negsuc t) now = false

module _ (lib : Library) where
  open lib use {
    PublicKey, bytes_of, encode_hex, decode_hex, sha256, unmarshal_p2pk_witness,
    unmarshal_htlc_witness,
  }

  -- An expired lock: anyone can spend it, or one of the refund keys where there are any.
  unfoldable pub check_refund : Bytes → List String → List PublicKey → Result (Unit {0})
  check_refund hash signatures [] = ok tt
  check_refund hash signatures (k ∷ ks) = do
    return_if (ltb (length signatures) 1) invalid_witness
    return_if (not (has_valid_signatures lib hash signatures 1 (k ∷ ks))) not_enough_signatures

  -- The signatures that `n_sigs` asks for, and the keys that can make them.
  unfoldable pub required_keys : ℕ → PublicKey → List PublicKey → Result (ℕ × List PublicKey)
  required_keys zero key pubkeys = ok (1, key ∷ [])
  required_keys (suc n) key pubkeys = do
    return_if (is_empty pubkeys) empty_pubkeys
    ok (suc n, key ∷ pubkeys)

  unfoldable pub check_signatures : Bytes → List String → ℕ × List PublicKey → Result (Unit {0})
  check_signatures hash signatures (required, keys) = do
    return_if (ltb (length signatures) 1) invalid_witness
    return_if (check_duplicate_signatures signatures) duplicate_signatures
    return_if (not (has_valid_signatures lib hash signatures required keys)) not_enough_signatures

  unfoldable pub check_locked :
      Bytes → List String → String → P2pkTags PublicKey → Result (Unit {0})
  unfolding required_keys check_signatures
  check_locked hash signatures text tags = do
    key ← parse_key lib text
    required ← required_keys tags.n_sigs key tags.pubkeys
    check_signatures hash signatures required

  -- nut11.VerifyP2PKLockedProof
  unfoldable pub verify_p2pk_locked_proof : ℕ → Proof → WellKnownSecret → Result (Unit {0})
  unfolding check_refund check_locked
  verify_p2pk_locked_proof now proof secret = do
    let signatures = (unmarshal_p2pk_witness proof.witness).1
    let hash = sha256 (bytes_of proof.secret)
    tags ← parse_p2pk_tags lib secret.content.tags
    if is_expired tags.locktime now
        then check_refund hash signatures tags.refund
        else check_locked hash signatures secret.content.text tags

  -- The preimage of a witness against the hash in the secret.
  unfoldable pub check_preimage : String → String → Result (Unit {0})
  check_preimage preimage text = elim (decode_hex preimage) [
    | none ↦ err invalid_preimage
    | some bytes ↦ (do
      return_if (not (len text == 64)) invalid_hash
      return_if (not (str_eq (encode_hex (sha256 bytes)) text)) invalid_preimage)
  ]

  unfoldable pub check_htlc_signatures :
      ℕ → Bytes → List String → List PublicKey → Result (Unit {0})
  check_htlc_signatures zero hash signatures keys = ok tt
  check_htlc_signatures (suc n) hash signatures keys = do
    return_if (ltb (length signatures) 1) no_signatures
    return_if (check_duplicate_signatures signatures) duplicate_signatures
    return_if (not (has_valid_signatures lib hash signatures (suc n) keys)) not_enough_signatures

  -- nut14.VerifyHTLCProof
  unfoldable pub verify_htlc_proof : ℕ → Proof → WellKnownSecret → Result (Unit {0})
  unfolding check_refund check_preimage check_htlc_signatures
  verify_htlc_proof now proof secret = do
    let witness = (unmarshal_htlc_witness proof.witness).1
    let hash = sha256 (bytes_of proof.secret)
    tags ← parse_p2pk_tags lib secret.content.tags
    if is_expired tags.locktime now then check_refund hash witness.signatures tags.refund else do
      check_preimage witness.preimage secret.content.text
      check_htlc_signatures tags.n_sigs hash witness.signatures tags.pubkeys

  -- ProofsSigAll: the loop stops at the first secret that is not well-known.
  unfoldable pub proofs_sig_all : List Proof → Bool
  proofs_sig_all [] = false
  proofs_sig_all (p ∷ proofs) =
      let rest = proofs_sig_all proofs in
      elim (deserialize_secret lib p.secret) [
        | none ↦ false
        | some secret ↦ if is_sig_all secret then true else rest
      ]
