-- ===== src/Mint/Outputs.antt =====
-- mint/mint.go: the checks of the blinded messages of a request, and signing them.
pub mod Signed
pub mod Made
use Prim.Native.String.{len}
use gonuts.Prelude.{
  ℕ, zero, suc, ◌+◌, String, Bool, true, false, not, Option, none, some, List, [], ◌∷◌, map, ltb,
  ◌==◌, str_eq, if◌then◌else◌,
}
use gonuts.Errors.{
  Result, ok, err, panic, ◌>>=◌, ◌>>◌, return_if, unknown_keyset, inactive_keyset_signature_request,
  invalid_blinded_message_amount, invalid_b, invalid_secret, all_sig_all_flags,
  sig_all_keys_must_be_equal, n_sigs_must_be_equal, invalid_witness, invalid_preimage, invalid_hash,
  invalid_kind, duplicate_signatures, not_enough_signatures,
}
use gonuts.Library.{Library, Bytes, SecretData}
use gonuts.Cashu.{Proof, BlindedMessage, BlindedSignature, DleqProof}
use gonuts.Cashu.Duplicates.{check_duplicate_signatures}
use gonuts.Nuts.Secrets.{
  SecretKind, WellKnownSecret, p2pk, htlc, anyone_can_spend, deserialize_secret,
}
use gonuts.Nuts.Tags.{P2pkTags, parse_p2pk_tags, public_keys, is_sig_all}
use gonuts.Nuts.Signatures.{has_valid_signatures}
use gonuts.Crypto.Bdhke.{sign_blinded_message, generate_dleq}
use gonuts.Crypto.Keyset.{MintKeyset, key_for}
use gonuts.Mint.{Mint, World, find_keyset, require}

abbrev pub b_s_of : List BlindedMessage → List String
b_s_of = map (λ m. m.b_)

module _ (lib : Library) where
  open lib use {
    PublicKey, PrivateKey, decode_hex, encode_hex, sha256, parse_public_key, serialize_compressed,
    serialize, same_key, unmarshal_p2pk_witness, unmarshal_htlc_witness,
  }

  -- `msg.Id != m.activeKeyset.Id`
  active_key : Mint lib → BlindedMessage → Result PrivateKey
  active_key m msg =
      if str_eq msg.id m.active_keyset.id
      then require invalid_blinded_message_amount (key_for msg.amount m.active_keyset.keys)
      else err inactive_keyset_signature_request

  -- The signature of one message, with the scalar that GenerateDLEQ draws for it.
  unfoldable pub signature :
      Mint lib → PrivateKey → BlindedMessage → PrivateKey → PublicKey → BlindedSignature
  signature m r msg k b_ =
      let c_ = sign_blinded_message lib b_ k in
      let (e, s) = generate_dleq lib r k b_ c_ in
      record {
        amount = msg.amount;
        c_ = encode_hex (serialize_compressed c_);
        id = m.active_keyset.id;
        dleq = some (record { e = encode_hex (serialize e); s = encode_hex (serialize s); r = "" });
      }

  -- One round of the loop of signBlindedMessages.
  unfoldable pub sign_message : Mint lib → PrivateKey → BlindedMessage → Result BlindedSignature
  unfolding active_key signature
  sign_message m r msg = do
    known ← require unknown_keyset (find_keyset msg.id m.keysets)
    k ← active_key m msg
    bytes ← require invalid_b (decode_hex msg.b_)
    b_ ← require invalid_b (parse_public_key bytes)
    ok (signature m r msg k b_)

  sign_from : World lib → Mint lib → ℕ → List BlindedMessage → Result (List BlindedSignature)
  unfolding sign_message
  sign_from w m i [] = ok []
  sign_from w m i (msg ∷ msgs) = do
    sig ← sign_message m (w.nonce i) msg
    sigs ← sign_from w m (i + 1) msgs
    ok (sig ∷ sigs)

  -- signBlindedMessages
  unfoldable pub sign_blinded_messages :
      World lib → Mint lib → List BlindedMessage → Result (List BlindedSignature)
  unfolding sign_from
  sign_blinded_messages w m messages = sign_from w m 0 messages

  -- `n_sigs`, or 1 where the tag is not given
  abbrev signatures_required : ℕ → ℕ
  signatures_required zero = 1
  signatures_required (suc n) = suc n

  -- reflect.DeepEqual of two lists of keys
  same_keys : List PublicKey → List PublicKey → Bool
  same_keys [] [] = true
  same_keys (j ∷ js) (k ∷ ks) = if same_key j k then same_keys js ks else false
  same_keys _ _ = false

  -- One round of the loop that compares the conditions of the proofs.
  unfoldable pub same_condition : List PublicKey → ℕ → Proof → Result (Unit {0})
  unfolding same_keys
  same_condition pubkeys required p = do
    secret ← require invalid_secret (deserialize_secret lib p.secret)
    return_if (not (is_sig_all secret)) all_sig_all_flags
    tags ← parse_p2pk_tags lib secret.content.tags
    keys ← public_keys lib secret
    return_if (not (same_keys pubkeys keys)) sig_all_keys_must_be_equal
    return_if (not (required == signatures_required tags.n_sigs)) n_sigs_must_be_equal

  unfoldable pub same_conditions : List PublicKey → ℕ → List Proof → Result (Unit {0})
  unfolding same_condition
  same_conditions pubkeys required [] = ok tt
  same_conditions pubkeys required (p ∷ ps) =
      same_condition pubkeys required p >> same_conditions pubkeys required ps

  htlc_output : String → String → List String → Result (List String)
  htlc_output text preimage signatures = do
    bytes ← require invalid_preimage (decode_hex preimage)
    return_if (not (len text == 64)) invalid_hash
    return_if (not (str_eq (encode_hex (sha256 bytes)) text)) invalid_preimage
    ok signatures

  -- The signatures in the witness of an output.
  output_signatures : SecretKind → SecretData → String → Result (List String)
  unfolding htlc_output
  output_signatures p2pk content witness =
      let (parsed, signatures) = unmarshal_p2pk_witness witness in
      if parsed then ok signatures else err invalid_witness
  output_signatures htlc content witness =
      let (parsed, htlc_witness) = unmarshal_htlc_witness witness in
      if parsed
      then htlc_output content.text htlc_witness.preimage htlc_witness.signatures
      else err invalid_witness
  output_signatures anyone_can_spend content witness = err invalid_kind

  unfoldable pub signed_output :
      WellKnownSecret → List PublicKey → ℕ → BlindedMessage → Result (Unit {0})
  unfolding output_signatures
  signed_output secret pubkeys required msg = do
    bytes ← require invalid_b (decode_hex msg.b_)
    signatures ← output_signatures secret.kind secret.content msg.witness
    return_if (check_duplicate_signatures signatures) duplicate_signatures
    return_if (not (has_valid_signatures lib (sha256 bytes) signatures required pubkeys))
        not_enough_signatures

  unfoldable pub signed_outputs :
      WellKnownSecret → List PublicKey → ℕ → List BlindedMessage → Result (Unit {0})
  unfolding signed_output
  signed_outputs secret pubkeys required [] = ok tt
  signed_outputs secret pubkeys required (msg ∷ msgs) =
      signed_output secret pubkeys required msg >> signed_outputs secret pubkeys required msgs

  -- verifyBlindedMessages, for proofs whose secrets carry SIG_ALL; `proofs[0]` panics without one.
  unfoldable pub verify_blinded_messages : List Proof → List BlindedMessage → Result (Unit {0})
  unfolding same_conditions signed_outputs
  verify_blinded_messages [] messages = panic
  verify_blinded_messages (p ∷ ps) messages = do
    secret ← require invalid_secret (deserialize_secret lib p.secret)
    pubkeys ← public_keys lib secret
    tags ← parse_p2pk_tags lib secret.content.tags
    let required = signatures_required tags.n_sigs
    same_conditions pubkeys required (p ∷ ps)
    signed_outputs secret pubkeys required messages
