-- ===== src/Wallet/Outputs/Accepted.antt =====
-- From the outputs of the wallet over the signatures of the mint (signBlindedMessages of
-- mint/mint.go) to proofs that the mint accepts (the loop of verifyProofs).
use Prim.Native.String.{len}
use gonuts.Prelude.{
  ℕ, suc, ◌+◌, ◌≤◌, ◌≡◌, refl, ap, String, Bool, true, Option, none, some, List, [], ◌∷◌, All,
  ge→ltb, ==_iff, length,
}
use gonuts.Errors.{Result, ok, err, panic}
use gonuts.Library.{Library, Bytes, CurveLaws, CodecLaws}
use gonuts.Cashu.{Proof, BlindedMessage, BlindedSignature, proof_amounts}
use gonuts.Crypto.Bdhke.{
  blind_message, sign_blinded_message, unblind_signature, generate_dleq, verify-unblind-sign,
}
use gonuts.Crypto.Keyset.{key_for}
use gonuts.Nuts.Dleq.Laws.{
  HasScalar, IsWritable, parse_point-encode, parse_point-written,
  verify_blind_signature_dleq-signature,
}
use gonuts.Nuts.Secrets.{deserialize_secret}
use gonuts.Mint.{Mint, World, find_keyset}
use gonuts.Mint.Proofs.{verify_proof, verify_each}
use gonuts.Mint.Outputs.{signature, sign_blinded_messages}
use gonuts.Mint.Outputs.Made.{Made, MadeFrom, sign_blinded_messages-MadeFrom}
use gonuts.Wallet.{
  WalletKeyset, answer, must_have, lifted, derivation_failed, answer_injective, >>=-eq-answer,
}
use gonuts.Wallet.Outputs.Writable.{IsPlain, HasKeys, HasUnits, HaveScalars, unblinded-IsWritable}
use gonuts.Wallet.Outputs.{
  Outputs, Secrets, new_blinded_message, create_from, create_blinded_messages, construct_from,
  construct_proofs,
}

lifted-eq-answer : {A : Type 0} (r : Result A) {a : A} → lifted r ≡ answer a → r ≡ ok a
lifted-eq-answer panic h = cc
lifted-eq-answer (err e) h = cc
lifted-eq-answer (ok a) h = cc

module _ (lib : Library) (codec : CodecLaws lib) (curve : CurveLaws lib)
    (same_bytes : Bytes → Bytes → Bool) (same : (b : Bytes) → same_bytes b b ≡ true) where
  open lib use {
    PublicKey, PrivateKey, encode_hex, serialize_compressed, serialize, public_of, scalar_mult,
  }

  module _ (keyset : WalletKeyset PublicKey) (address : ℕ → ℕ) (m : Mint lib) where
    -- The proof of an output.
    abbrev proof_for :
        ℕ → BlindedMessage → PrivateKey → PrivateKey → PublicKey → String → PrivateKey → Proof
    proof_for i msg nonce k b_ secret r =
        let (e, s) = generate_dleq lib nonce k b_ (sign_blinded_message lib b_ k) in
        record {
          amount = msg.amount;
          id = m.active_keyset.id;
          secret = secret;
          c = encode_hex (
              serialize_compressed
                (unblind_signature lib (sign_blinded_message lib b_ k) r (public_of k)));
          witness = "";
          dleq = some (record {
            address = address i;
            value = record {
              e = encode_hex (serialize e);
              s = encode_hex (serialize s);
              r = encode_hex (serialize r);
            };
          });
        }

    construct_from-cons :
        (i : ℕ) (msg : BlindedMessage) (nonce k r : PrivateKey) (b_ : PublicKey) (secret : String)
        (sigs : List BlindedSignature) (messages : List BlindedMessage) (secrets : List String)
        (rs : List PrivateKey) (proofs : List Proof)
        → HasScalar lib codec nonce k b_
        → IsWritable lib codec b_
        → IsWritable lib codec (sign_blinded_message lib b_ k)
        → msg.b_ ≡ encode_hex (serialize_compressed b_)
        → key_for msg.amount keyset.public_keys ≡ some (public_of k)
        → construct_from lib same_bytes address keyset (i + 1) sigs messages secrets rs
          ≡ answer proofs
        → construct_from lib same_bytes address keyset i
            (signature lib m nonce msg k b_ ∷ sigs)
            (msg ∷ messages)
            (secret ∷ secrets)
            (r ∷ rs)
          ≡ answer (proof_for i msg nonce k b_ secret r ∷ proofs)
    unfolding construct_from signature
    construct_from-cons i msg nonce k r b_ secret sigs messages secrets rs proofs fits writable
          signed text keyed rest =
        rw
          (
            keyed,
            text,
            verify_blind_signature_dleq-signature lib codec curve same_bytes same nonce k b_ fits
                writable signed,
            parse_point-encode lib codec (sign_blinded_message lib b_ k) signed,
            rest,
          )
          refl

    verify_proof-proof_for :
        (w : World lib) (i : ℕ) (msg : BlindedMessage) (nonce k r : PrivateKey) (b_ : PublicKey)
        (secret : String)
        → find_keyset m.active_keyset.id m.keysets ≡ some m.active_keyset
        → key_for msg.amount m.active_keyset.keys ≡ some k
        → blind_message lib secret r ≡ ok b_
        → IsWritable lib codec
            (unblind_signature lib (sign_blinded_message lib b_ k) r (public_of k))
        → deserialize_secret lib secret ≡ none
        → len secret ≤ 512
        → verify_proof lib w m (proof_for i msg nonce k b_ secret r) ≡ ok tt
    unfolding verify_proof
    verify_proof-proof_for w i msg nonce k r b_ secret known keyed blinded written plain short =
        rw
          (
            ge→ltb 512 (len secret) short,
            known,
            keyed,
            plain,
            codec.decode_encode,
            written,
            verify-unblind-sign lib curve secret r k b_ blinded,
          )
          refl

    -- The wallet makes proofs of the signatures, for these amounts, and the mint verifies them.
    abbrev Accepts : World lib → ℕ → List ℕ → Outputs lib → List BlindedSignature → Type 0
    Accepts w i amounts outputs sigs =
        (proofs : List Proof) × (construct_from lib same_bytes address keyset i sigs
            outputs.messages outputs.secrets outputs.rs
          ≡ answer proofs)
        × (verify_each lib w m proofs ≡ ok tt)
        × (proof_amounts proofs ≡ amounts)
        × (length sigs ≡ length outputs.secrets)
        × (length sigs ≡ length outputs.rs)

    module _ (w w' : World lib)
        (known : find_keyset m.active_keyset.id m.keysets ≡ some m.active_keyset)
        (has_keys : HasKeys lib keyset m) (units : HasUnits lib codec m) where
      accept_one :
          (i : ℕ) (amount : ℕ) (id : String) (amounts : List ℕ) (b_ : PublicKey) (secret : String)
          (r : PrivateKey) (outputs : Outputs lib) (sig : BlindedSignature)
          (sigs : List BlindedSignature)
          → blind_message lib secret r ≡ ok b_
          → Made lib m (w.nonce i) (new_blinded_message lib id amount b_) sig
          → HaveScalars lib codec m w i (new_blinded_message lib id amount b_ ∷ outputs.messages)
          → IsPlain lib secret
          → Accepts w' (i + 1) amounts outputs sigs
          → Accepts w' i
              (amount ∷ amounts)
              (record {
                messages = new_blinded_message lib id amount b_ ∷ outputs.messages;
                secrets = secret ∷ outputs.secrets;
                rs = r ∷ outputs.rs;
              })
              (sig ∷ sigs)
      unfolding new_blinded_message verify_each sign_blinded_message
      accept_one i amount id amounts b_ secret r outputs sig sigs blinded made fits (plain, short)
            (proofs, built, accepted, sums, n, n') =
          let msg = new_blinded_message lib id amount b_ in
          let (point, writable) = parse_point-written lib codec b_ made.b_ made.parsed in
          let fit = rw point at (fits.0 made.k made.b_ made.keyed made.parsed) in
          let signed = units amount made.k b_ made.keyed writable in
          let same_sig : signature lib m (w.nonce i) msg made.k b_ ≡ sig = rw point at made.made in
          (
            proof_for i msg (w.nonce i) made.k b_ secret r ∷ proofs,
            rw (← same_sig) (
                construct_from-cons i msg (w.nonce i) made.k r b_ secret sigs outputs.messages
                  outputs.secrets outputs.rs proofs fit writable signed refl
                  (has_keys amount made.k made.keyed) built),
            rw
                (verify_proof-proof_for w' i msg (w.nonce i) made.k r b_ secret known made.keyed
                  blinded
                  (unblinded-IsWritable lib codec m curve amount secret r made.k b_ units made.keyed
                    blinded)
                  plain short)
                accepted,
            ap (λ as_. amount ∷ as_) sums,
            ap suc n,
            ap suc n',
          )

      accept_made :
          (i : ℕ) (amount : ℕ) (id : String) (amounts : List ℕ) (b_ : PublicKey) (secret : String)
          (r : PrivateKey) (outputs : Outputs lib) (sigs : List BlindedSignature)
          → blind_message lib secret r ≡ ok b_
          → MadeFrom lib w m i (new_blinded_message lib id amount b_ ∷ outputs.messages) sigs
          → HaveScalars lib codec m w i (new_blinded_message lib id amount b_ ∷ outputs.messages)
          → IsPlain lib secret
          → ((sigs' : List BlindedSignature)
              → MadeFrom lib w m (i + 1) outputs.messages sigs'
              → Accepts w' (i + 1) amounts outputs sigs')
          → Accepts w' i
              (amount ∷ amounts)
              (record {
                messages = new_blinded_message lib id amount b_ ∷ outputs.messages;
                secrets = secret ∷ outputs.secrets;
                rs = r ∷ outputs.rs;
              })
              sigs
      accept_made i amount id amounts b_ secret r outputs [] blinded made fits plain others =
          absurd made
      accept_made i amount id amounts b_ secret r outputs (sig ∷ sigs) blinded made fits plain
            others =
          accept_one i amount id amounts b_ secret r outputs sig sigs blinded made.0 fits plain
            (others sigs made.1)

      accept_none :
          (i : ℕ) (sigs : List BlindedSignature)
          → MadeFrom lib w m i [] sigs
          → Accepts w' i [] (record { messages = []; secrets = []; rs = [] }) sigs
      unfolding construct_from verify_each
      accept_none i [] made = ([], refl, refl, refl, refl, refl)
      accept_none i (sig ∷ sigs) made = absurd made

      accept_from :
          (next : Secrets lib) (id : String) (i : ℕ) (amounts : List ℕ) (outputs : Outputs lib)
          (sigs : List BlindedSignature)
          → create_from lib next id i amounts ≡ answer outputs
          → MadeFrom lib w m i outputs.messages sigs
          → HaveScalars lib codec m w i outputs.messages
          → All (IsPlain lib) outputs.secrets
          → Accepts w' i amounts outputs sigs
      unfolding create_from
      accept_from next id i [] outputs sigs e made fits plain =
          let same = answer_injective e in rw (← same) (accept_none i sigs (rw (← same) at made))
      accept_from next id i (amount ∷ amounts) outputs sigs e made fits plain =
          let (drawn, e1, h1) = >>=-eq-answer (must_have derivation_failed (next i)) _ e in
          let (b_, e2, h2) = >>=-eq-answer (lifted (blind_message lib drawn.0 drawn.1)) _ h1 in
          let (rest, e3, h3) = >>=-eq-answer (create_from lib next id (i + 1) amounts) _ h2 in
          let same = answer_injective h3 in
          let (here, later) = rw (← same) at plain in
          rw (← same) (
            accept_made i amount id amounts b_ drawn.0 drawn.1 rest sigs (lifted-eq-answer _ e2)
              (rw (← same) at made) (rw (← same) at fits) here
              (λ sigs' made'.
                accept_from next id (i + 1) amounts rest sigs' e3 made' (rw (← same) at fits).1
                  later))

      -- Where the laws of the curve and of the encodings hold, no key of the mint's active keyset is
      -- zero, and the wallet has the public keys of that keyset: if the wallet makes outputs with
      -- plain secrets and the mint signs them, with DLEQ proofs whose hashes are below the order of
      -- the group, constructProofs answers proofs for the same amounts, each of which passes the
      -- checks of the mint for a proof.
      pub construct_proofs-accepted :
          (random : Secrets lib) (derive : Option (Secrets lib)) (counter : Option ℕ) (id : String)
          (amounts : List ℕ) (outputs : Outputs lib) (sigs : List BlindedSignature)
          → create_blinded_messages lib random derive amounts id counter ≡ answer outputs
          → sign_blinded_messages lib w m outputs.messages ≡ ok sigs
          → HaveScalars lib codec m w 0 outputs.messages
          → All (IsPlain lib) outputs.secrets
          → (proofs : List Proof) × (construct_proofs lib same_bytes address keyset sigs
                outputs.messages outputs.secrets outputs.rs
              ≡ answer proofs)
            × (verify_each lib w' m proofs ≡ ok tt)
            × (proof_amounts proofs ≡ amounts)
      unfolding create_blinded_messages construct_proofs
      construct_proofs-accepted random derive counter id amounts outputs sigs e signed fits plain =
          let (path, e1, h1) = >>=-eq-answer (must_have derivation_failed derive) _ e in
          let (proofs, built, accepted, sums, n, n') =
            accept_from _ id 0 amounts outputs sigs h1
              (sign_blinded_messages-MadeFrom lib w m outputs.messages sigs signed) fits plain in
          (
            proofs,
            rw
                (
                  (==_iff (length sigs) (length outputs.secrets)).1 n,
                  (==_iff (length sigs) (length outputs.rs)).1 n',
                )
                built,
            accepted,
            sums,
          )
