-- ===== src/Wallet/Outputs/Writable.antt =====
-- What the proofs that the wallet makes of the signatures of the mint rest on: keys that are not
-- zero, hashes below the order of the group, and secrets without a spending condition.
use Prim.Native.String.{len}
use gonuts.Prelude.{ℕ, ◌+◌, ◌≤◌, ◌≡◌, String, none, some, List, [], ◌∷◌}
use gonuts.Errors.{ok}
use gonuts.Library.{Library, CurveLaws, CodecLaws}
use gonuts.Cashu.{BlindedMessage}
use gonuts.Crypto.HashToCurve.{hash_to_curve-parsed}
use gonuts.Crypto.Bdhke.{blind_message, sign_blinded_message, unblind_signature, unblind-blind}
use gonuts.Crypto.Keyset.{key_for}
use gonuts.Nuts.Dleq.{parse_point}
use gonuts.Nuts.Dleq.Laws.{HasScalar, IsWritable}
use gonuts.Nuts.Secrets.{deserialize_secret}
use gonuts.Mint.{Mint, World}
use gonuts.Wallet.{WalletKeyset}

module _ (lib : Library) where
  open lib use {PublicKey, PrivateKey, public_of, scalar_mult}

  -- A secret without a spending condition, and not too long for the mint.
  abbrev pub IsPlain : String → Type 0
  IsPlain secret = (deserialize_secret lib secret ≡ none) × (len secret ≤ 512)

  -- The wallet has the public keys of the mint.
  abbrev pub HasKeys : WalletKeyset PublicKey → Mint lib → Type 0
  HasKeys keyset m =
      (amount : ℕ) (k : PrivateKey)
      → key_for amount m.active_keyset.keys ≡ some k
      → key_for amount keyset.public_keys ≡ some (public_of k)

  module _ (codec : CodecLaws lib) (m : Mint lib) where
    -- No key of the active keyset is zero: its product with a point that can be written is not the
    -- point at infinity.
    abbrev pub HasUnits : Type 0
    HasUnits =
        (amount : ℕ) (k : PrivateKey) (p : PublicKey)
        → key_for amount m.active_keyset.keys ≡ some k
        → IsWritable lib codec p
        → IsWritable lib codec (scalar_mult k p)

    -- The hashes of the DLEQ proofs that the mint makes for some outputs are below the order of the
    -- group.
    abbrev pub HaveScalars : World lib → ℕ → List BlindedMessage → Type 0
    HaveScalars w i [] = Unit
    HaveScalars w i (msg ∷ msgs) =
        ((k : PrivateKey) (b_ : PublicKey)
          → key_for msg.amount m.active_keyset.keys ≡ some k
          → parse_point lib msg.b_ ≡ some b_
          → HasScalar lib codec (w.nonce i) k b_)
        × HaveScalars w (i + 1) msgs

    -- An unblinded signature can be written.
    pub unblinded-IsWritable :
        (curve : CurveLaws lib) (amount : ℕ) (secret : String) (r k : PrivateKey) (b_ : PublicKey)
        → HasUnits
        → key_for amount m.active_keyset.keys ≡ some k
        → blind_message lib secret r ≡ ok b_
        → IsWritable lib codec
            (unblind_signature lib (sign_blinded_message lib b_ k) r (public_of k))
    unblinded-IsWritable curve amount secret r k b_ units keyed blinded =
        let (y, found, e) = unblind-blind lib curve secret r k b_ blinded in
        let (bytes, parsed) = hash_to_curve-parsed lib (lib.bytes_of secret) y found in
        rw e (units amount k y keyed (codec.parse_parsed bytes y parsed))
