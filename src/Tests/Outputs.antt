-- ===== src/Tests/Outputs.antt =====
-- The wallet and the mint on the curve of two points: two outputs, their signatures and the proofs.
use gonuts.Prelude.{◌≡◌, refl, Bool, true, false, none, some, List, [], ◌∷◌, arith}
use gonuts.Errors.{ok}
use gonuts.Cashu.{Proof, BlindedSignature, proof_amounts}
use gonuts.Crypto.Keyset.{MintKeyset, key_for}
use gonuts.Storage.{empty_db}
use gonuts.Mint.{Mint, World, Outgoing}
use gonuts.Mint.Proofs.{verify_each}
use gonuts.Mint.Outputs.{sign_blinded_messages}
use gonuts.Wallet.{WalletKeyset, answer}
use gonuts.Wallet.Outputs.{Outputs, create_blinded_messages, construct_proofs}
use gonuts.Wallet.Outputs.Writable.{HasKeys, HasUnits, HaveScalars, IsPlain}
use gonuts.Wallet.Outputs.Accepted.{construct_proofs-accepted}
use gonuts.Tests.Codec.{coded, coded_laws, coded_codec, coded_scalars}
use gonuts.Tests.Buckets.{same_bytes, same_bytes_refl}

abbrev keys_of_mint : MintKeyset coded
keys_of_mint = record {
  id = "k";
  unit = "sat";
  active = true;
  derivation_path_idx = 0;
  keys = (1, true) ∷ (2, true) ∷ [];
  input_fee_ppk = 0;
}

abbrev mint : Mint coded
mint = record {
  db = empty_db;
  active_keyset = keys_of_mint;
  keysets = ("k", keys_of_mint) ∷ [];
  limits = record { max_balance = 0; mint_max_amount = 0; melt_max_amount = 0 };
  mpp_enabled = false;
  published = [];
  payments = [];
}

abbrev world : World coded
world = record {
  create_invoice = λ amount. none;
  invoice_status = λ hash. none;
  send_payment = λ request fee. none;
  pay_partial_amount = λ request amount fee. none;
  outgoing_payment_status = λ hash. Outgoing.not_found;
  fee_reserve = λ amount. 1;
  decode_invoice = λ request. none;
  now = 1000;
  random_quote_id = none;
  nonce = λ i. true;
  io = λ i. true;
}

abbrev keys_of_wallet : WalletKeyset Bool
keys_of_wallet = record {
  id = "k";
  mint_url = "mint";
  unit = "sat";
  active = true;
  public_keys = (1, true) ∷ (2, true) ∷ [];
  counter = 0;
  input_fee_ppk = 0;
}

abbrev made : Outputs coded
made = record {
  messages =
      record { amount = 2; b_ = "10"; id = "k"; witness = "" }
      ∷ record { amount = 1; b_ = "10"; id = "k"; witness = "" }
      ∷ [];
  secrets = "s" ∷ "s" ∷ [];
  rs = false ∷ false ∷ [];
}

abbrev signed : List BlindedSignature
signed =
    record { amount = 2; c_ = "10"; id = "k"; dleq = some (record { e = "0"; s = "10"; r = "" }) }
    ∷ record { amount = 1; c_ = "10"; id = "k"; dleq = some (record { e = "0"; s = "10"; r = "" }) }
    ∷ []

made_here :
    create_blinded_messages coded (λ i. some ("s", false)) (some (λ i. none)) (2 ∷ 1 ∷ []) "k" none
    ≡ answer made
unfolding create_blinded_messages gonuts.Crypto.Bdhke.blind_message
    gonuts.Crypto.HashToCurve.hash_to_curve gonuts.Crypto.HashToCurve.rounds
made_here = refl

signed_here : sign_blinded_messages coded world mint made.messages ≡ ok signed
unfolding sign_blinded_messages gonuts.Mint.find_keyset key_for
    gonuts.Crypto.Bdhke.sign_blinded_message gonuts.Crypto.Bdhke.generate_dleq
    gonuts.Crypto.Bdhke.hash_e
signed_here = refl

IsPlain-here : IsPlain coded "s"
unfolding gonuts.Nuts.Secrets.deserialize_secret
IsPlain-here = (refl, omega arith)

keys_here : HasKeys coded keys_of_wallet mint
unfolding key_for
keys_here amount k e = ground arith

-- The keys are not zero.
units_here : HasUnits coded coded_codec mint
unfolding key_for
units_here amount true p keyed written = written
units_here amount false p keyed written = ground arith

scalars_here : HaveScalars coded coded_codec mint world 0 made.messages
scalars_here = (
  λ k b_ keyed parsed. coded_scalars true k b_,
  (λ k b_ keyed parsed. coded_scalars true k b_, tt),
)

known_here : gonuts.Mint.find_keyset "k" mint.keysets ≡ some keys_of_mint
unfolding gonuts.Mint.find_keyset
known_here = refl

construct_proofs-accepted_example :
    (proofs : List Proof) × (construct_proofs coded same_bytes
        (λ i. i)
        keys_of_wallet
        signed
        made.messages
        made.secrets
        made.rs
      ≡ answer proofs)
    × (verify_each coded world mint proofs ≡ ok tt)
    × (proof_amounts proofs ≡ 2 ∷ 1 ∷ [])
construct_proofs-accepted_example =
    construct_proofs-accepted coded coded_codec coded_laws same_bytes same_bytes_refl keys_of_wallet
      (λ i. i) mint world world known_here keys_here units_here (λ i. some ("s", false))
      (some (λ i. none)) none "k" (2 ∷ 1 ∷ []) made signed made_here signed_here scalars_here
      (IsPlain-here, (IsPlain-here, tt))
