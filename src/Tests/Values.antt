-- ===== src/Tests/Values.antt =====
-- A toy curve, the residues of 7, and a mint on it with a proof, two outputs and a quote.
use Prim.Native.Char.{Char}
use gonuts.Prelude.{
  ℕ, ◌+◌, ◌*◌, ◌-◌, ◌%◌, String, Bool, true, false, Option, none, some, List, [], ◌∷◌, sum, ◌==◌,
  if◌then◌else◌,
}
use gonuts.Prelude.Int.{codes}
use gonuts.Library.{Library, Bytes}
use gonuts.Cashu.{Proof, BlindedMessage}
use gonuts.Crypto.Keyset.{MintKeyset}
use gonuts.Storage.{Db, empty_db, MintQuoteRow, MeltQuoteRow}
use gonuts.Mint.{Mint, World, Invoice, PaymentStatus, PaymentState, Outgoing}

abbrev pub digit : ℕ → Char
digit n =
    if n == 0
    then "0"
    else if n == 1
    then "1"
    else if n == 2
    then "2"
    else if n == 3
    then "3"
    else if n == 4
    then "4"
    else if n == 5
    then "5"
    else "6"

abbrev pub digits : Bytes → String
digits [] = ""
digits (b ∷ bs) = String.◌∷◌ (digit b) (digits bs)

abbrev pub toy : Library
toy = record {
  PublicKey = ℕ;
  PrivateKey = ℕ;
  Signature = ℕ;
  Raw = String;
  bytes_of = codes;
  encode_hex = digits;
  decode_hex = λ s. some (codes s);
  sha256 = λ b. b;
  parse_public_key = λ b. some (sum b % 7);
  serialize_compressed = λ p. p ∷ [];
  is_on_curve = λ p. true;
  same_key = λ p q. p == q;
  public_of = λ k. k % 7;
  add_points = λ p q. (p + q) % 7;
  scalar_mult = λ k p. (k * p) % 7;
  add_scalars = λ j k. (j + k) % 7;
  mul_scalars = λ j k. (j * k) % 7;
  negate = λ k. (7 - k % 7) % 7;
  private_key_of = λ b. sum b % 7;
  serialize = λ k. k ∷ [];
  serialize_uncompressed = λ p. p ∷ [];
  parse_schnorr = λ b. some (sum b % 7);
  verify_schnorr = λ s b p. s == p;
  unmarshal_array = λ s. none;
  unmarshal_text = λ s. some s;
  unmarshal_secret_data = λ s. none;
  unmarshal_p2pk_witness = λ s. (true, s ∷ []);
  unmarshal_htlc_witness = λ s. (true, record { preimage = s; signatures = s ∷ [] });
}

abbrev pub paid_invoice : Invoice
paid_invoice = record {
  payment_request = "lnbc1";
  payment_hash = "hash";
  preimage = "preimage";
  settled = true;
  amount = 3;
  expiry = 60;
}

abbrev pub world_with : (ℕ → Bool) → Option PaymentStatus → Outgoing → World toy
world_with io answer outgoing = record {
  create_invoice = λ amount. some paid_invoice;
  invoice_status = λ hash. some paid_invoice;
  send_payment = λ request fee. answer;
  pay_partial_amount = λ request amount fee. answer;
  outgoing_payment_status = λ hash. outgoing;
  fee_reserve = λ amount. 1;
  decode_invoice = λ request. some (record { msatoshi = 2000; payment_hash = "other" });
  now = 1000;
  random_quote_id = some "quote";
  nonce = λ i. i + 3;
  io = io;
}

abbrev pub working : World toy
working =
    world_with (λ i. true)
      (some (record { preimage = "preimage"; payment_status = PaymentState.succeeded }))
      Outgoing.not_found

abbrev pub keyset : MintKeyset toy
keyset = record {
  id = "k";
  unit = "sat";
  active = true;
  derivation_path_idx = 0;
  keys = (1, 3) ∷ (2, 5) ∷ (4, 2) ∷ [];
  input_fee_ppk = 1000;
}

abbrev pub mint_with : Db → Mint toy
mint_with db = record {
  db = db;
  active_keyset = keyset;
  keysets = ("k", keyset) ∷ [];
  limits = record { max_balance = 0; mint_max_amount = 0; melt_max_amount = 0 };
  mpp_enabled = false;
  published = [];
  payments = [];
}

abbrev pub fresh : Mint toy
fresh = mint_with empty_db

abbrev pub output : ℕ → String → BlindedMessage
output amount b_ = record { amount = amount; b_ = b_; id = "k"; witness = "" }

abbrev pub outputs : List BlindedMessage
outputs = output 2 "a" ∷ output 1 "b" ∷ []

abbrev pub coin : String → Proof
coin c = record { amount = 4; id = "k"; secret = "s"; c = c; witness = ""; dleq = none }

abbrev pub mint_quote : String → MintQuoteRow
mint_quote state = record {
  id = "quote";
  payment_request = "lnbc1";
  payment_hash = "hash";
  amount = 3;
  state = state;
  expiry = 1060;
  pubkey = none;
}

abbrev pub quoted : String → Mint toy
quoted state = mint_with (record empty_db { mint_quotes = mint_quote state ∷ [] })

abbrev pub melt_quote : MeltQuoteRow
melt_quote = record {
  id = "melt";
  request = "lnbc2";
  payment_hash = "other";
  amount = 2;
  fee_reserve = 1;
  state = "UNPAID";
  expiry = 1060;
  preimage = "";
  is_mpp = none;
  amount_msat = none;
}

abbrev pub melting : Mint toy
melting = mint_with (record empty_db { melt_quotes = melt_quote ∷ [] })
