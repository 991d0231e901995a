-- ===== src/Tests/Bits.antt =====
-- The group of two elements, as a curve.
use gonuts.Prelude.{◌≡◌, refl, String, Bool, true, false, none, some, [], ◌∷◌, if◌then◌else◌}
use gonuts.Prelude.Int.{codes}
use gonuts.Library.{Library, CurveLaws}

-- The group of two elements.
abbrev pub xor : Bool → Bool → Bool
xor true true = false
xor true false = true
xor false b = b

abbrev pub both : Bool → Bool → Bool
both true b = b
both false b = false

abbrev pub alike : Bool → Bool → Bool
alike true b = b
alike false true = false
alike false false = true

abbrev pub bits : Library
bits = record {
  PublicKey = Bool;
  PrivateKey = Bool;
  Signature = Bool;
  Raw = String;
  bytes_of = codes;
  encode_hex = λ b. "";
  decode_hex = λ s. some (codes s);
  sha256 = λ b. b;
  parse_public_key = λ b. some true;
  serialize_compressed = λ p. if p then 1 ∷ [] else 0 ∷ [];
  is_on_curve = λ p. true;
  same_key = alike;
  public_of = λ k. k;
  add_points = xor;
  scalar_mult = both;
  add_scalars = xor;
  mul_scalars = both;
  negate = λ k. k;
  private_key_of = λ b. false;
  serialize = λ k. [];
  serialize_uncompressed = λ p. if p then 1 ∷ [] else 0 ∷ [];
  parse_schnorr = λ b. none;
  verify_schnorr = λ s b p. false;
  unmarshal_array = λ s. none;
  unmarshal_text = λ s. some s;
  unmarshal_secret_data = λ s. none;
  unmarshal_p2pk_witness = λ s. (true, []);
  unmarshal_htlc_witness = λ s. (true, record { preimage = s; signatures = [] });
}

pub alike_refl : (p : Bool) → alike p p ≡ true
alike_refl true = refl
alike_refl false = refl

pub xor_assoc : (p q r : Bool) → xor (xor p q) r ≡ xor p (xor q r)
xor_assoc true true true = refl
xor_assoc true true false = refl
xor_assoc true false r = refl
xor_assoc false q r = refl

pub xor_cancel : (p r k : Bool) → xor (xor p (both k r)) (both k r) ≡ p
xor_cancel true true true = refl
xor_cancel true false true = refl
xor_cancel true r false = refl
xor_cancel false true true = refl
xor_cancel false false true = refl
xor_cancel false r false = refl

pub both-xor : (k p q : Bool) → both k (xor p q) ≡ xor (both k p) (both k q)
both-xor true p q = refl
both-xor false p q = refl

pub both-xor-left : (j k p : Bool) → both (xor j k) p ≡ xor (both j p) (both k p)
both-xor-left true true true = refl
both-xor-left true true false = refl
both-xor-left true false true = refl
both-xor-left true false false = refl
both-xor-left false k p = refl

pub both_assoc : (j k p : Bool) → both (both j k) p ≡ both j (both k p)
both_assoc true k p = refl
both_assoc false k p = refl

pub both_comm : (j k p : Bool) → both j (both k p) ≡ both k (both j p)
both_comm true true p = refl
both_comm true false p = refl
both_comm false true p = refl
both_comm false false p = refl

pub both_swap : (j k : Bool) → both j k ≡ both k j
both_swap true true = refl
both_swap true false = refl
both_swap false true = refl
both_swap false false = refl

pub bits_laws : CurveLaws bits
bits_laws = record {
  same_key_refl = alike_refl;
  add_assoc = xor_assoc;
  add_cancel = xor_cancel;
  mult_add_points = both-xor;
  mult_add_scalars = both-xor-left;
  mult_mult = both_assoc;
  mult_comm = both_comm;
  public_add_scalars = λ j k. refl;
  public_mul_scalars = λ j k. refl;
  mult_public_comm = both_swap;
}
