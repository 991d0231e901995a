-- ===== src/Tests/Codec.antt =====
-- A curve of two points whose texts can be read back: the laws of the curve and of the encodings
-- hold in it. A byte is written as so many ones and a zero.
use Prim.Native.Char.{code}
use gonuts.Prelude.{
  ℕ, zero, suc, ◌+◌, ◌≡◌, refl, ◌∙◌, ap, String, Bool, true, false, Option, none, some, [], ◌∷◌,
  arith, ◌==◌, if◌then◌else◌,
}
use gonuts.Crypto.Bdhke.{hash_e}
use gonuts.Tests.Bits.{
  bits, alike_refl, xor_assoc, xor_cancel, both-xor, both-xor-left, both_assoc, both_comm,
  both_swap,
}
use gonuts.Nuts.Dleq.Laws.{HasScalar}
use gonuts.Library.{Library, Bytes, CurveLaws, CodecLaws}

abbrev ones : ℕ → String → String
ones zero s = s
ones (suc n) s = String.◌∷◌ "1" (ones n s)

abbrev write : Bytes → String
write [] = ""
write (n ∷ b) = ones n (String.◌∷◌ "0" (write b))

abbrev read_from : ℕ → String → Bytes
read_from n String.[] = []
read_from n (String.◌∷◌ c s) =
    let done = n ∷ read_from 0 s in
    let more = read_from (n + 1) s in if code c == 48 then done else more

read_from-ones : (n k : ℕ) (s : String) → read_from n (ones k s) ≡ read_from (n + k) s
read_from-ones n zero s = ap (λ j. read_from j s) (omega arith)
read_from-ones n (suc k) s = read_from-ones (n + 1) k s ∙ ap (λ j. read_from j s) (omega arith)

read-write : (b : Bytes) → read_from 0 (write b) ≡ b
read-write [] = refl
read-write (n ∷ b) =
    read_from-ones 0 n (String.◌∷◌ "0" (write b))
    ∙ rw (read-write b) (ap (λ j. j ∷ b) (omega arith))

abbrev starts_with_one : Bytes → Bool
starts_with_one [] = false
starts_with_one (n ∷ b) = n == 1

-- As a compressed point: a zero is the one at infinity, and is not read.
abbrev point_of : Bytes → Option Bool
point_of [] = none
point_of (n ∷ b) = if n == 0 then none else some true

abbrev digit_of : Bool → Bytes
digit_of p = if p then 1 ∷ [] else 0 ∷ []

abbrev pub coded : Library
coded = record bits {
  encode_hex = write;
  decode_hex = λ s. some (read_from 0 s);
  sha256 = λ b. 0 ∷ [];
  parse_public_key = point_of;
  private_key_of = starts_with_one;
  serialize_compressed = digit_of;
  serialize = digit_of;
}

read_digit : (p : Bool) → starts_with_one (digit_of p) ≡ p
read_digit true = refl
read_digit false = refl

read_point : (p q : Bool) → point_of (digit_of p) ≡ some q → q ≡ p
read_point true q h = cc
read_point false q h = cc

point_read : (b : Bytes) (p : Bool) → point_of b ≡ some p → point_of (digit_of p) ≡ some p
point_read b true h = refl
point_read [] false h = cc
point_read (n ∷ b) false h = ground (arith, h)

pub coded_laws : CurveLaws coded
coded_laws = record {
  same_key_refl = alike_refl;
  add_assoc = xor_assoc;
  add_cancel = xor_cancel;
  mult_add_points = both-xor;
  mult_add_scalars = both-xor-left;
  mult_mult = both_assoc;
  mult_comm = both_comm;
  public_add_scalars = λ j k. refl;
  public_mul_scalars = λ j k. refl;
  mult_public_comm = both_swap;
}

pub coded_codec : CodecLaws coded
coded_codec = record {
  decode_encode = λ b. ap some (read-write b);
  parse_serialize = read_point;
  parse_parsed = point_read;
  read_serialize = read_digit;
}

-- Every hash is a zero.
pub coded_scalars : (r k b_ : Bool) → HasScalar coded coded_codec r k b_
unfolding hash_e
coded_scalars r k b_ = refl
