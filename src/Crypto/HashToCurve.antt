-- ===== src/Crypto/HashToCurve.antt =====
-- crypto/bdhke.go: `HashToCurve`, which tries the hashes of a message with a counter until one is
-- the x-coordinate of a point.
use gonuts.Prelude.{
  ℕ, zero, suc, ◌+◌, ◌/◌, ◌%◌, ◌<◌, ◌≤◌, ◌≡◌, refl, ◌⊎◌, inl, inr, String, true, Option, none, some,
  [], ◌∷◌, ◌++◌, arith, if◌then◌else◌, Option-cases,
}
use native.Mathlib.Decide.{dec_lt}
use gonuts.Errors.{Result, ok, err, panic, invalid_proof}
use gonuts.Library.{Library, Bytes}

-- `binary.LittleEndian.PutUint32`
abbrev little_endian : ℕ → Bytes
little_endian n = n % 256 ∷ n / 256 % 256 ∷ n / 65536 % 256 ∷ n / 16777216 % 256 ∷ []

module _ (lib : Library) where
  open lib use {
    PublicKey, bytes_of, encode_hex, sha256, parse_public_key, serialize_compressed, is_on_curve,
  }

  -- The point of one round.
  unfoldable pub candidate : Bytes → ℕ → Option PublicKey
  candidate hash counter = parse_public_key (2 ∷ sha256 (hash ++ little_endian counter))

  -- What a round does: a point off the curve leaves the counter alone, so the loop does not end.
  checked_point : PublicKey → Result PublicKey
  checked_point p = if is_on_curve p then ok p else panic

  -- The loop, with the rounds that are left.
  unfoldable pub rounds : Bytes → ℕ → ℕ → Result PublicKey
  unfolding candidate checked_point
  rounds hash zero counter = err invalid_proof
  rounds hash (suc left) counter =
      let next = rounds hash left (counter + 1) in
      elim (candidate hash counter) [ none ↦ next | some p ↦ checked_point p ]

  -- HashToCurve; math.Exp2(16) rounds. Every caller in the mint turns its error into
  -- InvalidProofErr.
  unfoldable pub hash_to_curve : Bytes → Result PublicKey
  hash_to_curve message =
      rounds (sha256 (bytes_of "Secp256k1_HashToCurve_Cashu_" ++ message)) 65536 0

  rounds-parsed :
      (hash : Bytes) (left counter : ℕ) (p : PublicKey)
      → rounds hash left counter ≡ ok p
      → (b : Bytes) × (parse_public_key b ≡ some p)
  unfolding rounds
  rounds-parsed hash zero counter p h = cc
  rounds-parsed hash (suc left) counter p h = elim (Option-cases (candidate hash counter)) [
    | inl miss ↦ rounds-parsed hash left (counter + 1) p (rw (miss, rounds) at h)
    | inr (q, hit) ↦
        let same : q ≡ p = ground (arith, hit) in
        (2 ∷ sha256 (hash ++ little_endian counter), rw (← same) hit)
  ]

  -- What HashToCurve answers has been parsed.
  pub hash_to_curve-parsed :
      (message : Bytes) (p : PublicKey)
      → hash_to_curve message ≡ ok p
      → (b : Bytes) × (parse_public_key b ≡ some p)
  unfolding hash_to_curve
  hash_to_curve-parsed message p h = rounds-parsed _ 65536 0 p h

  -- The hex text of the point of a secret, which names a proof in the database.
  unfoldable pub y_of : String → Result String
  y_of secret = elim (hash_to_curve (bytes_of secret)) [
    | ok p ↦ ok (encode_hex (serialize_compressed p))
    | err e ↦ err e
    | panic ↦ panic
  ]

  -- The first counter from `counter` on, below the end of the loop, whose hash is a point.
  abbrev pub FirstPoint : Bytes → ℕ → ℕ → PublicKey → Type 0
  FirstPoint hash counter last p =
      (k : ℕ) × (counter ≤ k)
      × (k < last)
      × (candidate hash k ≡ some p)
      × ((j : ℕ) → counter ≤ j → j < k → candidate hash j ≡ none)

  module _
      (on_curve : (b : Bytes) (p : PublicKey)
        → parse_public_key b ≡ some p
        → is_on_curve p ≡ true) where
    candidate-on_curve :
        (hash : Bytes) (counter : ℕ) (p : PublicKey)
        → candidate hash counter ≡ some p
        → is_on_curve p ≡ true
    unfolding candidate
    candidate-on_curve hash counter p e = on_curve _ p e

    skip_round :
        (hash : Bytes) (counter last : ℕ) (p : PublicKey)
        → candidate hash counter ≡ none
        → FirstPoint hash (counter + 1) last p
        → FirstPoint hash counter last p
    skip_round hash counter last p miss (k, ge, lt, e, before) = (
      k,
      omega arith,
      lt,
      e,
      λ j from below. elim (dec_lt counter j) [
        | yes later ↦ before j (omega arith) below
        | no here ↦ let same : j ≡ counter = omega arith in rw same miss
      ],
    )

    -- Outcome of the loop
    rounds-FirstPoint :
        (hash : Bytes) (left counter last : ℕ)
        → counter + left ≡ last
        → ((p : PublicKey) × (rounds hash left counter ≡ ok p) × FirstPoint hash counter last p)
          ⊎ ((rounds hash left counter ≡ err invalid_proof)
              × ((j : ℕ) → counter ≤ j → j < last → candidate hash j ≡ none))
    unfolding rounds
    rounds-FirstPoint hash zero counter last e = inr (refl, λ j ge lt. absurd (omega arith))
    rounds-FirstPoint hash (suc left) counter last e =
        elim (Option-cases (candidate hash counter)) [
          | inl miss ↦
              rw (miss, rounds)
                (elim (rounds-FirstPoint hash left (counter + 1) last (omega arith)) [
                  | inl (p, found, first) ↦
                      inl (p, found, skip_round hash counter last p miss first)
                  | inr (all, none_there) ↦ inr (
                    all,
                    λ j from below. elim (dec_lt counter j) [
                      | yes later ↦ none_there j (omega arith) below
                      | no here ↦ let same : j ≡ counter = omega arith in rw same miss
                    ],
                  )
                ])
          | inr (p, hit) ↦
              rw (hit, rounds)
                (inl (
                  p,
                  rw (candidate-on_curve hash counter p hit, checked_point),
                  (counter, omega arith, omega arith, hit, λ j from below. absurd (omega arith)),
                ))
        ]

    -- If every key that parses is on the curve, HashToCurve returns: it gives the point of the
    -- first of the 65536 counters whose hash is one, or an error where there is none.
    pub hash_to_curve-FirstPoint :
        (message : Bytes)
        → let hash = sha256 (bytes_of "Secp256k1_HashToCurve_Cashu_" ++ message) in
          ((p : PublicKey) × (hash_to_curve message ≡ ok p) × FirstPoint hash 0 65536 p)
          ⊎ ((hash_to_curve message ≡ err invalid_proof)
              × ((j : ℕ) → 0 ≤ j → j < 65536 → candidate hash j ≡ none))
    unfolding hash_to_curve
    hash_to_curve-FirstPoint message = rounds-FirstPoint _ 65536 0 65536 refl
