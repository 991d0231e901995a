-- ===== src/Cashu/Duplicates.antt =====
-- cashu/cashu.go: `CheckDuplicateProofs` and `CheckDuplicateBlindedMessages`, and the same loop in
-- cashu/nuts/nut11 over signatures. A Go map with struct keys compares every field, and a pointer
-- by its address.
use gonuts.Prelude.{
  ◌≡◌, Bool, true, false, ◌&&◌, Option, none, some, List, [], ◌∷◌, String, arith, ◌==◌, str_eq,
  if◌then◌else◌,
}
use gonuts.Cashu.{Proof, BlindedMessage, DleqPointer}

module _ {ℓ} {A : Type ℓ} (same : A → A → Bool) where
  -- the lookup in the map of what was seen
  unfoldable pub seen_before : A → List A → Bool
  seen_before x [] = false
  seen_before x (y ∷ ys) = if same y x then true else seen_before x ys

  unfoldable pub duplicates_from : List A → List A → Bool
  unfolding seen_before
  duplicates_from seen [] = false
  duplicates_from seen (x ∷ xs) =
      let rest = duplicates_from (x ∷ seen) xs in if seen_before x seen then true else rest

  -- No element is the same as a later one, nor as one that was seen.
  abbrev pub IsFresh : List A → List A → Type 0
  IsFresh seen [] = Unit
  IsFresh seen (x ∷ xs) = (seen_before x seen ≡ false) × IsFresh (x ∷ seen) xs

  -- The loop answers false exactly when no element was seen before it.
  pub duplicates_from-false : (seen xs : List A) → duplicates_from seen xs ≡ false → IsFresh seen xs
  unfolding duplicates_from
  duplicates_from-false seen [] h = tt
  duplicates_from-false seen (x ∷ xs) h = ground (arith, duplicates_from-false (x ∷ seen) xs)

abbrev pub same_pointer : Option DleqPointer → Option DleqPointer → Bool
same_pointer none none = true
same_pointer (some p) (some q) = p.address == q.address
same_pointer _ _ = false

abbrev pub same_proof : Proof → Proof → Bool
same_proof p q =
    p.amount == q.amount
    && str_eq p.id q.id
    && str_eq p.secret q.secret
    && str_eq p.c q.c
    && str_eq p.witness q.witness
    && same_pointer p.dleq q.dleq

abbrev pub same_message : BlindedMessage → BlindedMessage → Bool
same_message m n =
    m.amount == n.amount && str_eq m.b_ n.b_ && str_eq m.id n.id && str_eq m.witness n.witness

-- CheckDuplicateProofs
unfoldable pub check_duplicate_proofs : List Proof → Bool
unfolding duplicates_from
check_duplicate_proofs proofs = duplicates_from same_proof [] proofs

-- CheckDuplicateBlindedMessages
unfoldable pub check_duplicate_blinded_messages : List BlindedMessage → Bool
unfolding duplicates_from
check_duplicate_blinded_messages messages = duplicates_from same_message [] messages

-- nut11.DuplicateSignatures
unfoldable pub check_duplicate_signatures : List String → Bool
unfolding duplicates_from
check_duplicate_signatures signatures = duplicates_from str_eq [] signatures
