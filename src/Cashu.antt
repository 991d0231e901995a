-- ===== src/Cashu.antt =====
-- cashu/cashu.go: the messages of the protocol. Amounts are `uint64`, held as plain numbers below
-- `u64_mod`; texts are `String`. A `*DLEQProof` is `nil` or an address with what stands there,
-- since Go compares such pointers by address where a `Proof` is
-- a map's key. A `BlindedSignature` is never compared, so its pointer is the value alone.
pub mod Amounts
pub mod Totals
pub mod Split
pub mod Duplicates
use gonuts.Prelude.{ℕ, ◌+◌, ◌%◌, String, Option, List, [], ◌∷◌, map, u64_mod}

pub record DleqProof : Type 0 where
  pub e : String
  pub s : String
  pub r : String

pub record DleqPointer : Type 0 where
  pub address : ℕ
  pub value : DleqProof

pub record BlindedMessage : Type 0 where
  pub amount : ℕ
  pub b_ : String
  pub id : String
  pub witness : String

pub record BlindedSignature : Type 0 where
  pub amount : ℕ
  pub c_ : String
  pub id : String
  pub dleq : Option DleqProof

pub record Proof : Type 0 where
  pub amount : ℕ
  pub id : String
  pub secret : String
  pub c : String
  pub witness : String
  pub dleq : Option DleqPointer

-- `totalAmount += a` over a list: addition of `uint64` wraps.
unfoldable pub wrapping_sum : ℕ → List ℕ → ℕ
wrapping_sum acc [] = acc
wrapping_sum acc (a ∷ as_) = wrapping_sum ((acc + a) % u64_mod) as_

abbrev pub message_amounts : List BlindedMessage → List ℕ
message_amounts = map (λ m. m.amount)

abbrev pub signature_amounts : List BlindedSignature → List ℕ
signature_amounts = map (λ s. s.amount)

abbrev pub proof_amounts : List Proof → List ℕ
proof_amounts = map (λ p. p.amount)

-- BlindedMessages.Amount
unfoldable pub messages_amount : List BlindedMessage → ℕ
unfolding wrapping_sum
messages_amount messages = wrapping_sum 0 (message_amounts messages)

-- BlindedSignatures.Amount
unfoldable pub signatures_amount : List BlindedSignature → ℕ
unfolding wrapping_sum
signatures_amount signatures = wrapping_sum 0 (signature_amounts signatures)

-- Proofs.Amount
unfoldable pub proofs_amount : List Proof → ℕ
unfolding wrapping_sum
proofs_amount proofs = wrapping_sum 0 (proof_amounts proofs)
