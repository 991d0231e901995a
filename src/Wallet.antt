-- ===== src/Wallet.antt =====
-- wallet/wallet.go: the mint as the wallet knows it, the fees that it reckons with, and the errors
-- of the functions in the modules below. A Go map that is ranged over is a list of pairs in the
-- order of the iteration, which Go leaves open.
pub mod Weights
pub mod Select
pub mod Funds
pub mod Split
pub mod Outputs
pub mod Storage
use gonuts.Prelude.{
  ℕ, ◌+◌, ◌/◌, ◌%◌, ◌≡◌, refl, String, Bool, true, false, Option, none, some, List, [], ◌∷◌, str_eq,
  if◌then◌else◌, u64_mod,
}
use gonuts.Errors.{Result, ok, err, panic}
use gonuts.Cashu.{Proof}

-- crypto.WalletKeyset, over the type of public keys
pub record WalletKeyset (K : Type 0) : Type 0 where
  pub id : String
  pub mint_url : String
  pub unit : String
  pub active : Bool
  pub public_keys : List (ℕ × K)
  pub counter : ℕ
  pub input_fee_ppk : ℕ

-- walletMint
pub record WalletMint (K : Type 0) : Type 0 where
  pub mint_url : String
  pub active_keyset : WalletKeyset K
  pub inactive_keysets : List (String × WalletKeyset K)

-- The errors that are built where they are returned.
pub data WalletError : Type 0 where
  insufficient_mint_balance : WalletError
  -- the amount, and the fees that it needs
  insufficient_funds : ℕ → ℕ → WalletError
  lengths_do_not_match key_not_found invalid_dleq invalid_text derivation_failed : WalletError
  -- wallet/storage/bolt.go
  proof_not_found keyset_mint_url_not_found keyset_not_found not_json no_transaction : WalletError

-- What a function of the wallet answers, or no answer: a loop without end or that ran out of fuel,
-- or a run-time panic.
pub data Answer (A : Type 0) : Type 0 where
  endless crash : Answer A
  fault : WalletError → Answer A
  answer : A → Answer A

infixl 10 ◌>>=◌
abbrev pub ◌>>=◌ : {A B : Type 0} → Answer A → (A → Answer B) → Answer B
endless >>= next = endless
crash >>= next = crash
fault e >>= next = fault e
answer a >>= next = next a

-- `if err != nil { return err }` on a value that is there or not
abbrev pub must_have : {A : Type 0} → WalletError → Option A → Answer A
must_have e none = fault e
must_have e (some a) = answer a

-- The same on a function of crypto, whose `panic` is a loop without end.
abbrev pub lifted : {A : Type 0} → Result A → Answer A
lifted panic = endless
lifted (err e) = fault derivation_failed
lifted (ok a) = answer a

pub must_have-eq-answer :
    {A : Type 0} (e : WalletError) (o : Option A) {a : A} → must_have e o ≡ answer a → o ≡ some a
must_have-eq-answer e none h = cc
must_have-eq-answer e (some a) h = cc

pub answer_injective : {A : Type 0} {a b : A} → answer a ≡ answer b → a ≡ b
answer_injective e = cc

-- The value of a chain that answers comes from a first step that answers.
pub >>=-eq-answer :
    {A B : Type 0} (r : Answer A) (next : A → Answer B) {b : B}
    → (r >>= next) ≡ answer b
    → (a : A) × (r ≡ answer a) × (next a ≡ answer b)
>>=-eq-answer endless next e = cc
>>=-eq-answer crash next e = cc
>>=-eq-answer (fault problem) next e = cc
>>=-eq-answer (answer a) next e = (a, refl, e)

module _ {K : Type 0} where
  -- `mint.inactiveKeysets[id]`
  inactive_fee : String → List (String × WalletKeyset K) → ℕ
  inactive_fee id [] = 0
  inactive_fee id ((key, keyset) ∷ rest) =
      let later = inactive_fee id rest in if str_eq key id then keyset.input_fee_ppk else later

  -- the round of the loop of feesForProofs
  unfoldable pub input_fee : WalletMint K → Proof → ℕ
  unfolding inactive_fee
  input_fee mint proof =
      if str_eq mint.active_keyset.id proof.id
      then mint.active_keyset.input_fee_ppk
      else inactive_fee proof.id mint.inactive_keysets

  -- `uint` has 64 bits.
  input_fees : WalletMint K → ℕ → List Proof → ℕ
  unfolding input_fee
  input_fees mint fees [] = fees
  input_fees mint fees (proof ∷ rest) =
      input_fees mint ((fees + input_fee mint proof) % u64_mod) rest

  -- feesForProofs
  unfoldable pub fees_for_proofs : WalletMint K → List Proof → ℕ
  unfolding input_fees
  fees_for_proofs mint proofs = ((input_fees mint 0 proofs + 999) % u64_mod) / 1000

  -- `if includeFees { fees = uint64(feesForProofs(...)) }`
  unfoldable pub fees_if : Bool → WalletMint K → List Proof → ℕ
  fees_if false mint proofs = 0
  fees_if true mint proofs = fees_for_proofs mint proofs
