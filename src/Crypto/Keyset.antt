-- ===== src/Crypto/Keyset.antt =====
-- crypto/keyset.go: the keys of the mint, one for each power of two.
use gonuts.Prelude.{ℕ, String, Bool, Option, none, some, List, [], ◌∷◌, ◌==◌, if◌then◌else◌}
use gonuts.Library.{Library}

-- crypto.MintKeyset; `Keys` as an association list of the private keys.
pub record MintKeyset (lib : Library) : Type 0 where
  pub id : String
  pub unit : String
  pub active : Bool
  pub derivation_path_idx : ℕ
  pub keys : List (ℕ × lib.PrivateKey)
  pub input_fee_ppk : ℕ

-- `keyset.Keys[amount]`
unfoldable pub key_for {ℓ} : {A : Type ℓ} → ℕ → List (ℕ × A) → Option A
key_for amount [] = none
key_for amount ((a, k) ∷ keys) =
    let rest = key_for amount keys in if a == amount then some k else rest
