-- ===== src/Tests/Buckets.antt =====
-- Buckets as lists of entries, and the storage of the wallet on them.
use gonuts.Prelude.{
  ℕ, ◌≡◌, ◌≢◌, refl, ap, String, Bool, true, false, Option, none, some, List, [], ◌∷◌, All, arith,
  ◌==◌, if◌then◌else◌, Bool-cases, inl, inr,
}
use gonuts.Library.{Bytes}
use gonuts.Cashu.{Proof}
use gonuts.Wallet.{WalletKeyset, answer}
use gonuts.Wallet.Storage.{Bolt, BoltLaws, BoltDb, DbProof, save_proofs, update_keyset_mint_url}
use gonuts.Wallet.Storage.Quotes.{WalletMintQuote, WalletMeltQuote, WalletInvoice}
use gonuts.Wallet.Storage.Laws.{
  HasDistinctKeys, IsStored, DeletesOnce, IsMoved, save_proofs-delete_proof,
  update_keyset_mint_url-IsMoved,
}
use gonuts.Tests.Values.{toy}

abbrev pub same_bytes : Bytes → Bytes → Bool
same_bytes [] [] = true
same_bytes (x ∷ xs) (y ∷ ys) = if x == y then same_bytes xs ys else false
same_bytes xs ys = false

pub same_bytes_refl : (xs : Bytes) → same_bytes xs xs ≡ true
same_bytes_refl [] = refl
same_bytes_refl (x ∷ xs) = ground (arith, same_bytes_refl xs)

same_bytes-eq : (xs ys : Bytes) → same_bytes xs ys ≡ true → xs ≡ ys
same_bytes-eq [] [] h = refl
same_bytes-eq [] (y ∷ ys) h = cc
same_bytes-eq (x ∷ xs) [] h = cc
same_bytes-eq (x ∷ xs) (y ∷ ys) h = ground (arith, same_bytes-eq xs ys)

different : (xs ys : Bytes) → xs ≢ ys → same_bytes xs ys ≡ false
different xs ys h = elim (Bool-cases (same_bytes xs ys)) [
  | inl same ↦ absurd (h (same_bytes-eq xs ys same))
  | inr apart ↦ apart
]

abbrev Entries : Type 0 → Type 0
Entries V = List (Bytes × V)

abbrev get_entry : {V : Type 0} → Bytes → Entries V → Option V
get_entry k [] = none
get_entry k ((j, v) ∷ rest) =
    let later = get_entry k rest in if same_bytes k j then some v else later

abbrev delete_entry : {V : Type 0} → Bytes → Entries V → Entries V
delete_entry k [] = []
delete_entry k ((j, v) ∷ rest) =
    let later = delete_entry k rest in if same_bytes k j then later else (j, v) ∷ later

get-delete_entry : {V : Type 0} (k : Bytes) (b : Entries V) → get_entry k (delete_entry k b) ≡ none
get-delete_entry k [] = refl
get-delete_entry k ((j, v) ∷ b) = elim (Bool-cases (same_bytes k j)) [
  | inl here ↦ rw here (get-delete_entry k b)
  | inr there ↦ rw (there, there) (get-delete_entry k b)
]

get-delete_entry_other :
    {V : Type 0} (j k : Bytes) (b : Entries V)
    → j ≢ k
    → get_entry j (delete_entry k b) ≡ get_entry j b
get-delete_entry_other j k [] h = refl
get-delete_entry_other j k ((i, v) ∷ b) h = elim (Bool-cases (same_bytes k i)) [
  | inl here ↦
      let apart : same_bytes j i ≡ false = rw (← same_bytes-eq k i here) (different j k h) in
      rw (here, apart) (get-delete_entry_other j k b h)
  | inr there ↦ elim (Bool-cases (same_bytes j i)) [
    | inl found ↦ rw (there, found) refl
    | inr not_here ↦ rw (there, not_here) (get-delete_entry_other j k b h)
  ]
]

pub data Json : Type 0 where
  of_proof : Proof → Json
  of_db_proof : DbProof → Json
  of_keyset : WalletKeyset ℕ → Json
  of_mint_quote : WalletMintQuote ℕ ℕ → Json
  of_melt_quote : WalletMeltQuote ℕ → Json
  of_invoice : WalletInvoice ℕ → Json

abbrev read_proof : Json → Option Proof
read_proof (of_proof p) = some p
read_proof _ = none

abbrev read_db_proof : Json → Option DbProof
read_db_proof (of_db_proof p) = some p
read_db_proof _ = none

abbrev read_keyset : Json → Option (WalletKeyset ℕ)
read_keyset (of_keyset k) = some k
read_keyset _ = none

abbrev pub lists : Bolt toy
lists = record {
  Json = Json;
  Bucket = Entries;
  empty = [];
  get = get_entry;
  put = λ k v b. (k, v) ∷ b;
  delete = delete_entry;
  entries = λ b. b;
  marshal_proof = λ p. some (of_proof p);
  unmarshal_proof = read_proof;
  marshal_db_proof = λ p. some (of_db_proof p);
  unmarshal_db_proof = read_db_proof;
  marshal_keyset = λ k. some (of_keyset k);
  unmarshal_keyset = read_keyset;
}

pub lists_laws : BoltLaws lists
lists_laws = record {
  get-put = λ k v b. rw (same_bytes_refl k) refl;
  get-put_other = λ j k v b h. rw (different j k h) refl;
  get-delete = get-delete_entry;
  get-delete_other = get-delete_entry_other;
}

abbrev coin : String → Proof
coin secret = record { amount = 4; id = "k"; secret = secret; c = "c"; witness = ""; dleq = none }

abbrev two_coins : List Proof
two_coins = coin "a" ∷ coin "b" ∷ []

abbrev stored_keyset : WalletKeyset ℕ
stored_keyset = record {
  id = "k";
  mint_url = "old";
  unit = "sat";
  active = true;
  public_keys = [];
  counter = 5;
  input_fee_ppk = 0;
}

abbrev old_bucket : Entries Json
old_bucket = (toy.bytes_of "k", of_keyset stored_keyset) ∷ []

abbrev before : BoltDb lists
before = record {
  proofs = [];
  pending_proofs = [];
  keysets = (toy.bytes_of "old", old_bucket) ∷ [];
}

abbrev after_save : BoltDb lists
after_save = record before {
  proofs = (toy.bytes_of "b", of_proof (coin "b")) ∷ (toy.bytes_of "a", of_proof (coin "a")) ∷ [];
}

saved : save_proofs lists true two_coins before ≡ (answer tt, after_save)
unfolding save_proofs
saved = refl

pub true-ne-false : true ≢ false
true-ne-false e = cc

apart_keys : HasDistinctKeys lists two_coins
apart_keys = (((λ e. true-ne-false (ap (λ xs. same_bytes (toy.bytes_of "a") xs) e)), tt), (tt, tt))

save_proofs-delete_proof_example :
    All
      (λ (p : Proof).
        IsStored lists lists_laws after_save p × DeletesOnce lists lists_laws after_save p)
      two_coins
save_proofs-delete_proof_example =
    save_proofs-delete_proof lists lists_laws two_coins before after_save apart_keys saved

abbrev after_move : BoltDb lists
after_move = record before {
  keysets =
      (
        toy.bytes_of "new",
        (toy.bytes_of "k", of_keyset (record stored_keyset { mint_url = "new" })) ∷ [],
      )
      ∷ [];
}

moved : update_keyset_mint_url lists true "old" "new" before ≡ (answer tt, after_move)
unfolding update_keyset_mint_url
moved = refl

-- With its own URL the mint loses its keysets.
lost :
    update_keyset_mint_url lists true "old" "old" before
    ≡ (answer tt, record before { keysets = [] })
unfolding update_keyset_mint_url
lost = refl

update_keyset_mint_url-IsMoved_example :
    (get_entry (toy.bytes_of "old") after_move.keysets ≡ none)
    × (toy.bytes_of "new" ≢ toy.bytes_of "old"
        → IsMoved lists lists_laws "new" old_bucket before after_move)
update_keyset_mint_url-IsMoved_example =
    update_keyset_mint_url-IsMoved lists lists_laws "old" "new" before after_move old_bucket refl
      (tt, tt) moved
