-- ===== src/Wallet/Storage.antt =====
-- wallet/storage/bolt.go: the wallet's proofs, pending proofs and keysets, in buckets of bbolt. Each
-- write is one transaction; `io` is false when it fails for a reason of its own (the disk, a lock).
pub mod Moves
pub mod Laws
pub mod Quotes
use gonuts.Prelude.{
  ℕ, ◌+◌, ◌%◌, ◌^◌, ◌≡◌, ◌≢◌, String, Bool, true, false, Option, none, some, List, [], ◌∷◌, str_eq,
  if◌then◌else◌,
}
use gonuts.Errors.{Result, ok, err, panic}
use gonuts.Library.{Library, Bytes}
use gonuts.Cashu.{Proof, DleqPointer}
use gonuts.Crypto.HashToCurve.{hash_to_curve}
use gonuts.Wallet.{
  WalletKeyset, WalletError, Answer, endless, crash, fault, answer, ◌>>=◌, must_have, lifted,
  proof_not_found, keyset_mint_url_not_found, keyset_not_found, not_json, no_transaction,
  invalid_text,
}

-- DBProof
pub record DbProof : Type 0 where
  pub y : String
  pub amount : ℕ
  pub id : String
  pub secret : String
  pub c : String
  pub dleq : Option DleqPointer
  pub melt_quote_id : String

-- go.etcd.io/bbolt and encoding/json: buckets, with the entries in the order of a cursor, and texts in
-- JSON, `none` for an error.
pub record Bolt (lib : Library) : Type 1 where
  pub Json : Type 0
  pub Bucket : Type 0 → Type 0
  pub empty : {V : Type 0} → Bucket V
  pub get : {V : Type 0} → Bytes → Bucket V → Option V
  pub put : {V : Type 0} → Bytes → V → Bucket V → Bucket V
  pub delete : {V : Type 0} → Bytes → Bucket V → Bucket V
  pub entries : {V : Type 0} → Bucket V → List (Bytes × V)
  pub marshal_proof : Proof → Option Json
  pub unmarshal_proof : Json → Option Proof
  pub marshal_db_proof : DbProof → Option Json
  pub unmarshal_db_proof : Json → Option DbProof
  pub marshal_keyset : WalletKeyset lib.PublicKey → Option Json
  pub unmarshal_keyset : Json → Option (WalletKeyset lib.PublicKey)

-- What bbolt documents of its buckets.
pub record BoltLaws {lib : Library} (bolt : Bolt lib) : Type 1 where
  pub get-put :
      {V : Type 0} (k : Bytes) (v : V) (b : bolt.Bucket V) → bolt.get k (bolt.put k v b) ≡ some v
  pub get-put_other :
      {V : Type 0} (j k : Bytes) (v : V) (b : bolt.Bucket V)
      → j ≢ k
      → bolt.get j (bolt.put k v b) ≡ bolt.get j b
  pub get-delete :
      {V : Type 0} (k : Bytes) (b : bolt.Bucket V) → bolt.get k (bolt.delete k b) ≡ none
  pub get-delete_other :
      {V : Type 0} (j k : Bytes) (b : bolt.Bucket V)
      → j ≢ k
      → bolt.get j (bolt.delete k b) ≡ bolt.get j b

module _ {lib : Library} (bolt : Bolt lib) where
  open lib use {bytes_of, encode_hex, decode_hex, serialize_compressed}
  open bolt use {
    Json, Bucket, empty, get, put, delete, entries, marshal_proof, unmarshal_proof,
    marshal_db_proof, unmarshal_db_proof, marshal_keyset, unmarshal_keyset,
  }

  -- BoltDB: the buckets that are modelled; the keysets are in a bucket for each mint URL.
  pub record BoltDb : Type 0 where
    pub proofs : Bucket Json
    pub pending_proofs : Bucket Json
    pub keysets : Bucket (Bucket Json)

  -- bolt.Update: an error rolls the transaction back.
  unfoldable pub update : Bool → (BoltDb → Answer BoltDb) → BoltDb → Answer (Unit {0}) × BoltDb
  update false change db = (fault no_transaction, db)
  update true change db = elim (change db) [
    | endless ↦ (endless, db)
    | crash ↦ (crash, db)
    | fault e ↦ (fault e, db)
    | answer db' ↦ (answer tt, db')
  ]

  unfoldable pub put_proofs : List Proof → Bucket Json → Answer (Bucket Json)
  put_proofs [] bucket = answer bucket
  put_proofs (p ∷ ps) bucket = do
    text ← must_have not_json (marshal_proof p)
    put_proofs ps (put (bytes_of p.secret) text bucket)

  -- the transaction of SaveProofs
  unfoldable pub with_proofs : List Proof → BoltDb → Answer BoltDb
  unfolding put_proofs
  with_proofs proofs db =
      put_proofs proofs db.proofs >>= λ bucket. answer (record db { proofs = bucket })

  -- SaveProofs
  unfoldable pub save_proofs : Bool → List Proof → BoltDb → Answer (Unit {0}) × BoltDb
  unfolding with_proofs update
  save_proofs io proofs = update io (with_proofs proofs)

  -- The values that can be read.
  unfoldable pub readable : {A : Type 0} → (Json → Option A) → List (Bytes × Json) → List A
  readable read [] = []
  readable read ((k, v) ∷ rest) =
      let later = readable read rest in elim (read v) [ none ↦ later | some a ↦ a ∷ later ]

  -- The values, unless one cannot be read.
  unfoldable pub all_readable :
      {A : Type 0} → (Json → Option A) → List (Bytes × Json) → Option (List A)
  all_readable read [] = some []
  all_readable read ((k, v) ∷ rest) =
      let later = all_readable read rest in
      elim (read v) [
        | none ↦ none
        | some a ↦ elim later [ none ↦ none | some values ↦ some (a ∷ values) ]
      ]

  of_keyset : String → List Proof → List Proof
  of_keyset id [] = []
  of_keyset id (p ∷ ps) = let rest = of_keyset id ps in if str_eq p.id id then p ∷ rest else rest

  of_quote : String → List DbProof → List DbProof
  of_quote id [] = []
  of_quote id (p ∷ ps) =
      let rest = of_quote id ps in if str_eq p.melt_quote_id id then p ∷ rest else rest

  -- GetProofs
  unfoldable pub get_proofs : BoltDb → List Proof
  unfolding readable
  get_proofs db = readable unmarshal_proof (entries db.proofs)

  -- GetProofsByKeysetId
  unfoldable pub get_proofs_by_keyset_id : String → BoltDb → List Proof
  unfolding all_readable of_keyset
  get_proofs_by_keyset_id id db = elim (all_readable unmarshal_proof (entries db.proofs)) [
    | none ↦ []
    | some proofs ↦ of_keyset id proofs
  ]

  -- the transaction of DeleteProof, by what stands under the secret
  unfoldable pub without_found : Bytes → BoltDb → Option Json → Answer BoltDb
  without_found key db none = fault proof_not_found
  without_found key db (some text) = answer (record db { proofs = delete key db.proofs })

  unfoldable pub without_proof : String → BoltDb → Answer BoltDb
  unfolding without_found
  without_proof secret db = without_found (bytes_of secret) db (get (bytes_of secret) db.proofs)

  -- DeleteProof
  unfoldable pub delete_proof : Bool → String → BoltDb → Answer (Unit {0}) × BoltDb
  unfolding without_proof update
  delete_proof io secret = update io (without_proof secret)

  -- AddPendingProofsByQuoteId
  unfoldable pub put_pending : String → List Proof → Bucket Json → Answer (Bucket Json)
  put_pending quote_id [] bucket = answer bucket
  put_pending quote_id (p ∷ ps) bucket = do
    y ← lifted (hash_to_curve lib (bytes_of p.secret))
    text ← must_have not_json (
        marshal_db_proof (record {
          y = encode_hex (serialize_compressed y);
          amount = p.amount;
          id = p.id;
          secret = p.secret;
          c = p.c;
          dleq = p.dleq;
          melt_quote_id = quote_id;
        }))
    put_pending quote_id ps (put (serialize_compressed y) text bucket)

  unfoldable pub add_pending_proofs_by_quote_id :
      Bool → List Proof → String → BoltDb → Answer (Unit {0}) × BoltDb
  unfolding put_pending update
  add_pending_proofs_by_quote_id io proofs quote_id = update io (λ db.
      put_pending quote_id proofs db.pending_proofs >>= λ bucket.
      answer (record db { pending_proofs = bucket }))

  -- AddPendingProofs, which leaves the quote empty
  unfoldable pub add_pending_proofs : Bool → List Proof → BoltDb → Answer (Unit {0}) × BoltDb
  unfolding add_pending_proofs_by_quote_id
  add_pending_proofs io proofs = add_pending_proofs_by_quote_id io proofs ""

  -- GetPendingProofs
  unfoldable pub get_pending_proofs : BoltDb → List DbProof
  unfolding readable
  get_pending_proofs db = readable unmarshal_db_proof (entries db.pending_proofs)

  -- GetPendingProofsByQuoteId
  unfoldable pub get_pending_proofs_by_quote_id : String → BoltDb → List DbProof
  unfolding all_readable of_quote
  get_pending_proofs_by_quote_id id db =
      elim (all_readable unmarshal_db_proof (entries db.pending_proofs)) [
        | none ↦ []
        | some proofs ↦ of_quote id proofs
      ]

  delete_keys : List String → Bucket Json → Answer (Bucket Json)
  delete_keys [] bucket = answer bucket
  delete_keys (y ∷ ys) bucket = do
    key ← must_have invalid_text (decode_hex y)
    delete_keys ys (delete key bucket)

  -- DeletePendingProofs
  unfoldable pub delete_pending_proofs : Bool → List String → BoltDb → Answer (Unit {0}) × BoltDb
  unfolding delete_keys update
  delete_pending_proofs io ys = update io (λ db.
      delete_keys ys db.pending_proofs >>= λ bucket. answer (record db { pending_proofs = bucket }))

  -- CreateBucketIfNotExists
  abbrev pub bucket_of : Option (Bucket Json) → Bucket Json
  bucket_of none = empty
  bucket_of (some bucket) = bucket

  -- SaveKeyset
  unfoldable pub save_keyset :
      Bool → WalletKeyset lib.PublicKey → BoltDb → Answer (Unit {0}) × BoltDb
  unfolding update
  save_keyset io keyset = update io (λ db. must_have not_json (marshal_keyset keyset) >>= λ text.
      let url = bytes_of keyset.mint_url in
      let bucket = put (bytes_of keyset.id) text (bucket_of (get url db.keysets)) in
      answer (record db { keysets = put url bucket db.keysets }))

  -- The loop of UpdateKeysetMintURL over the keysets of the old URL. Where the two URLs are the same,
  -- the source writes to the bucket under its cursor, and bbolt does not say what the cursor gives; the
  -- bucket is deleted after the loop in any case.
  unfoldable pub move_keysets : String → List (Bytes × Json) → Bucket Json → Answer (Bucket Json)
  move_keysets url [] bucket = answer bucket
  move_keysets url ((id, text) ∷ rest) bucket = do
    keyset ← must_have not_json (unmarshal_keyset text)
    text' ← must_have not_json (marshal_keyset (record keyset { mint_url = url }))
    move_keysets url rest (put id text' bucket)

  -- the transaction of UpdateKeysetMintURL, by what stands under the old URL
  unfoldable pub moved_found : String → String → BoltDb → Option (Bucket Json) → Answer BoltDb
  unfolding move_keysets
  moved_found old_url new_url db none = fault keyset_mint_url_not_found
  moved_found old_url new_url db (some old) =
      move_keysets new_url (entries old) (bucket_of (get (bytes_of new_url) db.keysets))
      >>= λ bucket. answer (record db {
        keysets = delete (bytes_of old_url) (put (bytes_of new_url) bucket db.keysets);
      })

  unfoldable pub with_url : String → String → BoltDb → Answer BoltDb
  unfolding moved_found
  with_url old_url new_url db = moved_found old_url new_url db (get (bytes_of old_url) db.keysets)

  -- UpdateKeysetMintURL
  unfoldable pub update_keyset_mint_url :
      Bool → String → String → BoltDb → Answer (Unit {0}) × BoltDb
  unfolding with_url update
  update_keyset_mint_url io old_url new_url = update io (with_url old_url new_url)

  -- GetKeyset, in the buckets of the mints in their order: the last one that has it.
  keyset_in :
      String
      → Option (WalletKeyset lib.PublicKey)
      → List (Bytes × Bucket Json)
      → Option (WalletKeyset lib.PublicKey)
  keyset_in id last [] = last
  keyset_in id last ((url, bucket) ∷ rest) = elim (get (bytes_of id) bucket) [
    | none ↦ keyset_in id last rest
    | some text ↦ elim (unmarshal_keyset text) [
      | none ↦ last
      | some keyset ↦ keyset_in id (some keyset) rest
    ]
  ]

  unfoldable pub get_keyset : String → BoltDb → Option (WalletKeyset lib.PublicKey)
  unfolding keyset_in
  get_keyset id db = keyset_in id none (entries db.keysets)
