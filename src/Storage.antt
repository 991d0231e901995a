-- ===== src/Storage.antt =====
-- mint/storage: the records of the mint's database and its tables, as the migrations in
-- mint/storage/sqlite/migrations declare them. A table is the list of its rows, in the order of
-- insertion; a NULL is `none`. The operations of mint/storage/sqlite/sqlite.go are in the modules
-- below. Each takes `io`, which is false when the database engine fails for a reason of its own
-- (the disk, a lock); such a call answers an error and changes nothing, since every write is one
-- statement or one transaction.
pub mod Proofs
pub mod MintQuotes
pub mod MeltQuotes
pub mod BlindSignatures
pub mod Balance
pub mod Later
use gonuts.Prelude.{ℕ, String, Bool, Option, List, []}
use gonuts.Nuts.States.{MintState, MeltState}

-- storage.DBProof, and a row of `proofs` and of `pending_proofs`
pub record DbProof : Type 0 where
  pub amount : ℕ
  pub id : String
  pub secret : String
  pub y : String
  pub c : String
  pub witness : String
  pub melt_quote_id : String

-- storage.MintQuote, over the type of public keys
pub record MintQuote (K : Type 0) : Type 0 where
  pub id : String
  pub amount : ℕ
  pub payment_request : String
  pub payment_hash : String
  pub state : MintState
  pub expiry : ℕ
  pub pubkey : Option K

-- a row of `mint_quotes`
pub record MintQuoteRow : Type 0 where
  pub id : String
  pub payment_request : String
  pub payment_hash : String
  pub amount : ℕ
  pub state : String
  pub expiry : ℕ
  pub pubkey : Option String

-- storage.MeltQuote
pub record MeltQuote : Type 0 where
  pub id : String
  pub invoice_request : String
  pub payment_hash : String
  pub amount : ℕ
  pub fee_reserve : ℕ
  pub state : MeltState
  pub expiry : ℕ
  pub preimage : String
  pub is_mpp : Bool
  pub amount_msat : ℕ

-- a row of `melt_quotes`
pub record MeltQuoteRow : Type 0 where
  pub id : String
  pub request : String
  pub payment_hash : String
  pub amount : ℕ
  pub fee_reserve : ℕ
  pub state : String
  pub expiry : ℕ
  pub preimage : String
  pub is_mpp : Option Bool
  pub amount_msat : Option ℕ

-- a row of `blind_signatures`
pub record SignatureRow : Type 0 where
  pub b_ : String
  pub c_ : String
  pub keyset_id : String
  pub amount : ℕ
  pub e : Option String
  pub s : Option String

-- The tables.
pub record Db : Type 0 where
  pub proofs : List DbProof
  pub pending_proofs : List DbProof
  pub mint_quotes : List MintQuoteRow
  pub melt_quotes : List MeltQuoteRow
  pub blind_signatures : List SignatureRow

abbrev pub empty_db : Db
empty_db = record {
  proofs = [];
  pending_proofs = [];
  mint_quotes = [];
  melt_quotes = [];
  blind_signatures = [];
}
