-- ===== src/Mint.antt =====
-- mint/mint.go: the state of the mint, what the world answers during one call, and the monad of
-- its handlers. The handlers are in the modules below.
pub mod Ledger
pub mod Proofs
pub mod Outputs
pub mod MintTokens
pub mod Swap
pub mod Melt
pub mod DoubleSpend
pub mod Kept
pub mod Steps
pub mod Restore
pub mod StateCheck
pub mod States
use gonuts.Prelude.{
  ℕ, ◌+◌, String, Bool, true, false, Option, none, some, List, [], ◌∷◌, ◌++◌, ◌≡◌, refl, str_eq,
  if◌then◌else◌,
}
use gonuts.Errors.{Error, Result, ok, err, panic}
use gonuts.Library.{Library}
use gonuts.Crypto.Keyset.{MintKeyset}
use gonuts.Nuts.States.{MintState, ProofStatus}
use gonuts.Storage.{Db}

-- lightning.Invoice
pub record Invoice : Type 0 where
  pub payment_request : String
  pub payment_hash : String
  pub preimage : String
  pub settled : Bool
  pub amount : ℕ
  pub expiry : ℕ

-- lightning.State
pub data PaymentState : Type 0 where
  succeeded failed pending : PaymentState

-- lightning.PaymentStatus, less the text of the failure
pub record PaymentStatus : Type 0 where
  pub preimage : String
  pub payment_status : PaymentState

-- What OutgoingPaymentStatus answers: a status, the gRPC error NotFound, or another error.
pub data Outgoing : Type 0 where
  found : PaymentStatus → Outgoing
  not_found other_error : Outgoing

-- decodepay.Bolt11; MSatoshi is taken as the `uint64` that the mint converts it to.
pub record Bolt11 : Type 0 where
  pub msatoshi : ℕ
  pub payment_hash : String

-- What is outside the mint, as it answers during one call of a handler: the lightning backend,
-- the clock, the source of randomness and the database engine (`io`, by the position of the call
-- in the handler). `none` is an error.
pub record World (lib : Library) : Type 0 where
  pub create_invoice : ℕ → Option Invoice
  pub invoice_status : String → Option Invoice
  pub send_payment : String → ℕ → Option PaymentStatus
  pub pay_partial_amount : String → ℕ → ℕ → Option PaymentStatus
  pub outgoing_payment_status : String → Outgoing
  pub fee_reserve : ℕ → ℕ
  pub decode_invoice : String → Option Bolt11
  pub now : ℕ
  pub random_quote_id : Option String
  pub nonce : ℕ → lib.PrivateKey
  pub io : ℕ → Bool

-- MintLimits
pub record MintLimits : Type 0 where
  pub max_balance : ℕ
  pub mint_max_amount : ℕ
  pub melt_max_amount : ℕ

-- nut07.ProofState
pub record ProofState : Type 0 where
  pub y : String
  pub state : ProofStatus
  pub witness : String

-- What is published to the subscribers, by topic.
pub data Event : Type 0 where
  bolt11_mint_quote : String → MintState → Event
  proof_state : List ProofState → Event

-- A payment that the backend was asked for: SendPayment with its fee limit, or PayPartialAmount
-- with its amount and its fee limit.
pub data Payment : Type 0 where
  full : String → ℕ → Payment
  partial : String → ℕ → ℕ → Payment

-- Mint, less its logger and its contexts; `payments` records the calls of the backend.
pub record Mint (lib : Library) : Type 0 where
  pub db : Db
  pub active_keyset : MintKeyset lib
  pub keysets : List (String × MintKeyset lib)
  pub limits : MintLimits
  pub mpp_enabled : Bool
  pub published : List Event
  pub payments : List Payment

-- A handler returns its result and the state that it leaves, also where it fails.
abbrev pub Handler : Library → Type 0 → Type 0
Handler lib A = Mint lib → Result A × Mint lib

abbrev pub continue :
    {lib : Library} {A B : Type 0} → Result A → Mint lib → (A → Handler lib B) → Result B × Mint lib
continue (ok a) m f = f a m
continue (err e) m f = (err e, m)
continue panic m f = (panic, m)

infixl 10 ◌>>=◌ ◌>>◌
abbrev pub ◌>>=◌ :
    {lib : Library} {A B : Type 0} → Handler lib A → (A → Handler lib B) → Handler lib B
◌>>=◌ h f m = let (r, m') = h m in continue r m' f

abbrev pub ◌>>◌ :
    {lib : Library} {B : Type 0} → Handler lib (Unit {0}) → Handler lib B → Handler lib B
h >> k = h >>= λ _. k

abbrev pub pure : {lib : Library} {A : Type 0} → A → Handler lib A
pure a m = (ok a, m)

abbrev pub raise : {lib : Library} {A : Type 0} → Error → Handler lib A
raise e m = (err e, m)

-- A check that reads the state.
abbrev pub gets : {lib : Library} {A : Type 0} → (Mint lib → Result A) → Handler lib A
gets f m = (f m, m)

-- A call of the database that writes.
abbrev pub write : {lib : Library} {A : Type 0} → (Db → Result A × Db) → Handler lib A
write f m = let (r, db') = f m.db in (r, record m { db = db' })

abbrev pub publish : {lib : Library} → Event → Handler lib (Unit {0})
publish event m = (ok tt, record m { published = m.published ++ event ∷ [] })

abbrev pub record_payment : {lib : Library} → Payment → Handler lib (Unit {0})
record_payment p m = (ok tt, record m { payments = m.payments ++ p ∷ [] })

-- A handler that answers has passed its first step.
pub continue-eq-ok :
    {lib : Library} {A B : Type 0} (r : Result A) (m : Mint lib) (f : A → Handler lib B) (b : B)
    (m' : Mint lib)
    → continue r m f ≡ (ok b, m')
    → (a : A) × (r ≡ ok a) × (f a m ≡ (ok b, m'))
continue-eq-ok (ok a) m f b m' h = (a, refl, h)
continue-eq-ok (err e) m f b m' h = cc
continue-eq-ok panic m f b m' h = cc

-- `if err != nil { return other }`
abbrev pub or_error {ℓ} : {A : Type ℓ} → Error → Result A → Result A
or_error e (ok a) = ok a
or_error e (err _) = err e
or_error e panic = panic

abbrev pub require {ℓ} : {A : Type ℓ} → Error → Option A → Result A
require e none = err e
require e (some a) = ok a

-- `m.keysets[id]`
unfoldable pub find_keyset :
    {lib : Library} → String → List (String × MintKeyset lib) → Option (MintKeyset lib)
find_keyset id [] = none
find_keyset id ((k, keyset) ∷ rest) =
    let later = find_keyset id rest in if str_eq k id then some keyset else later
