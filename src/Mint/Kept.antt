-- ===== src/Mint/Kept.antt =====
-- What every handler keeps: a handler moves the database on as its writes do, on every path.
pub mod Writes
use gonuts.Prelude.{◌≡◌, refl, String, Bool, true, false, List}
use gonuts.Errors.{Error, Result, ok, err, panic}
use gonuts.Library.{Library}
use gonuts.Storage.{Db}
use gonuts.Storage.Later.{Later, Later-refl, Later-trans}
use gonuts.Cashu.{Proof}
use gonuts.Mint.States.{publish_spent}
use gonuts.Mint.{
  Mint, Handler, Event, Payment, continue, ◌>>=◌, ◌>>◌, pure, raise, proof_state, gets, write,
  publish, record_payment,
}

module _ {lib : Library} where
  -- From every state, and whatever the result is, the database is left the same or moved on.
  pub record Keeps {A : Type 0} (h : Handler lib A) : Type 0 where
    pub moves : (m : Mint lib) → Later m.db (h m).1.db

  continue-Later :
      {A B : Type 0} (db : Db) (r : Result A) (m : Mint lib) (next : A → Handler lib B)
      → Later db m.db
      → ((a : A) → Keeps (next a))
      → Later db (continue r m next).1.db
  continue-Later db (ok a) m next l k = Later-trans l ((k a).moves m)
  continue-Later db (err e) m next l k = l
  continue-Later db panic m next l k = l

  pub Keeps->>= :
      {A B : Type 0} (h : Handler lib A) (next : A → Handler lib B)
      → Keeps h
      → ((a : A) → Keeps (next a))
      → Keeps (h >>= next)
  Keeps->>= h next kept k = record {
    moves = λ m. continue-Later m.db (h m).0 (h m).1 next (kept.moves m) k;
  }

  pub Keeps->> :
      {B : Type 0} (h : Handler lib (Unit {0})) (next : Handler lib B)
      → Keeps h
      → Keeps next
      → Keeps (h >> next)
  Keeps->> h next kept k = Keeps->>= h (λ u. next) kept (λ u. k)

  pub Keeps-gets : {A : Type 0} (f : Mint lib → Result A) → Keeps (gets f)
  Keeps-gets f = record { moves = λ m. Later-refl m.db }

  pub Keeps-pure : {A : Type 0} (a : A) → Keeps {A = A} (pure a)
  Keeps-pure a = record { moves = λ m. Later-refl m.db }

  pub Keeps-raise : {A : Type 0} (e : Error) → Keeps {A = A} (raise e)
  Keeps-raise e = record { moves = λ m. Later-refl m.db }

  pub Keeps-publish : (event : Event) → Keeps (publish event)
  Keeps-publish event = record { moves = λ m. Later-refl m.db }

  pub Keeps-record_payment : (p : Payment) → Keeps (record_payment p)
  Keeps-record_payment p = record { moves = λ m. Later-refl m.db }

  pub Keeps-write :
      {A : Type 0} (f : Db → Result A × Db) → ((db : Db) → Later db (f db).1) → Keeps (write f)
  Keeps-write f later = record { moves = λ m. later m.db }

  continue_kept :
      {A B : Type 0} (r : Result A) (m : Mint lib) (next : A → Handler lib B)
      → ((a : A) → Keeps (next a))
      → Later m.db (continue r m next).1.db
  continue_kept r m next k = continue-Later m.db r m next (Later-refl m.db) k

pub publish_spent-Keeps : (lib : Library) (proofs : List Proof) → Keeps (publish_spent lib proofs)
unfolding publish_spent
publish_spent-Keeps lib proofs = record {
  moves = λ m. continue_kept _ m _ (λ states. Keeps-publish (proof_state states));
}
