-- ===== src/Mint/MintTokens/Minted.antt =====
-- What has happened when `MintTokens` answers signatures.
use mathlib.Core.Path.{subst}
use gonuts.Prelude.{
  ◌≡◌, refl, ap, ◌⊎◌, inl, inr, String, Bool, true, false, Option, none, some, [], ◌∷◌, ◌++◌,
  Bool-cases,
}
use gonuts.Errors.{
  Error, Result, ok, err, panic, ok_injective, quote_not_exist, lightning_backend_error,
}
use gonuts.Library.{Library}
use gonuts.Nuts.States.{MintState}
use gonuts.Storage.{Db, MintQuote}
use gonuts.Storage.MintQuotes.{get_mint_quote, update_mint_quote_state}
use gonuts.Mint.{Mint, World, Invoice, continue-eq-ok, or_error, require, bolt11_mint_quote}
use gonuts.Mint.MintTokens.{mark_paid, refresh, get_mint_quote_state}

or_error_ok {ℓ} : {A : Type ℓ} (e : Error) (r : Result A) (a : A) → or_error e r ≡ ok a → r ≡ ok a
or_error_ok e (ok b) a h = h
or_error_ok e (err e') a h = cc
or_error_ok e panic a h = cc

require_ok {ℓ} : {A : Type ℓ} (e : Error) (o : Option A) (a : A) → require e o ≡ ok a → o ≡ some a
require_ok e none a h = cc
require_ok e (some b) a h = ap some (ok_injective h)

module _ (lib : Library) (w : World lib) (m : Mint lib) where
  open lib use {PublicKey}

  -- The state keeps its other tables.
  abbrev pub SameBooks : Mint lib → Mint lib → Type 0
  SameBooks m m' = (m'.db.blind_signatures ≡ m.db.blind_signatures) × (m'.db.proofs ≡ m.db.proofs)

  -- The invoice of the quote is paid: the stored state says so, or the backend does.
  abbrev pub IsSettled : MintQuote PublicKey → Type 0
  IsSettled q =
      (q.state ≡ MintState.paid)
      ⊎ ((q.state ≡ MintState.unpaid)
          × ((status : Invoice) × (w.invoice_status q.payment_hash ≡ some status)
              × (status.settled ≡ true)))

  -- The quote that GetMintQuoteState answers, against the stored one.
  abbrev pub Refreshed : MintQuote PublicKey → MintQuote PublicKey → Mint lib → Type 0
  Refreshed q q' m' =
      (q'.id ≡ q.id)
      × (q'.amount ≡ q.amount)
      × (q'.pubkey ≡ q.pubkey)
      × SameBooks m m'
      × (q'.state ≡ MintState.paid → IsSettled q)

  pub update_books :
      (io : Bool) (id : String) (s : MintState) (db : Db)
      → ((update_mint_quote_state io id s db).1.blind_signatures ≡ db.blind_signatures)
        × ((update_mint_quote_state io id s db).1.proofs ≡ db.proofs)
  unfolding update_mint_quote_state
  update_books false id s db = (refl, refl)
  update_books true id s db = (refl, refl)

  abbrev answer : MintQuote PublicKey → Mint lib → Result (MintQuote PublicKey) × Mint lib
  answer q m = (ok q, m)

  unchanged :
      (q q' : MintQuote PublicKey) (m' : Mint lib) → answer q m ≡ answer q' m' → Refreshed q q' m'
  unchanged q q' m' h =
      subst (λ q'. Refreshed q q' m') (ok_injective (ap (λ r. r.0) h))
        (subst (λ m'. Refreshed q q m') (ap (λ r. r.1) h)
          (refl, refl, refl, (refl, refl), λ paid. inl paid))

  mark_paid-Refreshed :
      (q q' : MintQuote PublicKey) (status : Invoice) (m' : Mint lib)
      → q.state ≡ MintState.unpaid
      → w.invoice_status q.payment_hash ≡ some status
      → mark_paid lib w q status m ≡ (ok q', m')
      → Refreshed q q' m'
  unfolding mark_paid
  mark_paid-Refreshed q q' status m' unpaid known h = elim (Bool-cases status.settled) [
    | inl settled ↦
        let marked = rw settled at h in
        let (_, e1, h1) =
          continue-eq-ok (update_mint_quote_state (w.io 1) q.id MintState.paid m.db).0 _ _ q' m'
            marked in
        let same : record q { state = MintState.paid } ≡ q' = ok_injective (ap (λ r. r.0) h1) in
        let left : record m {
          db = (update_mint_quote_state (w.io 1) q.id MintState.paid m.db).1;
          published = m.published ++ bolt11_mint_quote q.id MintState.paid ∷ [];
        }
            ≡ m' =
          ap (λ r. r.1) h1 in
        subst (λ q'. Refreshed q q' m') same
          (subst (λ m'. Refreshed q (record q { state = MintState.paid }) m') left
            (
              refl,
              refl,
              refl,
              update_books (w.io 1) q.id MintState.paid m.db,
              λ _. inr (unpaid, (status, known, settled)),
            ))
    | inr open_ ↦ let marked = rw open_ at h in unchanged q q' m' marked
  ]

  refresh-Refreshed :
      (q q' : MintQuote PublicKey) (m' : Mint lib) (s : MintState)
      → q.state ≡ s
      → refresh lib w q s m ≡ (ok q', m')
      → Refreshed q q' m'
  unfolding refresh
  refresh-Refreshed q q' m' MintState.unpaid e h =
      let (status, known, marked) =
        continue-eq-ok (require lightning_backend_error (w.invoice_status q.payment_hash)) m
          (mark_paid lib w q) q' m' h in
      mark_paid-Refreshed q q' status m' e (require_ok _ _ status known) marked
  refresh-Refreshed q q' m' MintState.paid e h = unchanged q q' m' h
  refresh-Refreshed q q' m' MintState.issued e h = unchanged q q' m' h
  refresh-Refreshed q q' m' MintState.pending e h = unchanged q q' m' h
  refresh-Refreshed q q' m' MintState.unknown e h = unchanged q q' m' h

  -- The quote that MintTokens works on.
  pub get_mint_quote_state-Refreshed :
      (id : String) (q' : MintQuote PublicKey) (m' : Mint lib)
      → get_mint_quote_state lib w id m ≡ (ok q', m')
      → (q : MintQuote PublicKey) × (get_mint_quote lib (w.io 0) id m.db ≡ ok q) × Refreshed q q' m'
  unfolding get_mint_quote_state
  get_mint_quote_state-Refreshed id q' m' h =
      let (q, e, h1) =
        continue-eq-ok (or_error quote_not_exist (get_mint_quote lib (w.io 0) id m.db)) m _ q' m'
          h in
      (q, or_error_ok _ _ q e, refresh-Refreshed q q' m' q.state refl h1)
