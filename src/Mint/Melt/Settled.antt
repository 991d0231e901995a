-- ===== src/Mint/Melt/Settled.antt =====
-- What the last steps of `MeltTokens` do to the tables of proofs: `settleProofs`, and the update of
-- the quote on every outcome of the payment.
use mathlib.Core.Path.{subst}
use gonuts.Prelude.{
  ◌/◌, ◌≡◌, refl, sym, ap, ◌∙◌, ◌⊎◌, inl, inr, String, Bool, true, false, Option, none, some, List,
  [], ◌∷◌, ◌++◌, map, IsDistinct,
}
use gonuts.Errors.{Result, ok, err, panic, ok_injective, lightning_backend_error}
use gonuts.Library.{Library}
use gonuts.Cashu.{Proof, proof_amounts}
use gonuts.Crypto.HashToCurve.{y_of}
use gonuts.Nuts.States.{MintState, MeltState}
use gonuts.Storage.{Db, DbProof, MintQuote, MeltQuote}
use gonuts.Storage.Proofs.{ys_of, delete_ys, remove_pending_proofs, save_proofs}
use gonuts.Storage.Proofs.Laws.{save_proofs-Saved}
use gonuts.Storage.MeltQuotes.{update_melt_quote}
use gonuts.Storage.MintQuotes.{update_mint_quote_state}
use gonuts.Mint.{
  Mint, World, Outgoing, PaymentStatus, PaymentState, continue-eq-ok, require, full, partial,
}
use gonuts.Mint.Proofs.{ys_of_proofs}
use gonuts.Mint.Proofs.Checked.{ys_of_proofs-RowsFor}
use gonuts.Mint.States.{publish_spent_ok}
use gonuts.Mint.Melt.{
  settle_proofs, paid, unpaid, checked_outcome, check_failed, payment_outcome, after_payment,
  pay_by, pay, melt_with, settle_quotes_internally, melt_internally, melt_pending,
}

-- The state keeps the tables of proofs.
abbrev pub SameProofs : Db → Db → Type 0
SameProofs db db' = (db'.pending_proofs ≡ db.pending_proofs) × (db'.proofs ≡ db.proofs)

pub update_melt_quote-tables :
    (io : Bool) (id preimage : String) (s : MeltState) (db : Db)
    → SameProofs db (update_melt_quote io id preimage s db).1
unfolding update_melt_quote
update_melt_quote-tables false id preimage s db = (refl, refl)
update_melt_quote-tables true id preimage s db = (refl, refl)

update_mint_quote-tables :
    (io : Bool) (id : String) (s : MintState) (db : Db)
    → SameProofs db (update_mint_quote_state io id s db).1
unfolding update_mint_quote_state
update_mint_quote-tables false id s db = (refl, refl)
update_mint_quote-tables true id s db = (refl, refl)

remove_pending_proofs_ok :
    (io : Bool) (ys : List String) (db : Db)
    → (remove_pending_proofs io ys db).0 ≡ ok tt
    → (remove_pending_proofs io ys db).1
      ≡ record db { pending_proofs = delete_ys ys db.pending_proofs }
unfolding remove_pending_proofs
remove_pending_proofs_ok false ys db h = cc
remove_pending_proofs_ok true ys db h = refl

module _ (lib : Library) (w : World lib) (ys : List String) (proofs : List Proof) where
  open lib use {PublicKey}

  -- The inputs are spent: off the table of pending proofs, and on that of spent ones.
  abbrev pub Spent : Db → Db → Type 0
  Spent db db' =
      (db'.pending_proofs ≡ delete_ys ys db.pending_proofs)
      × ((rows : List DbProof) × (db'.proofs ≡ db.proofs ++ rows)
          × (ys_of rows ≡ ys)
          × (map (λ r. r.amount) rows ≡ proof_amounts proofs)
          × IsDistinct ys)

  -- The inputs are free again.
  abbrev pub Released : Db → Db → Type 0
  Released db db' = (db'.pending_proofs ≡ delete_ys ys db.pending_proofs) × (db'.proofs ≡ db.proofs)

  settle_proofs-Spent :
      (m m' : Mint lib)
      → ys_of_proofs lib proofs ≡ ok ys
      → settle_proofs lib w ys proofs m ≡ (ok tt, m')
      → Spent m.db m'.db
  unfolding settle_proofs
  settle_proofs-Spent m m' points h =
      let (_, e1, h1) = continue-eq-ok (remove_pending_proofs (w.io 8) ys m.db).0 _ _ tt m' h in
      let removed = remove_pending_proofs_ok (w.io 8) ys m.db e1 in
      let db1 : Db = (remove_pending_proofs (w.io 8) ys m.db).1 in
      let (_, e2, h2) =
        continue-eq-ok (save_proofs (y_of lib) (w.io 9) proofs db1).0 _ _ tt m' h1 in
      let (rows, stored, keys, amounts) = ys_of_proofs-RowsFor lib "" proofs ys points in
      let m2 : Mint lib = record m { db = (save_proofs (y_of lib) (w.io 9) proofs db1).1 } in
      let (states, published) = publish_spent_ok lib proofs ys m2 points in
      let left : m2.db ≡ m'.db = ap (λ r. r.1.db) (sym published ∙ h2) in
      elim (save_proofs-Saved (y_of lib) rows db1 (w.io 9) proofs stored) [
        | inr failed ↦ cc
        | inl (saved, distinct, _) ↦
            subst (Spent m.db)
              (ap (λ (db1 : Db). record db1 { proofs = db1.proofs ++ rows }) (sym removed)
                ∙ sym (ap (λ r. r.1) saved)
                ∙ left)
              (refl, (rows, refl, keys, amounts, subst IsDistinct keys distinct))
      ]

  -- The state of the answer says what became of the inputs.
  abbrev pub Outcome : Db → MeltQuote → Db → Type 0
  Outcome db q db' =
      ((q.state ≡ MeltState.paid) × Spent db db')
      ⊎ (((q.state ≡ MeltState.unpaid) × Released db db')
          ⊎ ((q.state ≡ MeltState.pending) × SameProofs db db'))

  Spent-same : (db db1 db2 : Db) → Spent db db1 → SameProofs db1 db2 → Spent db db2
  Spent-same db db1 db2 (pending, (rows, spent, keys, amounts, distinct)) (e, e') =
      (e ∙ pending, (rows, e' ∙ spent, keys, amounts, distinct))

  same-Spent : (db db1 db2 : Db) → SameProofs db db1 → Spent db1 db2 → Spent db db2
  same-Spent db db1 db2 (e, e') (pending, (rows, spent, keys, amounts, distinct)) = (
    pending ∙ ap (delete_ys ys) e,
    (rows, spent ∙ ap (λ t. t ++ rows) e', keys, amounts, distinct),
  )

  module _ (points : ys_of_proofs lib proofs ≡ ok ys) (q : MeltQuote)
      (is_pending : q.state ≡ MeltState.pending) where
    paid-Outcome :
        (m m' : Mint lib) (q' : MeltQuote) (preimage : String)
        → paid lib w ys proofs q preimage m ≡ (ok q', m')
        → Outcome m.db q' m'.db
    unfolding paid
    paid-Outcome m m' q' preimage h =
        let settled = settle_proofs lib w ys proofs m in
        let (_, e1, h1) = continue-eq-ok settled.0 settled.1 _ q' m' h in
        let spent = settle_proofs-Spent m settled.1 points (ap (λ r. (r, settled.1)) e1) in
        let (_, e2, h2) =
          continue-eq-ok (update_melt_quote (w.io 10) q.id preimage MeltState.paid settled.1.db).0 _
            _ q' m' h1 in
        let same =
          subst (SameProofs settled.1.db) (ap (λ r. r.1.db) h2)
            (update_melt_quote-tables (w.io 10) q.id preimage MeltState.paid settled.1.db) in
        inl (
          ap (λ q. q.state) (sym (ok_injective (ap (λ r. r.0) h2))),
          Spent-same m.db settled.1.db m'.db spent same,
        )

    unpaid-Outcome :
        (m m' : Mint lib) (q' : MeltQuote)
        → unpaid lib w ys q m ≡ (ok q', m')
        → Outcome m.db q' m'.db
    unfolding unpaid
    unpaid-Outcome m m' q' h =
        let (_, e1, h1) =
          continue-eq-ok (update_melt_quote (w.io 8) q.id "" MeltState.unpaid m.db).0 _ _ q' m' h in
        let db1 : Db = (update_melt_quote (w.io 8) q.id "" MeltState.unpaid m.db).1 in
        let (pending, spent) = update_melt_quote-tables (w.io 8) q.id "" MeltState.unpaid m.db in
        let (_, e2, h2) = continue-eq-ok (remove_pending_proofs (w.io 9) ys db1).0 _ _ q' m' h1 in
        let left : (remove_pending_proofs (w.io 9) ys db1).1 ≡ m'.db = ap (λ r. r.1.db) h2 in
        inr (
          inl (
            ap (λ q. q.state) (sym (ok_injective (ap (λ r. r.0) h2))),
            subst (Released m.db) (sym (remove_pending_proofs_ok (w.io 9) ys db1 e2) ∙ left)
                (ap (delete_ys ys) pending, spent),
          ))

    abbrev answered : MeltQuote → Mint lib → Result MeltQuote × Mint lib
    answered q m = (ok q, m)

    stays-Outcome :
        (m m' : Mint lib) (q' : MeltQuote) → answered q m ≡ answered q' m' → Outcome m.db q' m'.db
    stays-Outcome m m' q' h = inr (
        inr (
          ap (λ q. q.state) (sym (ok_injective (ap (λ r. r.0) h))) ∙ is_pending,
          subst (SameProofs m.db) (ap (λ r. r.1.db) h) (refl, refl),
        ))

    checked-Outcome :
        (m m' : Mint lib) (q' : MeltQuote) (status : PaymentStatus) (s : PaymentState)
        → checked_outcome lib w ys proofs q status s m ≡ (ok q', m')
        → Outcome m.db q' m'.db
    unfolding checked_outcome
    checked-Outcome m m' q' status PaymentState.failed h = unpaid-Outcome m m' q' h
    checked-Outcome m m' q' status PaymentState.succeeded h = paid-Outcome m m' q' status.preimage h
    checked-Outcome m m' q' status PaymentState.pending h = stays-Outcome m m' q' h

    check_failed-Outcome :
        (m m' : Mint lib) (q' : MeltQuote) (o : Outgoing)
        → check_failed lib w ys proofs q o m ≡ (ok q', m')
        → Outcome m.db q' m'.db
    unfolding check_failed
    check_failed-Outcome m m' q' Outgoing.not_found h = unpaid-Outcome m m' q' h
    check_failed-Outcome m m' q' Outgoing.other_error h = stays-Outcome m m' q' h
    check_failed-Outcome m m' q' (Outgoing.found status) h =
        checked-Outcome m m' q' status status.payment_status h

    payment-Outcome :
        (m m' : Mint lib) (q' : MeltQuote) (status : PaymentStatus) (s : PaymentState)
        → payment_outcome lib w ys proofs q status s m ≡ (ok q', m')
        → Outcome m.db q' m'.db
    unfolding payment_outcome
    payment-Outcome m m' q' status PaymentState.succeeded h = paid-Outcome m m' q' status.preimage h
    payment-Outcome m m' q' status PaymentState.pending h = stays-Outcome m m' q' h
    payment-Outcome m m' q' status PaymentState.failed h =
        check_failed-Outcome m m' q' (w.outgoing_payment_status q.payment_hash) h

    after_payment-Outcome :
        (m m' : Mint lib) (q' : MeltQuote) (answer : Option PaymentStatus)
        → after_payment lib w ys proofs q answer m ≡ (ok q', m')
        → Outcome m.db q' m'.db
    unfolding after_payment
    after_payment-Outcome m m' q' none h =
        check_failed-Outcome m m' q' (w.outgoing_payment_status q.payment_hash) h
    after_payment-Outcome m m' q' (some status) h =
        payment-Outcome m m' q' status status.payment_status h

    pay_by-Outcome :
        (m m' : Mint lib) (q' : MeltQuote) (is_mpp : Bool)
        → pay_by lib w ys proofs q is_mpp m ≡ (ok q', m')
        → Outcome m.db q' m'.db
    unfolding pay_by
    pay_by-Outcome m m' q' true h =
        after_payment-Outcome
          (record m {
            payments =
                m.payments
                ++ partial q.invoice_request q.amount_msat (w.fee_reserve (q.amount_msat / 1000))
                  ∷ [];
          })
          m' q' _ h
    pay_by-Outcome m m' q' false h =
        after_payment-Outcome
          (record m { payments = m.payments ++ full q.invoice_request q.amount ∷ [] }) m' q' _ h

    settle_quotes_internally-same :
        (m m' : Mint lib) (q' : MeltQuote) (mint_quote : MintQuote PublicKey)
        → settle_quotes_internally lib w mint_quote q m ≡ (ok q', m')
        → (q'.state ≡ MeltState.paid) × SameProofs m.db m'.db
    unfolding settle_quotes_internally
    settle_quotes_internally-same m m' q' mint_quote h =
        let (invoice, e1, h1) =
          continue-eq-ok
            (require lightning_backend_error (w.invoice_status mint_quote.payment_hash)) m _ q' m'
            h in
        let (_, e2, h2) =
          continue-eq-ok (update_melt_quote (w.io 6) q.id invoice.preimage MeltState.paid m.db).0 _
            _ q' m' h1 in
        let db1 : Db = (update_melt_quote (w.io 6) q.id invoice.preimage MeltState.paid m.db).1 in
        let (_, e3, h3) =
          continue-eq-ok (update_mint_quote_state (w.io 7) mint_quote.id MintState.paid db1).0 _ _
            q' m' h2 in
        let (pending, spent) =
          update_melt_quote-tables (w.io 6) q.id invoice.preimage MeltState.paid m.db in
        let (pending', spent') =
          update_mint_quote-tables (w.io 7) mint_quote.id MintState.paid db1 in
        (
          ap (λ q. q.state) (sym (ok_injective (ap (λ r. r.0) h3))),
          subst (SameProofs m.db) (ap (λ r. r.1.db) h3) (pending' ∙ pending, spent' ∙ spent),
        )

    melt_internally-Outcome :
        (m m' : Mint lib) (q' : MeltQuote) (mint_quote : MintQuote PublicKey)
        → melt_internally lib w ys proofs q mint_quote m ≡ (ok q', m')
        → (q'.state ≡ MeltState.paid) × Spent m.db m'.db
    unfolding melt_internally
    melt_internally-Outcome m m' q' mint_quote h =
        let quotes = settle_quotes_internally lib w mint_quote q m in
        let (q1, e1, h1) = continue-eq-ok quotes.0 quotes.1 _ q' m' h in
        let (state, kept) =
          settle_quotes_internally-same m quotes.1 q1 mint_quote (ap (λ r. (r, quotes.1)) e1) in
        let settled = settle_proofs lib w ys proofs quotes.1 in
        let (_, e2, h2) = continue-eq-ok settled.0 settled.1 _ q' m' h1 in
        let spent = settle_proofs-Spent quotes.1 settled.1 points (ap (λ r. (r, settled.1)) e2) in
        (
          ap (λ q. q.state) (sym (ok_injective (ap (λ r. r.0) h2))) ∙ state,
          subst (Spent m.db) (ap (λ r. r.1.db) h2)
              (same-Spent m.db quotes.1.db settled.1.db kept spent),
        )

    melt_with-Outcome :
        (m m' : Mint lib) (q' : MeltQuote) (answer : Result (MintQuote PublicKey))
        → melt_with lib w ys proofs q answer m ≡ (ok q', m')
        → Outcome m.db q' m'.db
    unfolding melt_with pay
    melt_with-Outcome m m' q' (ok mint_quote) h = inl (melt_internally-Outcome m m' q' mint_quote h)
    melt_with-Outcome m m' q' (err e) h = pay_by-Outcome m m' q' q.is_mpp h
    melt_with-Outcome m m' q' panic h = cc

    pub melt_pending-Outcome :
        (m m' : Mint lib) (q' : MeltQuote)
        → melt_pending lib w ys proofs q m ≡ (ok q', m')
        → Outcome m.db q' m'.db
    unfolding melt_pending
    melt_pending-Outcome m m' q' h = melt_with-Outcome m m' q' _ h
