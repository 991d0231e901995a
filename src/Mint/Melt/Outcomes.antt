-- ===== src/Mint/Melt/Outcomes.antt =====
-- What has happened when `MeltTokens` answers a quote.
use mathlib.Core.Path.{subst}
use gonuts.Prelude.{
  ℕ, ◌≤◌, ◌≡◌, refl, sym, ap, ◌∙◌, ◌⊎◌, inl, inr, String, List, ◌++◌, map, arith, ltb, IsDistinct,
}
use gonuts.Prelude.Keys.{IsDisjoint}
use gonuts.Errors.{
  Error, Result, ok, err, panic, >>=-eq-ok, ok_injective, return_if, quote_not_exist,
  insufficient_proofs_amount, sig_all_only_swap,
}
use gonuts.Library.{Library}
use gonuts.Cashu.{Proof, proofs_amount, proof_amounts}
use gonuts.Crypto.HashToCurve.{y_of}
use gonuts.Nuts.Conditions.{proofs_sig_all}
use gonuts.Nuts.States.{MeltState}
use gonuts.Storage.{Db, DbProof, MeltQuote}
use gonuts.Storage.Proofs.{ys_of, delete_ys, add_pending_proofs}
use gonuts.Storage.Proofs.Released.{delete_ys-appended, add_pending_proofs_ok}
use gonuts.Storage.MeltQuotes.{get_melt_quote, update_melt_quote}
use gonuts.Mint.{Mint, World, continue-eq-ok, or_error}
use gonuts.Mint.Proofs.{ys_of_proofs, transaction_fees, verify_proofs, verify_each}
use gonuts.Mint.Proofs.Checked.{Unspent, verify_proofs-Unspent, ys_of_proofs-RowsFor}
use gonuts.Mint.Melt.{melt_tokens}
use gonuts.Mint.Melt.Check.{check_melt, check_open, amount_needed}
use gonuts.Mint.Melt.Settled.{SameProofs, Outcome, melt_pending-Outcome, update_melt_quote-tables}

enough_lem :
    (e : Error) (total needed : ℕ) → return_if (ltb total needed) e ≡ ok tt → needed ≤ total
enough_lem e total needed h = ground arith

or_error_ok {ℓ} : {A : Type ℓ} (e : Error) (r : Result A) (a : A) → or_error e r ≡ ok a → r ≡ ok a
or_error_ok e (ok b) a h = h
or_error_ok e (err e') a h = cc
or_error_ok e panic a h = cc

module _ (lib : Library) (w : World lib) (m : Mint lib) (id : String) (proofs : List Proof) where
  -- What the checks of a melt establish.
  pub record Accepted (ys : List String) (quote : MeltQuote) : Type 0 where
    pub points : ys_of_proofs lib proofs ≡ ok ys
    pub found : get_melt_quote (w.io 2) id m.db ≡ ok quote
    pub open_ : check_open quote.state ≡ ok tt
    pub unspent : Unspent lib m.db ys
    pub verified : verify_each lib w m proofs ≡ ok tt
    pub covered : amount_needed quote (transaction_fees m proofs) ≤ proofs_amount proofs

  check_melt-Accepted :
      (answer : List String × MeltQuote)
      → check_melt lib w id proofs m ≡ ok answer
      → Accepted answer.0 answer.1
  unfolding check_melt
  check_melt-Accepted answer h =
      let (ys, e1, h1) = >>=-eq-ok (ys_of_proofs lib proofs) _ h in
      let (quote, e2, h2) =
        >>=-eq-ok (or_error quote_not_exist (get_melt_quote (w.io 2) id m.db)) _ h1 in
      let (_, e3, h3) = >>=-eq-ok (check_open quote.state) _ h2 in
      let (_, e4, h4) = >>=-eq-ok (verify_proofs lib w m proofs ys) _ h3 in
      let (_, e5, h5) =
        >>=-eq-ok
          (return_if (ltb (proofs_amount proofs) (amount_needed quote (transaction_fees m proofs)))
            insufficient_proofs_amount)
          _ h4 in
      let (_, e6, h6) = >>=-eq-ok (return_if (proofs_sig_all lib proofs) sig_all_only_swap) _ h5 in
      let (unspent, verified) = verify_proofs-Unspent lib w m proofs ys e4 in
      subst (λ answer. Accepted answer.0 answer.1) (ok_injective h6)
        (record {
          points = e1;
          found = or_error_ok _ _ quote e2;
          open_ = e3;
          unspent = unspent;
          verified = verified;
          covered = enough_lem _ _ _ e5;
        })

  -- The inputs while the backend pays.
  abbrev pub Held : List DbProof → Db → Type 0
  Held rows db = (db.pending_proofs ≡ m.db.pending_proofs ++ rows) × (db.proofs ≡ m.db.proofs)

  released :
      (ys : List String) (rows : List DbProof) (db : Db)
      → IsDisjoint ys (ys_of m.db.pending_proofs)
      → ys_of rows ≡ ys
      → db.pending_proofs ≡ m.db.pending_proofs ++ rows
      → delete_ys ys db.pending_proofs ≡ m.db.pending_proofs
  released ys rows db free keys held =
      ap (delete_ys ys) held
      ∙ ap (λ ys. delete_ys ys (m.db.pending_proofs ++ rows)) (sym keys)
      ∙ delete_ys-appended m.db.pending_proofs rows
          (subst (λ ys. IsDisjoint ys (ys_of m.db.pending_proofs)) (sym keys) free)

  -- The table of pending proofs and that of spent ones, by the state that is answered.
  abbrev pub Ends : List String → MeltQuote → Db → Type 0
  Ends ys q' db' =
      ((q'.state ≡ MeltState.paid)
        × (db'.pending_proofs ≡ m.db.pending_proofs)
        × IsDistinct ys
        × ((rows : List DbProof) × (db'.proofs ≡ m.db.proofs ++ rows)
            × (ys_of rows ≡ ys)
            × (map (λ r. r.amount) rows ≡ proof_amounts proofs)))
      ⊎ (((q'.state ≡ MeltState.unpaid) × SameProofs m.db db')
          ⊎ ((q'.state ≡ MeltState.pending)
              × ((rows : List DbProof) × Held rows db' × (ys_of rows ≡ ys))))

  ends_lem :
      (ys : List String) (rows : List DbProof) (q' : MeltQuote) (db db' : Db)
      → Unspent lib m.db ys
      → ys_of rows ≡ ys
      → Held rows db
      → Outcome lib w ys proofs db q' db'
      → Ends ys q' db'
  ends_lem ys rows q' db db' (free, _) keys (held, spent)
        (inl (state, (pending, (srows, e, skeys, amounts, distinct)))) =
      inl (
        state,
        pending ∙ released ys rows db free keys held,
        distinct,
        (srows, e ∙ ap (λ t. t ++ srows) spent, skeys, amounts),
      )
  ends_lem ys rows q' db db' (free, _) keys (held, spent) (inr (inl (state, (pending, same)))) =
      inr (inl (state, (pending ∙ released ys rows db free keys held, same ∙ spent)))
  ends_lem ys rows q' db db' unspent keys (held, spent) (inr (inr (state, (pending, same)))) =
      inr (inr (state, (rows, (pending ∙ held, same ∙ spent), keys)))

  -- Where MeltTokens answers a quote: the inputs were verified, neither pending nor spent, and cover
  -- the amount of the stored quote, its fee reserve and the fee of the inputs, as the 64-bit sum;
  -- the quote was neither paid nor pending; and by the state of the answer, a PAID quote has its
  -- inputs, all distinct, appended to the spent proofs and no longer pending, an UNPAID one leaves both
  -- tables of proofs as they were, and a PENDING one has its inputs appended to the pending proofs.
  pub melt_tokens-settles :
      (q' : MeltQuote) (m' : Mint lib)
      → melt_tokens lib w id proofs m ≡ (ok q', m')
      → (ys : List String) × (quote : MeltQuote) × Accepted ys quote × Ends ys q' m'.db
  unfolding melt_tokens
  melt_tokens-settles q' m' h =
      let ((ys, quote), e1, h1) = continue-eq-ok (check_melt lib w id proofs m) m _ q' m' h in
      let c = check_melt-Accepted (ys, quote) e1 in
      let (rows, stored, keys, amounts) = ys_of_proofs-RowsFor lib quote.id proofs ys c.points in
      let (_, e2, h2) =
        continue-eq-ok (add_pending_proofs (y_of lib) (w.io 3) proofs quote.id m.db).0 _ _ q' m'
          h1 in
      let db1 : Db = (add_pending_proofs (y_of lib) (w.io 3) proofs quote.id m.db).1 in
      let added = add_pending_proofs_ok (y_of lib) rows m.db (w.io 3) proofs quote.id stored e2 in
      let (_, e3, h3) =
        continue-eq-ok (update_melt_quote (w.io 4) quote.id "" MeltState.pending db1).0 _ _ q' m'
          h2 in
      let db2 : Db = (update_melt_quote (w.io 4) quote.id "" MeltState.pending db1).1 in
      let (pending, spent) = update_melt_quote-tables (w.io 4) quote.id "" MeltState.pending db1 in
      let held : Held rows db2 = (
        pending ∙ ap (λ (db : Db). db.pending_proofs) added,
        spent ∙ ap (λ (db : Db). db.proofs) added,
      ) in
      (
        ys,
        quote,
        c,
        ends_lem ys rows q' db2 m'.db c.unspent keys held (
            melt_pending-Outcome lib w ys proofs c.points
              (record quote { state = MeltState.pending }) refl (record m { db = db2 }) m' q' h3),
      )
