-- ===== src/Mint/StateCheck/Answered.antt =====
-- What ProofsStateCheck answers, by the tables that it leaves.
use mathlib.Core.Path.{ap₂}
use mathlib.Core.List.{append_assoc}
use gonuts.Prelude.{
  ℕ, ◌≡◌, refl, sym, ap, ◌∙◌, String, Bool, true, false, Option, none, some, List, [], ◌∷◌, ◌++◌,
  map, arith, contains, contains-append, str_eq_iff, if◌then◌else◌, All,
}
use gonuts.Errors.{ok, ok_injective}
use gonuts.Library.{Library}
use gonuts.Nuts.States.{ProofStatus}
use gonuts.Storage.{Db, DbProof}
use gonuts.Storage.Proofs.{ys_of, select_ys, get_pending_proofs, get_proofs_used}
use gonuts.Mint.{Mint, World, ProofState, continue-eq-ok}
use gonuts.Mint.StateCheck.{
  row_of_y, state_by, proof_state_of, check_quotes, proofs_state_check, pending_quotes,
}
use gonuts.Mint.StateCheck.Asked.{Asked, check_quotes-Asked, pending_quotes-covers}

-- The state of a proof, by its Y in the tables.
abbrev pub status_in : Db → String → ProofStatus
status_in db y =
    if contains y (ys_of db.proofs)
    then ProofStatus.spent
    else if contains y (ys_of db.pending_proofs)
    then ProofStatus.pending
    else ProofStatus.unspent

-- Whether a value is there.
abbrev is_there : Option DbProof → Bool
is_there none = false
is_there (some row) = true

row_of_y-select_ys :
    (y : String) (ys : List String) (table : List DbProof)
    → contains y ys ≡ true
    → is_there (row_of_y y (select_ys ys table)) ≡ contains y (ys_of table)
unfolding row_of_y select_ys
row_of_y-select_ys y ys [] h = refl
row_of_y-select_ys y ys (row ∷ table) h =
    ground (arith, row_of_y-select_ys y ys table h, str_eq_iff row.y y)

abbrev status_by : Bool → Bool → ProofStatus
status_by used pending =
    if used then ProofStatus.spent else if pending then ProofStatus.pending else ProofStatus.unspent

state_by-status :
    (y : String) (used pending : Option DbProof)
    → (let s = state_by y used pending in
        (s.y ≡ y) × (s.state ≡ status_by (is_there used) (is_there pending)))
unfolding state_by
state_by-status y (some row) pending = (refl, refl)
state_by-status y none (some row) = (refl, refl)
state_by-status y none none = (refl, refl)

get_proofs_used_ok :
    (io : Bool) (ys : List String) (db : Db) (rows : List DbProof)
    → get_proofs_used io ys db ≡ ok rows
    → rows ≡ select_ys ys db.proofs
unfolding get_proofs_used
get_proofs_used_ok io [] db rows h = cc
get_proofs_used_ok true (y ∷ ys) db rows h = sym (ok_injective h)
get_proofs_used_ok false (y ∷ ys) db rows h = cc

get_pending_proofs_ok :
    (io : Bool) (ys : List String) (db : Db) (rows : List DbProof)
    → get_pending_proofs io ys db ≡ ok rows
    → rows ≡ select_ys ys db.pending_proofs
unfolding get_pending_proofs
get_pending_proofs_ok io [] db rows h = cc
get_pending_proofs_ok true (y ∷ ys) db rows h = sym (ok_injective h)
get_pending_proofs_ok false (y ∷ ys) db rows h = cc

-- The answers for the Ys, in their order.
abbrev pub AnswersFor : Db → List String → List ProofState → Type 0
AnswersFor db [] [] = Unit
AnswersFor db (y ∷ ys) (s ∷ states) =
    (s.y ≡ y) × (s.state ≡ status_in db y) × AnswersFor db ys states
AnswersFor db _ _ = ⊥

proof_state_of-status :
    (db : Db) (all : List String) (y : String)
    → contains y all ≡ true
    → (let s = proof_state_of (select_ys all db.proofs) (select_ys all db.pending_proofs) y in
        (s.y ≡ y) × (s.state ≡ status_in db y))
unfolding proof_state_of
proof_state_of-status db all y h =
    let (same, status) =
      state_by-status y (row_of_y y (select_ys all db.proofs))
        (row_of_y y (select_ys all db.pending_proofs)) in
    (
      same,
      status
          ∙ ap₂ status_by (row_of_y-select_ys y all db.proofs h)
              (row_of_y-select_ys y all db.pending_proofs h),
    )

answers_from :
    (db : Db) (all ys : List String)
    → All (λ y. contains y all ≡ true) ys
    → AnswersFor db ys
        (map (proof_state_of (select_ys all db.proofs) (select_ys all db.pending_proofs)) ys)
answers_from db all [] h = tt
answers_from db all (y ∷ ys) h =
    let (same, status) = proof_state_of-status db all y h.0 in
    (same, status, answers_from db all ys h.1)

contains_own : (more ys : List String) → All (λ y. contains y (more ++ ys) ≡ true) ys
contains_own more [] = tt
contains_own more (y ∷ ys) = (
  ground (arith, contains-append y more (y ∷ ys), str_eq_iff y y),
  rw (append_assoc more (y ∷ []) ys) at (contains_own (more ++ y ∷ []) ys),
)

answered_in :
    (lib : Library) (m m' : Mint lib) (ys : List String) (used pending : List DbProof)
    (states : List ProofState)
    → used ≡ select_ys ys m.db.proofs
    → pending ≡ select_ys ys m.db.pending_proofs
    → m ≡ m'
    → map (proof_state_of used pending) ys ≡ states
    → AnswersFor m.db ys
        (map (proof_state_of (select_ys ys m.db.proofs) (select_ys ys m.db.pending_proofs)) ys)
    → AnswersFor m'.db ys states
answered_in lib m m' ys used pending states u p e s found = rw (← e, ← s, u, p) found

module _ (lib : Library) (w : World lib) (ws : ℕ → World lib)
    (order : List String → List String) where
  -- Where ProofsStateCheck answers, it has asked for the state of a list of melt quotes, by
  -- GetMeltQuoteState, which answered for each, and nothing else has changed the mint; the quote of
  -- each pending proof of the Ys is on the list before it is ordered. Its answers are states for the
  -- Ys, in their order, and each is SPENT, PENDING or UNSPENT as the Y stands in the tables that the
  -- call leaves.
  pub proofs_state_check-AnswersFor :
      (ys : List String) (m m' : Mint lib) (states : List ProofState)
      → proofs_state_check lib w ws order ys m ≡ (ok states, m')
      → (ids : List String) × All
          (λ (row : DbProof). contains row.melt_quote_id ids ≡ true)
          (select_ys ys m.db.pending_proofs)
        × Asked lib ws 0 (order ids) m m'
        × AnswersFor m'.db ys states
  unfolding proofs_state_check
  proofs_state_check-AnswersFor ys m m' states h =
      let (before, e1, h1) = continue-eq-ok (get_pending_proofs (w.io 0) ys m.db) m _ states m' h in
      let calls = check_quotes lib ws 0 (order (pending_quotes [] before)) m in
      let (_, e2, h2) = continue-eq-ok calls.0 calls.1 _ states m' h1 in
      let (pending, e3, h3) =
        continue-eq-ok (get_pending_proofs (w.io 1) ys calls.1.db) calls.1 _ states m' h2 in
      let (used, e4, h4) =
        continue-eq-ok (get_proofs_used (w.io 2) ys calls.1.db) calls.1 _ states m' h3 in
      let left : calls.1 ≡ m' = ap (λ r. r.1) h4 in
      let answered : map (proof_state_of used pending) ys ≡ states =
        ok_injective (ap (λ r. r.0) h4) in
      let found = answers_from calls.1.db ys ys (contains_own [] ys) in
      (
        pending_quotes [] before,
        rw (← get_pending_proofs_ok (w.io 0) ys m.db before e1) (pending_quotes-covers [] before),
        check_quotes-Asked lib ws 0 (order (pending_quotes [] before)) m m'
            (ap₂ (λ r n. (r, n)) e2 left),
        answered_in lib calls.1 m' ys used pending states
            (get_proofs_used_ok (w.io 2) ys calls.1.db used e4)
            (get_pending_proofs_ok (w.io 1) ys calls.1.db pending e3) left answered found,
      )
