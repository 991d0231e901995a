-- ===== src/Mint/DoubleSpend.antt =====
-- A melt and a later swap that have an input in common.
use mathlib.Core.List.{map-append}
use gonuts.Prelude.{
  ◌≡◌, ◌≢◌, ap, ◌∙◌, inl, inr, String, true, false, List, ◌++◌, arith, contains, contains-append,
}
use gonuts.Prelude.Keys.{IsDisjoint, IsDisjoint-contains}
use gonuts.Errors.{ok}
use gonuts.Library.{Library}
use gonuts.Cashu.{Proof, BlindedMessage, BlindedSignature}
use gonuts.Nuts.States.{MeltState}
use gonuts.Storage.{DbProof, MeltQuote}
use gonuts.Storage.Proofs.{ys_of}
use gonuts.Mint.{Mint, World}
use gonuts.Mint.Proofs.{ys_of_proofs}
use gonuts.Mint.Swap.{swap}
use gonuts.Mint.Swap.Books.{swap-spends}
use gonuts.Mint.Melt.{melt_tokens}
use gonuts.Mint.Melt.Outcomes.{melt_tokens-settles}

-- A key of rows at the end of a table is in no list that is apart from the keys of the table.
apart-absurd :
    (y : String) (ys ys' : List String) (before rows table : List DbProof)
    → table ≡ before ++ rows
    → ys_of rows ≡ ys
    → contains y ys ≡ true
    → contains y ys' ≡ true
    → ¬ (IsDisjoint ys' (ys_of table))
apart-absurd y ys ys' before rows table e keys c c' apart =
    let keys_after : ys_of table ≡ ys_of before ++ ys =
      ap ys_of e ∙ map-append (λ r. r.y) before rows ∙ ap (λ ks. ys_of before ++ ks) keys in
    let free : contains y (ys_of table) ≡ false =
      IsDisjoint-contains y ys' (ys_of table) apart c' in
    ground (arith, contains-append y (ys_of before) ys, keys_after, free, c)

-- After a melt that answers a quote which is not UNPAID, so PAID or PENDING, no swap with an input
-- of the same Y as one of the inputs of the melt answers.
pub melt_tokens-blocks-swap :
    (lib : Library) (w w' : World lib) (m m' m'' : Mint lib) (id : String) (q : MeltQuote)
    (proofs proofs' : List Proof) (messages : List BlindedMessage) (sigs : List BlindedSignature)
    (y : String) (ys ys' : List String)
    → ys_of_proofs lib proofs ≡ ok ys
    → ys_of_proofs lib proofs' ≡ ok ys'
    → contains y ys ≡ true
    → contains y ys' ≡ true
    → melt_tokens lib w id proofs m ≡ (ok q, m')
    → q.state ≢ MeltState.unpaid
    → ¬ (swap lib w' proofs' messages m' ≡ (ok sigs, m''))
melt_tokens-blocks-swap lib w w' m m' m'' id q proofs proofs' messages sigs y ys ys' e e' c c'
      melted kept second =
    let (ys0, quote, accepted, ends) = melt_tokens-settles lib w m id proofs q m' melted in
    let (ys1, points, _, (held, spent), _, _) =
      swap-spends lib w' proofs' messages m' sigs m'' second in
    let same : ys0 ≡ ys = cc accepted.points in
    let same' : ys1 ≡ ys' = cc in
    let c0 : contains y ys0 ≡ true = rw same c in
    let c1 : contains y ys1 ≡ true = rw same' c' in
    elim ends [
      | inl (_, _, _, (rows, table, keys, _)) ↦
          absurd (apart-absurd y ys0 ys1 m.db.proofs rows m'.db.proofs table keys c0 c1 spent)
      | inr (inl (state, _)) ↦ absurd (kept state)
      | inr (inr (_, (rows, (table, _), keys))) ↦ absurd (
          apart-absurd y ys0 ys1 m.db.pending_proofs rows m'.db.pending_proofs table keys c0 c1
            held)
    ]
