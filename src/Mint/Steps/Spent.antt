-- ===== src/Mint/Steps/Spent.antt =====
-- What is spent stays spent, over any sequence of calls.
use gonuts.Prelude.{◌≡◌, true, String, List, arith, contains, contains-append}
use gonuts.Prelude.Keys.{IsDisjoint, IsDisjoint-contains}
use mathlib.Core.List.{map-append}
use gonuts.Errors.{ok}
use gonuts.Library.{Library}
use gonuts.Cashu.{Proof, BlindedMessage, BlindedSignature}
use gonuts.Storage.{Db, DbProof, MeltQuote}
use gonuts.Storage.Proofs.{ys_of}
use gonuts.Storage.Later.{Later}
use gonuts.Mint.{Mint, World}
use gonuts.Mint.Proofs.{ys_of_proofs}
use gonuts.Mint.Swap.{swap}
use gonuts.Mint.Swap.Books.{swap-spends}
use gonuts.Mint.Melt.{melt_tokens}
use gonuts.Mint.Melt.Outcomes.{melt_tokens-settles}
use gonuts.Mint.Steps.{Reaches, Reaches-Later}

still_spent :
    (y : String) (db db' : Db)
    → Later db db'
    → contains y (ys_of db.proofs) ≡ true
    → contains y (ys_of db'.proofs) ≡ true
still_spent y db db' l h =
    let (rows, e) = l.spent in
    rw (e, map-append (λ (r : DbProof). r.y) db.proofs rows)
      (ground (arith, contains-append y (ys_of db.proofs) (ys_of rows)))

module _ (lib : Library) (w : World lib) (proofs : List Proof) (m m' m'' : Mint lib) (y : String)
    (ys : List String) where
  not_unspent :
      (again : List String)
      → contains y (ys_of m.db.proofs) ≡ true
      → contains y again ≡ true
      → Reaches lib m m'
      → ¬ (IsDisjoint again (ys_of m'.db.proofs))
  not_unspent again spent c r apart =
      let old = still_spent y m.db m'.db (Reaches-Later lib r) spent in
      let new = IsDisjoint-contains y again (ys_of m'.db.proofs) apart c in cc

  -- Once the Y of a proof is among the spent ones, no swap and no melt with an input of that Y
  -- answers, after whatever sequence of calls, those that fail half-way included.
  pub Reaches-blocks-swap :
      (messages : List BlindedMessage) (sigs : List BlindedSignature) (id : String) (q : MeltQuote)
      → contains y (ys_of m.db.proofs) ≡ true
      → ys_of_proofs lib proofs ≡ ok ys
      → contains y ys ≡ true
      → Reaches lib m m'
      → ¬ (swap lib w proofs messages m' ≡ (ok sigs, m''))
        × ¬ (melt_tokens lib w id proofs m' ≡ (ok q, m''))
  Reaches-blocks-swap messages sigs id q spent points c r = (
    λ answered.
        let (again, have, _, (_, apart), _, _) =
          swap-spends lib w proofs messages m' sigs m'' answered in
        let same : again ≡ ys = cc in not_unspent again spent (rw same c) r apart,
    λ answered.
        let (again, quote, accepted, _) = melt_tokens-settles lib w m' id proofs q m'' answered in
        let same : again ≡ ys = cc accepted.points in
        not_unspent again spent (rw same c) r accepted.unspent.1,
  )
