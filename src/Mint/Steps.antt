-- ===== src/Mint/Steps.antt =====
-- The mint over time: any sequence of calls of its handlers, with any arguments and any answers of the
-- world, each from its start to its end, and also where it fails.
pub mod Spent
use gonuts.Prelude.{
  ℕ, ◌≡◌, ◌∙◌, refl, true, false, ap, String, Option, List, ◌++◌, arith, contains, contains-append,
}
use gonuts.Prelude.Keys.{IsDisjoint-contains}
use mathlib.Core.List.{map-append}
use gonuts.Errors.{ok}
use gonuts.Library.{Library}
use gonuts.Cashu.{Proof, BlindedMessage, BlindedSignature}
use gonuts.Storage.{Db, DbProof, SignatureRow}
use gonuts.Storage.Proofs.{ys_of}
use gonuts.Storage.Later.{IsSound, Later, Later-refl, Later-trans}
use gonuts.Mint.{Mint, World}
use gonuts.Mint.Proofs.{ys_of_proofs}
use gonuts.Mint.Swap.{swap}
use gonuts.Mint.Swap.Books.{swap-spends}
use gonuts.Mint.Swap.Kept.{swap-Keeps}
use gonuts.Mint.MintTokens.{request_mint_quote, get_mint_quote_state, mint_tokens}
use gonuts.Mint.MintTokens.Kept.{
  request_mint_quote-Keeps, get_mint_quote_state-Keeps, mint_tokens-Keeps,
}
use gonuts.Mint.Melt.{get_melt_quote_state, melt_tokens}
use gonuts.Mint.Melt.Request.{request_melt_quote}
use gonuts.Mint.Melt.Kept.{request_melt_quote-Keeps, get_melt_quote_state-Keeps, melt_tokens-Keeps}
use gonuts.Mint.StateCheck.{proofs_state_check}
use gonuts.Mint.StateCheck.Kept.{proofs_state_check-Keeps}

module _ (lib : Library) where
  -- One call of a handler.
  pub data Step : Mint lib → Mint lib → Type 0 where
    swapping :
        (w : World lib) (proofs : List Proof) (messages : List BlindedMessage) (m : Mint lib)
        → Step m (swap lib w proofs messages m).1
    quoting :
        (w : World lib) (amount : ℕ) (unit pubkey : String) (m : Mint lib)
        → Step m (request_mint_quote lib w amount unit pubkey m).1
    asking_mint :
        (w : World lib) (id : String) (m : Mint lib) → Step m (get_mint_quote_state lib w id m).1
    minting :
        (w : World lib) (id : String) (messages : List BlindedMessage) (sig : String) (m : Mint lib)
        → Step m (mint_tokens lib w id messages sig m).1
    quoting_melt :
        (w : World lib) (request unit : String) (mpp : Option ℕ) (m : Mint lib)
        → Step m (request_melt_quote lib w request unit mpp m).1
    asking_melt :
        (w : World lib) (id : String) (m : Mint lib) → Step m (get_melt_quote_state lib w id m).1
    melting :
        (w : World lib) (id : String) (proofs : List Proof) (m : Mint lib)
        → Step m (melt_tokens lib w id proofs m).1
    checking :
        (w : World lib) (ws : ℕ → World lib) (order : List String → List String) (ys : List String)
        (m : Mint lib)
        → Step m (proofs_state_check lib w ws order ys m).1

  -- Any number of calls.
  pub data Reaches (m : Mint lib) : Mint lib → Type 0 where
    here : Reaches m m
    next : {m₁ m₂ : Mint lib} → Reaches m m₁ → Step m₁ m₂ → Reaches m m₂

  Step-Later : {m m' : Mint lib} → Step m m' → Later m.db m'.db
  Step-Later (swapping w proofs messages m) = (swap-Keeps lib w proofs messages).moves m
  Step-Later (quoting w amount unit pubkey m) =
      (request_mint_quote-Keeps lib w amount unit pubkey).moves m
  Step-Later (asking_mint w id m) = (get_mint_quote_state-Keeps lib w id).moves m
  Step-Later (minting w id messages sig m) = (mint_tokens-Keeps lib w id messages sig).moves m
  Step-Later (quoting_melt w request unit mpp m) =
      (request_melt_quote-Keeps lib w request unit mpp).moves m
  Step-Later (asking_melt w id m) = (get_melt_quote_state-Keeps lib w id).moves m
  Step-Later (melting w id proofs m) = (melt_tokens-Keeps lib w id proofs).moves m
  Step-Later (checking w ws order ys m) = (proofs_state_check-Keeps lib w ws order ys).moves m

  pub Reaches-Later : {m m' : Mint lib} → Reaches m m' → Later m.db m'.db
  Reaches-Later {m} here = Later-refl m.db
  Reaches-Later (next r s) = Later-trans (Reaches-Later r) (Step-Later s)

  -- Whatever sequence of calls the mint answers or refuses, from a database in which no Y stands twice
  -- among the spent proofs or among the pending ones and no `B_` twice among the signatures: the same
  -- holds of the database that it leaves, and the spent proofs and the signatures of the first are the
  -- beginning of those of the last.
  pub Reaches-IsSound :
      (m m' : Mint lib)
      → IsSound m.db
      → Reaches m m'
      → IsSound m'.db
        × ((rows : List DbProof) × (m'.db.proofs ≡ m.db.proofs ++ rows))
        × ((rows : List SignatureRow) × (m'.db.blind_signatures ≡ m.db.blind_signatures ++ rows))
  Reaches-IsSound m m' s r = let l = Reaches-Later r in (l.sound s, l.spent, l.signed)
