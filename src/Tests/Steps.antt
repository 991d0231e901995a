-- ===== src/Tests/Steps.antt =====
-- The theorems about sequences of calls, from an empty mint and from one that has answered a swap.
use gonuts.Prelude.{◌≡◌, ◌++◌, refl, false, List, [], ◌∷◌}
use gonuts.Errors.{ok}
use gonuts.Storage.{DbProof, SignatureRow, MeltQuote, empty_db}
use gonuts.Storage.Later.{IsSound}
use gonuts.Nuts.States.{MeltState}
use gonuts.Mint.{Mint}
use gonuts.Mint.Swap.{swap}
use gonuts.Mint.MintTokens.{mint_tokens}
use gonuts.Mint.Melt.{melt_tokens}
use gonuts.Mint.Steps.{Reaches, here, next, swapping, minting, Reaches-IsSound}
use gonuts.Mint.Steps.Spent.{Reaches-blocks-swap}
use gonuts.Tests.Values.{toy, working, mint_with, fresh, output, outputs}
use gonuts.Tests.Runs.{coins, swapped, runs}

-- a swap, and then an attempt to mint on a quote that does not exist
abbrev later : Mint toy
later = (mint_tokens toy working "quote" outputs "" swapped.1).1

abbrev calls : Reaches toy fresh later
calls =
    next (next here (swapping working coins outputs fresh))
      (minting working "quote" outputs "" swapped.1)

Reaches-IsSound_example :
    IsSound later.db
    × ((rows : List DbProof) × (later.db.proofs ≡ fresh.db.proofs ++ rows))
    × ((rows : List SignatureRow) × (later.db.blind_signatures ≡ fresh.db.blind_signatures ++ rows))
Reaches-IsSound_example =
    Reaches-IsSound toy fresh later
      (record { spent_distinct = tt; pending_distinct = tt; signed_distinct = tt }) calls

abbrev some_quote : MeltQuote
some_quote = record {
  id = "melt";
  invoice_request = "lnbc2";
  payment_hash = "other";
  amount = 2;
  fee_reserve = 1;
  state = MeltState.paid;
  expiry = 1060;
  preimage = "";
  is_mpp = false;
  amount_msat = 0;
}

-- a mint that has spent the proof of the Y "1"
abbrev spending : Mint toy
spending = mint_with (record empty_db {
  proofs =
      record {
        amount = 4;
        id = "k";
        secret = "s";
        y = "1";
        c = "d";
        witness = "";
        melt_quote_id = "";
      }
      ∷ [];
})

abbrev after_minting : Mint toy
after_minting = (mint_tokens toy working "quote" outputs "" spending).1

Reaches-blocks-swap_example :
    ¬ (swap toy working coins (output 1 "c" ∷ []) after_minting ≡ (ok [], fresh))
    × ¬ (melt_tokens toy working "melt" coins after_minting ≡ (ok some_quote, fresh))
Reaches-blocks-swap_example =
    Reaches-blocks-swap toy working coins spending after_minting fresh "1" ("1" ∷ [])
      (output 1 "c" ∷ []) [] "melt" some_quote refl runs.coin_points refl
      (next here (minting working "quote" outputs "" spending))
