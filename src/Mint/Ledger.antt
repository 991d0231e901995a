-- ===== src/Mint/Ledger.antt =====
-- The books of the mint: what it has signed, and what has come back to it.
use mathlib.Core.List.{map-append}
use gonuts.Prelude.{ℕ, ◌+◌, ◌≡◌, ◌∙◌, ap, List, ◌++◌, map, sum, sum-append}
use gonuts.Storage.{Db, DbProof, SignatureRow}

-- The sum of all signatures that are stored, and of all proofs that are spent.
unfoldable pub issued : Db → ℕ
issued db = sum (map (λ r. r.amount) db.blind_signatures)

unfoldable pub redeemed : Db → ℕ
redeemed db = sum (map (λ r. r.amount) db.proofs)

pub issued-append :
    (db : Db) (rows : List SignatureRow)
    → issued (record db { blind_signatures = db.blind_signatures ++ rows })
      ≡ issued db + sum (map (λ r. r.amount) rows)
unfolding issued
issued-append db rows =
    ap sum (map-append (λ r. r.amount) db.blind_signatures rows)
    ∙ sum-append (map (λ r. r.amount) db.blind_signatures) (map (λ r. r.amount) rows)

pub redeemed-append :
    (db : Db) (rows : List DbProof)
    → redeemed (record db { proofs = db.proofs ++ rows })
      ≡ redeemed db + sum (map (λ r. r.amount) rows)
unfolding redeemed
redeemed-append db rows =
    ap sum (map-append (λ r. r.amount) db.proofs rows)
    ∙ sum-append (map (λ r. r.amount) db.proofs) (map (λ r. r.amount) rows)
