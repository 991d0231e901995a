-- ===== src/Storage/Balance.antt =====
-- sqlite.go: `GetIssuedEcash` and `GetRedeemedEcash`, over the views `total_issued` and
-- `total_redeemed`, and `TotalBalance` of mint/mint.go, which adds them up.
use gonuts.Prelude.{
  ℕ, ◌+◌, ◌-◌, ◌%◌, String, Bool, List, [], ◌∷◌, map, str_eq, if◌then◌else◌, u64_mod,
}
use gonuts.Errors.{Result, ok, err, ◌>>=◌, db_error}
use gonuts.Cashu.{wrapping_sum}
use gonuts.Storage.{Db}

-- SUM(amount) … GROUP BY keyset_id, one row at a time
unfoldable pub add_to_group : String → ℕ → List (String × ℕ) → List (String × ℕ)
add_to_group id amount [] = (id, amount) ∷ []
add_to_group id amount ((k, total) ∷ groups) =
    let rest = add_to_group id amount groups in
    if str_eq k id then (k, total + amount) ∷ groups else (k, total) ∷ rest

unfoldable pub group_amounts : List (String × ℕ) → List (String × ℕ)
unfolding add_to_group
group_amounts [] = []
group_amounts ((id, amount) ∷ rows) = add_to_group id amount (group_amounts rows)

-- GetIssuedEcash
unfoldable pub get_issued_ecash : Bool → Db → Result (List (String × ℕ))
unfolding group_amounts
get_issued_ecash io db =
    if io
    then ok (group_amounts (map (λ r. (r.keyset_id, r.amount)) db.blind_signatures))
    else err db_error

-- GetRedeemedEcash
unfoldable pub get_redeemed_ecash : Bool → Db → Result (List (String × ℕ))
unfolding group_amounts
get_redeemed_ecash io db =
    if io then ok (group_amounts (map (λ r. (r.id, r.amount)) db.proofs)) else err db_error

abbrev group_totals : List (String × ℕ) → List ℕ
group_totals = map (λ g. g.1)

-- Mint.TotalBalance
unfoldable pub total_balance : Bool → Bool → Db → Result ℕ
unfolding get_issued_ecash get_redeemed_ecash
total_balance io_issued io_redeemed db = do
  issued ← get_issued_ecash io_issued db
  let total_issued = wrapping_sum 0 (group_totals issued)
  redeemed ← get_redeemed_ecash io_redeemed db
  let total_redeemed = wrapping_sum 0 (group_totals redeemed)
  ok ((total_issued + u64_mod - total_redeemed) % u64_mod)
