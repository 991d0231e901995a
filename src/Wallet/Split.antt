-- ===== src/Wallet/Split.antt =====
-- wallet/wallet.go: `splitWalletTarget`, which splits an amount so that the wallet comes to hold
-- three proofs of each power of two. `slices.Sort` on numbers is a parameter.
pub mod Sum
use gonuts.Prelude.{
  ℕ, zero, suc, ◌+◌, ◌-◌, ◌*◌, ◌%◌, ◌^◌, ◌≡◌, List, [], ◌∷◌, ◌++◌, map, ltb, if◌then◌else◌, u64_mod,
  sum,
}
use gonuts.Cashu.Split.{amount_split, count, max_uint}

-- slices.Sort on `[]uint64`
abbrev pub SortAmounts : Type 0
SortAmounts = List ℕ → List ℕ

-- crypto.MAX_ORDER
abbrev pub max_order : ℕ
max_order = 60

-- `int(x)` of a `uint64`, as the bound of a loop: a negative number is a loop without rounds.
unfoldable pub rounds_of : ℕ → ℕ
rounds_of x = if ltb x (2 ^ 63) then x else 0

unfoldable pub times : ℕ → ℕ → List ℕ
times amount zero = []
times amount (suc n) = amount ∷ times amount n

-- the loop over the possible amounts, from 2 ^ order on
unfoldable pub needed_from : List ℕ → ℕ → ℕ → List ℕ
unfolding rounds_of times
needed_from in_wallet order zero = []
needed_from in_wallet order (suc left) =
    let times_to_add = max_uint 0 ((3 + (u64_mod - count in_wallet (2 ^ order))) % u64_mod) in
    times (2 ^ order) (rounds_of times_to_add) ++ needed_from in_wallet (order + 1) left

-- The loop that takes the needed amounts while they fit: `amounts`, and `amountsSum`.
unfoldable pub fill : ℕ → List ℕ → ℕ → List ℕ → List ℕ × ℕ
fill target amounts amounts_sum [] = (amounts, amounts_sum)
fill target amounts amounts_sum (a ∷ needed) =
    let rest = fill target (amounts ++ a ∷ []) ((amounts_sum + a) % u64_mod) needed in
    if ltb amounts_sum target
    then if ltb target ((amounts_sum + a) % u64_mod) then (amounts, amounts_sum) else rest
    else (amounts, amounts_sum)

-- `remainingAmount := amountToSplit - amountsSum`, and what is appended for it
unfoldable pub with_remaining : ℕ → List ℕ × ℕ → List ℕ
with_remaining target (amounts, amounts_sum) =
    let remaining = (target + (u64_mod - amounts_sum)) % u64_mod in
    if ltb 0 remaining then amounts ++ amount_split remaining else amounts

-- splitWalletTarget, on the amounts of the proofs in the wallet
unfoldable pub split_wallet_target : SortAmounts → ℕ → List ℕ → List ℕ
unfolding needed_from fill with_remaining
split_wallet_target sort amount_to_split in_wallet = sort (
    with_remaining amount_to_split
      (fill amount_to_split [] 0 (sort (needed_from (sort in_wallet) 0 max_order))))
