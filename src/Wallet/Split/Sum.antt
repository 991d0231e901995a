-- ===== src/Wallet/Split/Sum.antt =====
-- wallet/wallet.go: the parts that `splitWalletTarget` answers add up to the amount.
use native.Mathlib.Nat.{pow-suc}
use native.Mathlib.Numerals.{add-one}
use gonuts.Prelude.{
  ℕ, zero, suc, ◌+◌, ◌-◌, ◌*◌, ◌%◌, ◌^◌, ◌≤◌, ◌<◌, ◌≡◌, refl, ◌∙◌, List, [], ◌∷◌, ◌++◌, map, arith,
  ltb, u64_mod, sum, sum-append, length, Bool-cases, inl, inr, ltb→ge,
}
use gonuts.Cashu.Split.{amount_split, amount_split-IsBinary, count, max_uint}
use gonuts.Wallet.Split.{
  SortAmounts, rounds_of, times, needed_from, fill, with_remaining, split_wallet_target, max_order,
}

-- A sort rearranges the list: whatever is added up over it stays the same.
abbrev pub RearrangesAmounts : SortAmounts → Type 0
RearrangesAmounts sort =
    (amounts : List ℕ) (f : ℕ → ℕ) → sum (map f (sort amounts)) ≡ sum (map f amounts)

sum-map-id : (xs : List ℕ) → sum (map (λ x. x) xs) ≡ sum xs
sum-map-id [] = refl
sum-map-id (x ∷ xs) = omega (arith, sum-map-id xs)

sum-map-one : (xs : List ℕ) → sum (map (λ x. 1) xs) ≡ length xs
sum-map-one [] = refl
sum-map-one (x ∷ xs) = omega (arith, sum-map-one xs)

count-le-length : (xs : List ℕ) (x : ℕ) → count xs x ≤ length xs
unfolding count
count-le-length [] x = omega arith
count-le-length (y ∷ xs) x = ground (arith, count-le-length xs x)

-- Never more than three are added.
rounds-le : (c : ℕ) → c < 2 ^ 63 → rounds_of (max_uint 0 ((3 + (u64_mod - c)) % u64_mod)) ≤ 3
unfolding rounds_of max_uint
rounds-le c h = ground arith

sum-times-le : (amount n : ℕ) → n ≤ 3 → sum (times amount n) ≤ 3 * amount
unfolding times
sum-times-le amount zero h = omega arith
sum-times-le amount (suc zero) h = omega arith
sum-times-le amount (suc (suc zero)) h = omega arith
sum-times-le amount (suc (suc (suc zero))) h = omega arith
sum-times-le amount (suc (suc (suc (suc n)))) h = omega arith

next_power : (order : ℕ) → 2 ^ (order + 1) ≡ 2 ^ order * 2
next_power order = rw add-one (pow-suc 2 order)

same_power : (j k : ℕ) → j ≡ k → 2 ^ j ≡ 2 ^ k
same_power j k e = rw e refl

sum-needed_from-le :
    (in_wallet : List ℕ) (order left : ℕ)
    → length in_wallet < 2 ^ 63
    → sum (needed_from in_wallet order left) + 3 * 2 ^ order ≤ 3 * 2 ^ (order + left)
unfolding needed_from
sum-needed_from-le in_wallet order zero h =
    omega (arith, same_power (order + 0) order (omega arith))
sum-needed_from-le in_wallet order (suc left) h =
    let c = count in_wallet (2 ^ order) in
    let n = rounds_of (max_uint 0 ((3 + (u64_mod - c)) % u64_mod)) in
    omega (
      arith,
      sum-append (times (2 ^ order) n) (needed_from in_wallet (order + 1) left),
      sum-times-le (2 ^ order) n
          (rounds-le c (omega (arith, count-le-length in_wallet (2 ^ order)))),
      next_power order,
      same_power (order + suc left) (order + 1 + left) (omega arith),
      sum-needed_from-le in_wallet (order + 1) left h,
    )

-- The amounts that are taken add up to the sum that is kept, which does not pass the target.
fill-sum :
    (target : ℕ) (amounts : List ℕ) (s : ℕ) (needed : List ℕ)
    → s ≡ sum amounts
    → s ≤ target
    → s + sum needed < u64_mod
    → (let (amounts', s') = fill target amounts s needed in (s' ≡ sum amounts') × (s' ≤ target))
unfolding fill
fill-sum target amounts s [] e le h = (e, le)
fill-sum target amounts s (a ∷ needed) e le h = elim (Bool-cases (ltb s target)) [
  | inl below ↦ elim (Bool-cases (ltb target ((s + a) % u64_mod))) [
    | inl over ↦ rw (below, over) (e, le)
    | inr fits ↦
        rw (below, fits)
          (fill-sum target (amounts ++ a ∷ []) ((s + a) % u64_mod) needed
            (omega (arith, sum-append amounts (a ∷ []))) (omega (arith, ltb→ge _ _ fits))
            (omega arith))
  ]
  | inr done ↦ rw done (e, le)
]

with_remaining-sum :
    (target : ℕ) (amounts : List ℕ) (s : ℕ)
    → target < u64_mod
    → s ≡ sum amounts
    → s ≤ target
    → sum (with_remaining target (amounts, s)) ≡ target
unfolding with_remaining
with_remaining-sum target amounts s h e le =
    let rest = (target + (u64_mod - s)) % u64_mod in
    elim (Bool-cases (ltb 0 rest)) [
      | inl more ↦ rw more (
          omega (
            arith,
            sum-append amounts (amount_split rest),
            (amount_split-IsBinary rest (omega arith)).0,
          ))
      | inr none ↦ rw none (omega (arith, ltb→ge _ _ none))
    ]

module _ (sort : SortAmounts) (rearranges : RearrangesAmounts sort) where
  sum-sort : (xs : List ℕ) → sum (sort xs) ≡ sum xs
  sum-sort xs = omega (arith, sum-map-id (sort xs), sum-map-id xs, rearranges xs (λ x. x))

  length-sort : (xs : List ℕ) → length (sort xs) ≡ length xs
  length-sort xs = omega (arith, sum-map-one (sort xs), sum-map-one xs, rearranges xs (λ x. 1))

  -- The parts that `splitWalletTarget` answers for a `uint64` add up to it, for a sort that
  -- rearranges and fewer than 2 ^ 63 proofs in the wallet, whatever their amounts are.
  pub sum-split_wallet_target :
      (amount : ℕ) (in_wallet : List ℕ)
      → amount < u64_mod
      → length in_wallet < 2 ^ 63
      → sum (split_wallet_target sort amount in_wallet) ≡ amount
  unfolding split_wallet_target
  sum-split_wallet_target amount in_wallet h few =
      let needed = needed_from (sort in_wallet) 0 max_order in
      let bound =
        sum-needed_from-le (sort in_wallet) 0 max_order (omega (arith, length-sort in_wallet)) in
      let (same, below) =
        fill-sum amount [] 0 (sort needed) refl (omega arith)
          (omega (arith, bound, sum-sort needed)) in
      sum-sort _ ∙ with_remaining-sum amount _ _ h same below
