-- ===== src/Tests/Wallet.antt =====
-- The functions of wallet/wallet.go on a wallet with four proofs of one keyset, sorted by insertion.
use gonuts.Prelude.{
  ℕ, ◌+◌, ◌≤◌, ◌≡◌, ◌≢◌, refl, String, Bool, true, none, List, [], ◌∷◌, str_eq, map, arith, ltb,
  if◌then◌else◌, sum, u64_mod, Bool-cases, inl, inr, ◌%◌,
}
use gonuts.Cashu.{Proof, proofs_amount}
use gonuts.Wallet.{WalletKeyset, WalletMint, answer, endless, fees_if, fees_for_proofs, input_fee}
use gonuts.Wallet.Weights.{total, IsPartOf}
use gonuts.Wallet.Select.{Sort, Rearranges, select_proofs_to_send}
use gonuts.Wallet.Select.Chosen.{select_proofs_to_send-IsPartOf, select_proofs_to_send-ne-endless}
use gonuts.Wallet.Select.Enough.{select_proofs_to_send-answers}
use gonuts.Wallet.Funds.{select_proofs_for_amount, get_proofs_from_mint}
use gonuts.Wallet.Funds.Covered.{select_proofs_for_amount-covers, Fits}
use gonuts.Wallet.Split.{SortAmounts, split_wallet_target}
use gonuts.Wallet.Split.Sum.{sum-split_wallet_target, RearrangesAmounts}

abbrev insert_proof : (Proof → Proof → Bool) → Proof → List Proof → List Proof
insert_proof less p [] = p ∷ []
insert_proof less p (q ∷ qs) =
    let rest = insert_proof less p qs in if less q p then q ∷ rest else p ∷ q ∷ qs

abbrev insertion : Sort
insertion less [] = []
insertion less (p ∷ ps) = insert_proof less p (insertion less ps)

insert_proof-total :
    (less : Proof → Proof → Bool) (p : Proof) (ps : List Proof) (f : Proof → ℕ)
    → total f (insert_proof less p ps) ≡ f p + total f ps
insert_proof-total less p [] f = refl
insert_proof-total less p (q ∷ qs) f = elim (Bool-cases (less q p)) [
  | inl later ↦ rw later (omega (arith, insert_proof-total less p qs f))
  | inr here ↦ rw here refl
]

insertion-Rearranges : Rearranges insertion
insertion-Rearranges less [] f = refl
insertion-Rearranges less (p ∷ ps) f =
    omega (arith, insert_proof-total less p (insertion less ps) f, insertion-Rearranges less ps f)

abbrev insert_amount : ℕ → List ℕ → List ℕ
insert_amount a [] = a ∷ []
insert_amount a (b ∷ bs) = let rest = insert_amount a bs in if ltb b a then b ∷ rest else a ∷ b ∷ bs

abbrev by_insertion : SortAmounts
by_insertion [] = []
by_insertion (a ∷ as_) = insert_amount a (by_insertion as_)

insert_amount-sum :
    (a : ℕ) (bs : List ℕ) (f : ℕ → ℕ) → sum (map f (insert_amount a bs)) ≡ f a + sum (map f bs)
insert_amount-sum a [] f = refl
insert_amount-sum a (b ∷ bs) f = elim (Bool-cases (ltb b a)) [
  | inl later ↦ rw later (omega (arith, insert_amount-sum a bs f))
  | inr here ↦ rw here refl
]

by_insertion-Rearranges : RearrangesAmounts by_insertion
by_insertion-Rearranges [] f = refl
by_insertion-Rearranges (a ∷ as_) f =
    omega (arith, insert_amount-sum a (by_insertion as_) f, by_insertion-Rearranges as_ f)

abbrev keyset_with : String → ℕ → WalletKeyset ℕ
keyset_with id fee = record {
  id = id;
  mint_url = "mint";
  unit = "sat";
  active = true;
  public_keys = [];
  counter = 0;
  input_fee_ppk = fee;
}

abbrev coin : String → String → ℕ → Proof
coin id secret amount = record {
  amount = amount;
  id = id;
  secret = secret;
  c = "c";
  witness = "";
  dleq = none;
}

-- The fee of a proof is one.
abbrev wallet_mint : WalletMint ℕ
wallet_mint = record {
  mint_url = "mint";
  active_keyset = keyset_with "new" 1000;
  inactive_keysets = ("old", keyset_with "old" 1000) ∷ [];
}

abbrev purse : List Proof
purse = coin "new" "a" 4 ∷ coin "new" "b" 4 ∷ coin "new" "c" 1 ∷ coin "new" "d" 8 ∷ []

abbrev stored : String → List Proof
stored = λ id. if str_eq id "new" then purse else coin "old" "e" 2 ∷ []

-- Five and the fees of three proofs are covered by 4, 1 and 4, but what remains is then
-- 5 + 3 - 9, which wraps, and the 8 is selected too.
over_selected :
    select_proofs_to_send insertion wallet_mint true 5 purse
    ≡ answer (coin "new" "a" 4 ∷ coin "new" "c" 1 ∷ coin "new" "b" 4 ∷ coin "new" "d" 8 ∷ [])
unfolding select_proofs_to_send fees_if fees_for_proofs input_fee proofs_amount
over_selected = refl

abbrev chosen : List Proof
chosen = coin "new" "a" 4 ∷ coin "new" "c" 1 ∷ coin "new" "b" 4 ∷ coin "new" "d" 8 ∷ []

select_proofs_to_send-IsPartOf_example :
    IsPartOf chosen purse × ((5 + fees_if true wallet_mint chosen) % u64_mod ≤ proofs_amount chosen)
select_proofs_to_send-IsPartOf_example =
    select_proofs_to_send-IsPartOf insertion wallet_mint true 5 insertion-Rearranges purse chosen
      over_selected

select_proofs_to_send-ne-endless_example :
    select_proofs_to_send insertion wallet_mint true 5 purse ≢ endless
select_proofs_to_send-ne-endless_example =
    select_proofs_to_send-ne-endless insertion wallet_mint true 5 insertion-Rearranges purse

purse_fees : fees_if true wallet_mint purse ≡ 4
unfolding fees_if fees_for_proofs input_fee
purse_fees = refl

purse_fee_total : total (input_fee wallet_mint) purse ≡ 4000
unfolding input_fee
purse_fee_total = refl

select_proofs_to_send-answers_example :
    (picked : List Proof) × (select_proofs_to_send insertion wallet_mint true 5 purse
      ≡ answer picked)
select_proofs_to_send-answers_example =
    select_proofs_to_send-answers insertion wallet_mint true 5 insertion-Rearranges purse
      (omega (arith, purse_fees)) (omega (arith, purse_fee_total)) (omega (arith, purse_fees))

abbrev both : List Proof
both = coin "old" "e" 2 ∷ coin "new" "c" 1 ∷ coin "new" "a" 4 ∷ []

-- Three are asked for: the proof of the old keyset, and two of the new one.
from_both : select_proofs_for_amount stored insertion wallet_mint true 3 ≡ answer both
unfolding select_proofs_for_amount select_proofs_to_send fees_if fees_for_proofs input_fee
    proofs_amount
from_both = refl

both_fit :
    Fits stored insertion wallet_mint true 3 insertion-Rearranges
      (get_proofs_from_mint stored wallet_mint)
unfolding get_proofs_from_mint input_fee
both_fit = (omega arith, omega arith)

select_proofs_for_amount-covers_example :
    IsPartOf both (get_proofs_from_mint stored wallet_mint)
    × (3 + fees_if true wallet_mint both ≤ proofs_amount both)
select_proofs_for_amount-covers_example =
    select_proofs_for_amount-covers stored insertion wallet_mint true 3 insertion-Rearranges both
      both_fit from_both

sum-split_wallet_target_example : sum (split_wallet_target by_insertion 21 (1 ∷ 1 ∷ 2 ∷ [])) ≡ 21
sum-split_wallet_target_example =
    sum-split_wallet_target by_insertion by_insertion-Rearranges 21 (1 ∷ 1 ∷ 2 ∷ []) (omega arith)
      (omega arith)
