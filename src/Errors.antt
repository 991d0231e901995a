-- ===== src/Errors.antt =====
-- cashu/cashu.go: the errors that the mint answers with, and what a Go call leaves behind. A
-- constructor stands for one `cashu.Error` variable or for one call of `BuildCashuError`; the
-- free text in a `Detail` is dropped. Errors of cashu/nuts/nut11 and nut14 are here too.
use gonuts.Prelude.{ℕ, ◌≡◌, refl, Bool, true, false}

pub data Error : Type 0 where
  standard empty_body unknown_keyset payment_method_not_supported unit_not_supported : Error
  invalid_blinded_message_amount invalid_proof_amount blinded_message_already_signed : Error
  mint_quote_request_not_paid mint_quote_already_issued minting_disabled : Error
  mint_amount_exceeded mint_quote_invalid_sig outputs_over_quote_amount : Error
  proof_already_used proof_pending invalid_proof secret_too_long no_proofs_provided : Error
  duplicate_proofs duplicate_outputs quote_not_exist quote_pending : Error
  lightning_payment_failed melt_quote_already_paid melt_amount_exceeded : Error
  melt_quote_for_request_exists insufficient_proofs_amount : Error
  inactive_keyset_signature_request : Error
  -- built where they are returned
  db_error lightning_backend_error invalid_public_key invalid_c invalid_b : Error
  invalid_invoice invoice_has_no_amount mpp_internal mpp_amount_not_less mpp_not_supported : Error
  invalid_secret no_rows : Error
  -- nut11
  invalid_tag too_many_tags n_sigs_must_be_positive empty_pubkeys invalid_witness : Error
  invalid_kind duplicate_signatures not_enough_signatures no_signatures : Error
  all_sig_all_flags sig_all_keys_must_be_equal sig_all_only_swap n_sigs_must_be_equal : Error
  invalid_sigflag invalid_n_sigs invalid_locktime nut11_invalid_public_key : Error
  -- nut14
  invalid_preimage invalid_hash : Error

-- The `Code` that is sent with the error.
pub code : Error → ℕ
code unknown_keyset = 12001
code payment_method_not_supported = 11003
code unit_not_supported = 11005
code blinded_message_already_signed = 10002
code mint_quote_request_not_paid = 20001
code mint_quote_already_issued = 20002
code minting_disabled = 20003
code mint_amount_exceeded = 11006
code mint_quote_invalid_sig = 20008
code proof_already_used = 11001
code proof_pending = 11001
code invalid_proof = 10003
code secret_too_long = 10004
code no_proofs_provided = 10003
code duplicate_proofs = 11007
code duplicate_outputs = 11008
code quote_not_exist = 20009
code quote_pending = 20005
code lightning_payment_failed = 20004
code melt_quote_already_paid = 20006
code melt_amount_exceeded = 11006
code melt_quote_for_request_exists = 20009
code insufficient_proofs_amount = 11002
code inactive_keyset_signature_request = 12002
code db_error = 1
code lightning_backend_error = 2
code invalid_invoice = 20009
code invoice_has_no_amount = 20009
code mpp_internal = 20009
code mpp_amount_not_less = 20009
code mpp_not_supported = 20009
code invalid_tag = 30001
code too_many_tags = 30001
code n_sigs_must_be_positive = 30001
code empty_pubkeys = 30001
code invalid_witness = 30001
code invalid_kind = 30001
code duplicate_signatures = 30001
code not_enough_signatures = 30001
code no_signatures = 30001
code all_sig_all_flags = 30001
code sig_all_keys_must_be_equal = 30001
code sig_all_only_swap = 30001
code n_sigs_must_be_equal = 30001
code invalid_sigflag = 30001
code invalid_n_sigs = 30001
code invalid_locktime = 30001
code nut11_invalid_public_key = 30001
code invalid_preimage = 30004
code invalid_hash = 30004
code _ = 10000

-- The value of a call, its error, or no return at all: a run-time panic, or a loop without end.
pub data Result {ℓ} (A : Type ℓ) : Type ℓ where
  panic : Result A
  err : Error → Result A
  ok : A → Result A

pub ok_injective {ℓ} : {A : Type ℓ} {x y : A} → ok x ≡ ok y → x ≡ y
ok_injective e = cc

-- `if cond { return err }`
abbrev pub return_if : Bool → Error → Result (Unit {0})
return_if false _ = ok tt
return_if true problem = err problem

infixl 10 ◌>>=◌ ◌>>◌
abbrev pub ◌>>=◌ {κ ℓ} : {B : Type κ} {A : Type ℓ} → Result A → (A → Result B) → Result B
panic >>= next = panic
err problem >>= next = err problem
ok value >>= next = next value

-- The value of a successful chain comes from a successful first step.
pub >>=-eq-ok {κ ℓ} :
    {B : Type κ} {A : Type ℓ} (r : Result A) (next : A → Result B) {answer : B}
    → (r >>= next) ≡ ok answer
    → (value : A) × (r ≡ ok value) × (next value ≡ ok answer)
>>=-eq-ok panic next e = cc
>>=-eq-ok (err problem) next e = cc
>>=-eq-ok (ok value) next e = (value, refl, e)

abbrev pub ◌>>◌ {ℓ} : {A : Type ℓ} → Result (Unit {0}) → Result A → Result A
check >> rest = check >>= λ _. rest
