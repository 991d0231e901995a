-- ===== src/Mint/Proofs.antt =====
-- mint/mint.go: the checks of the proofs that a request spends, and their fees.
pub mod Checked
use Prim.Native.String.{len}
use gonuts.Prelude.{
  ℕ, ◌+◌, ◌/◌, ◌%◌, String, Bool, true, false, not, Option, none, some, List, [], ◌∷◌, ◌++◌, ltb,
  if◌then◌else◌, is_empty, u64_mod,
}
use gonuts.Errors.{
  Result, ok, err, panic, ◌>>=◌, ◌>>◌, return_if, no_proofs_provided, proof_pending,
  proof_already_used, duplicate_proofs, secret_too_long, unknown_keyset, invalid_proof, invalid_c,
}
use gonuts.Library.{Library}
use gonuts.Cashu.{Proof}
use gonuts.Cashu.Duplicates.{check_duplicate_proofs}
use gonuts.Nuts.Secrets.{
  SecretKind, WellKnownSecret, p2pk, htlc, anyone_can_spend, deserialize_secret,
}
use gonuts.Nuts.Conditions.{verify_p2pk_locked_proof, verify_htlc_proof}
use gonuts.Crypto.HashToCurve.{y_of}
use gonuts.Crypto.Bdhke.{verify}
use gonuts.Crypto.Keyset.{MintKeyset, key_for}
use gonuts.Storage.Proofs.{get_proofs_used, get_pending_proofs}
use gonuts.Mint.{Mint, World, find_keyset, require}

-- `uint` is 64 bits wide.
fee_of : {lib : Library} → Option (MintKeyset lib) → ℕ
fee_of none = 0
fee_of (some keyset) = keyset.input_fee_ppk

unfoldable pub fees_from : {lib : Library} → Mint lib → ℕ → List Proof → ℕ
unfolding fee_of
fees_from m fees [] = fees
fees_from m fees (p ∷ ps) = fees_from m ((fees + fee_of (find_keyset p.id m.keysets)) % u64_mod) ps

-- Mint.TransactionFees
unfoldable pub transaction_fees : {lib : Library} → Mint lib → List Proof → ℕ
unfolding fees_from
transaction_fees m proofs = (fees_from m 0 proofs + 999) % u64_mod / 1000

module _ (lib : Library) where
  open lib use {PublicKey, decode_hex, parse_public_key}

  -- The loop at the start of Swap and MeltTokens.
  unfoldable pub ys_of_proofs : List Proof → Result (List String)
  ys_of_proofs [] = ok []
  ys_of_proofs (p ∷ ps) = do y ← y_of lib p.secret; ys ← ys_of_proofs ps; ok (y ∷ ys)

  check_kind : ℕ → Proof → WellKnownSecret → SecretKind → Result (Unit {0})
  check_kind now proof secret p2pk = verify_p2pk_locked_proof lib now proof secret
  check_kind now proof secret htlc = verify_htlc_proof lib now proof secret
  check_kind now proof secret anyone_can_spend = ok tt

  -- The spending condition of a secret, if it is well-known.
  unfoldable pub check_condition : ℕ → Proof → Option WellKnownSecret → Result (Unit {0})
  unfolding check_kind
  check_condition now proof none = ok tt
  check_condition now proof (some secret) = check_kind now proof secret secret.kind

  -- One round of the loop of verifyProofs.
  unfoldable pub verify_proof : World lib → Mint lib → Proof → Result (Unit {0})
  unfolding check_condition
  verify_proof w m p = do
    return_if (ltb 512 (len p.secret)) secret_too_long
    keyset ← require unknown_keyset (find_keyset p.id m.keysets)
    k ← require invalid_proof (key_for p.amount keyset.keys)
    check_condition w.now p (deserialize_secret lib p.secret)
    bytes ← require invalid_c (decode_hex p.c)
    c ← require invalid_c (parse_public_key bytes)
    valid ← verify lib p.secret k c
    return_if (not valid) invalid_proof

  unfoldable pub verify_each : World lib → Mint lib → List Proof → Result (Unit {0})
  unfolding verify_proof
  verify_each w m [] = ok tt
  verify_each w m (p ∷ ps) = verify_proof w m p >> verify_each w m ps

  -- verifyProofs; its queries of the database are the calls 0 and 1.
  unfoldable pub verify_proofs : World lib → Mint lib → List Proof → List String → Result (Unit {0})
  unfolding verify_each
  verify_proofs w m proofs ys = do
    return_if (is_empty proofs) no_proofs_provided
    pending ← get_pending_proofs (w.io 0) ys m.db
    return_if (not (is_empty pending)) proof_pending
    used ← get_proofs_used (w.io 1) ys m.db
    return_if (not (is_empty used)) proof_already_used
    return_if (check_duplicate_proofs proofs) duplicate_proofs
    verify_each w m proofs
