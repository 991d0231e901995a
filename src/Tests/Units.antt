-- ===== src/Tests/Units.antt =====
-- The theorems about amounts, signatures, spending conditions, the curve and the tables, at concrete
-- inputs.
use gonuts.Prelude.{
  ℕ, ◌+◌, ◌%◌, ◌^◌, ◌≤◌, ◌<◌, ◌≡◌, refl, sym, ◌⊎◌, inl, inr, String, Bool, true, false, Option,
  none, some, List, [], ◌∷◌, ◌++◌, map, arith, sum, leb, length, u64_mod, IsDistinct, if◌then◌else◌,
}
use gonuts.Prelude.Int.{codes}
use gonuts.Errors.{ok, err, invalid_proof}
use gonuts.Library.{SecretData}
use gonuts.Cashu.{Proof}
use gonuts.Cashu.Amounts.{amount_checked, checked_total, amount_checked_lem}
use gonuts.Cashu.Split.{amount_split, IsAscending, amount_split-IsBinary}
use gonuts.Nuts.Secrets.{WellKnownSecret, p2pk, htlc}
use gonuts.Nuts.Tags.{P2pkTags, parse_p2pk_tags}
use gonuts.Nuts.Signatures.{has_valid_signatures}
use gonuts.Nuts.Signatures.Threshold.{
  AllBy, signers, has_valid_signatures_sound, has_valid_signatures-single,
}
use gonuts.Nuts.Conditions.{verify_p2pk_locked_proof, verify_htlc_proof}
use gonuts.Nuts.Conditions.P2pk.{Spendable, verify_p2pk_locked_proof-Spendable}
use gonuts.Nuts.Conditions.Htlc.{Redeemable, verify_htlc_proof-Redeemable}
use gonuts.Crypto.HashToCurve.{candidate, hash_to_curve, FirstPoint, hash_to_curve-FirstPoint, y_of}
use gonuts.Crypto.Bdhke.{
  blind_message, sign_blinded_message, unblind_signature, verify, verify_dleq, generate_dleq,
  verify-unblind-sign, verify_dleq-generate_dleq, hash_e,
}
use gonuts.Storage.{Db, DbProof, empty_db}
use gonuts.Storage.Proofs.{ys_of, rows_of, save_proofs, add_pending_proofs, remove_pending_proofs}
use gonuts.Storage.Proofs.Laws.{Saved, save_proofs-Saved}
use gonuts.Storage.Proofs.Released.{remove_pending_proofs-add_pending_proofs}
use gonuts.Tests.Bits.{bits, bits_laws}
use gonuts.Tests.Values.{toy}
use gonuts.Tests.Runs.{coins}

abbrev locked : SecretData
locked = record { nonce = "n"; text = "d"; tags = [] }

abbrev to_key : WellKnownSecret
to_key = record { kind = p2pk; content = locked }

abbrev signed_coin : Proof
signed_coin = record { amount = 4; id = "k"; secret = "s"; c = "d"; witness = "d"; dleq = none }

abbrev sixes : String
sixes = "6666666666666666666666666666666666666666666666666666666666666666"

abbrev to_hash : WellKnownSecret
to_hash = record { kind = htlc; content = record { nonce = "n"; text = sixes; tags = [] } }

abbrev opened_coin : Proof
opened_coin = record { amount = 4; id = "k"; secret = "s"; c = "d"; witness = sixes; dleq = none }

abbrev stored_rows : List DbProof
stored_rows =
    record {
      amount = 4;
      id = "k";
      secret = "s";
      y = "1";
      c = "d";
      witness = "";
      melt_quote_id = "";
    }
    ∷ []

-- What the runs answer.
record UnitRuns : Type 0 where
  -- The toy signature of a key is the key.
  both_signed : has_valid_signatures toy [] ("d" ∷ "e" ∷ []) 2 (2 ∷ 3 ∷ []) ≡ true
  by_one : AllBy toy [] 2 ("d" ∷ "d" ∷ [])
  unlocked : verify_p2pk_locked_proof toy 1000 signed_coin to_key ≡ ok tt
  opened : verify_htlc_proof toy 1000 opened_coin to_hash ≡ ok tt
  blinded : blind_message bits "s" true ≡ ok false
  hash_is_read : hash_e bits (true ∷ false ∷ true ∷ sign_blinded_message bits false true ∷ []) ≡ []
  coins_rows : rows_of (y_of toy) "" coins ≡ ok stored_rows

unit_runs : UnitRuns
unfolding gonuts.Cashu.wrapping_sum gonuts.Cashu.messages_amount gonuts.Cashu.signatures_amount
    gonuts.Cashu.proofs_amount gonuts.Cashu.Amounts.overflow_add_uint64
    gonuts.Cashu.Amounts.underflow_sub_uint64 gonuts.Cashu.Amounts.amount_checked
    gonuts.Cashu.Duplicates.seen_before gonuts.Cashu.Duplicates.duplicates_from
    gonuts.Cashu.Duplicates.check_duplicate_proofs
    gonuts.Cashu.Duplicates.check_duplicate_blinded_messages
    gonuts.Cashu.Duplicates.check_duplicate_signatures gonuts.Crypto.Bdhke.blind_message
    gonuts.Crypto.Bdhke.sign_blinded_message gonuts.Crypto.Bdhke.verify_point
    gonuts.Crypto.Bdhke.verify gonuts.Crypto.Bdhke.hash_e gonuts.Crypto.Bdhke.generate_dleq
    gonuts.Crypto.HashToCurve.candidate gonuts.Crypto.HashToCurve.rounds
    gonuts.Crypto.HashToCurve.hash_to_curve gonuts.Crypto.HashToCurve.y_of
    gonuts.Crypto.Keyset.key_for gonuts.Mint.find_keyset gonuts.Mint.Melt.settle_proofs
    gonuts.Mint.Melt.after_payment gonuts.Mint.Melt.pay gonuts.Mint.Melt.melt_internally
    gonuts.Mint.Melt.melt_pending gonuts.Mint.Melt.melt_tokens gonuts.Mint.Melt.Check.check_open
    gonuts.Mint.Melt.Check.check_melt gonuts.Mint.Melt.Request.request_melt_quote
    gonuts.Mint.Melt.Request.Check.new_melt_quote gonuts.Mint.MintTokens.get_mint_quote_state
    gonuts.Mint.MintTokens.restore gonuts.Mint.MintTokens.prepare_mint
    gonuts.Mint.MintTokens.finish_mint gonuts.Mint.MintTokens.issue
    gonuts.Mint.MintTokens.mint_by_state gonuts.Mint.MintTokens.mint_tokens
    gonuts.Mint.MintTokens.Check.check_quote_request
    gonuts.Mint.MintTokens.Check.verify_mint_quote_signature
    gonuts.Mint.MintTokens.Check.check_quote_signature gonuts.Mint.MintTokens.Check.check_mint
    gonuts.Mint.Outputs.signature gonuts.Mint.Outputs.sign_message
    gonuts.Mint.Outputs.sign_blinded_messages gonuts.Mint.Outputs.same_condition
    gonuts.Mint.Outputs.same_conditions gonuts.Mint.Outputs.signed_output
    gonuts.Mint.Outputs.signed_outputs gonuts.Mint.Outputs.verify_blinded_messages
    gonuts.Mint.Proofs.fees_from gonuts.Mint.Proofs.transaction_fees gonuts.Mint.Proofs.ys_of_proofs
    gonuts.Mint.Proofs.check_condition gonuts.Mint.Proofs.verify_proof
    gonuts.Mint.Proofs.verify_each gonuts.Mint.Proofs.verify_proofs gonuts.Mint.States.publish_spent
    gonuts.Mint.Swap.commit_swap gonuts.Mint.Swap.swap gonuts.Mint.Swap.Check.enough_for_outputs
    gonuts.Mint.Swap.Check.check_swap gonuts.Nuts.Conditions.check_refund
    gonuts.Nuts.Conditions.required_keys gonuts.Nuts.Conditions.check_signatures
    gonuts.Nuts.Conditions.check_locked gonuts.Nuts.Conditions.verify_p2pk_locked_proof
    gonuts.Nuts.Conditions.check_preimage gonuts.Nuts.Conditions.check_htlc_signatures
    gonuts.Nuts.Conditions.verify_htlc_proof gonuts.Nuts.Conditions.proofs_sig_all
    gonuts.Nuts.Secrets.kind_text gonuts.Nuts.Secrets.deserialize_secret
    gonuts.Nuts.Signatures.parse_signature gonuts.Nuts.Signatures.take_signer
    gonuts.Nuts.Signatures.count_signature gonuts.Nuts.Signatures.valid_signatures
    gonuts.Nuts.Signatures.has_valid_signatures gonuts.Nuts.States.mint_state_text
    gonuts.Nuts.States.mint_state_of gonuts.Nuts.States.melt_state_text
    gonuts.Nuts.States.melt_state_of gonuts.Nuts.Tags.is_sig_all_tags gonuts.Nuts.Tags.parse_key
    gonuts.Nuts.Tags.parse_keys gonuts.Nuts.Tags.parse_tag gonuts.Nuts.Tags.parse_tags_from
    gonuts.Nuts.Tags.parse_p2pk_tags gonuts.Nuts.Tags.public_keys gonuts.Prelude.Int.parse_int
    gonuts.Storage.BlindSignatures.rows_of gonuts.Storage.BlindSignatures.insert_signatures
    gonuts.Storage.BlindSignatures.save_blind_signatures
    gonuts.Storage.BlindSignatures.read_signature gonuts.Storage.BlindSignatures.find_b_
    gonuts.Storage.BlindSignatures.get_blind_signature gonuts.Storage.BlindSignatures.select_b_s
    gonuts.Storage.BlindSignatures.get_blind_signatures gonuts.Storage.MeltQuotes.find_id
    gonuts.Storage.MeltQuotes.find_request gonuts.Storage.MeltQuotes.set_state
    gonuts.Storage.MeltQuotes.count_id gonuts.Storage.MeltQuotes.update_melt_quote
    gonuts.Storage.MeltQuotes.row_of gonuts.Storage.MeltQuotes.save_melt_quote
    gonuts.Storage.MeltQuotes.read_melt_quote gonuts.Storage.MeltQuotes.get_melt_quote
    gonuts.Storage.MeltQuotes.get_melt_quote_by_payment_request gonuts.Storage.MintQuotes.find_id
    gonuts.Storage.MintQuotes.find_payment_hash gonuts.Storage.MintQuotes.set_state
    gonuts.Storage.MintQuotes.count_id gonuts.Storage.MintQuotes.update_mint_quote_state
    gonuts.Storage.MintQuotes.read_mint_quote gonuts.Storage.MintQuotes.get_mint_quote
    gonuts.Storage.MintQuotes.get_mint_quote_by_payment_hash gonuts.Storage.Proofs.insert_proof
    gonuts.Storage.Proofs.insert_proofs gonuts.Storage.Proofs.select_ys
    gonuts.Storage.Proofs.delete_ys gonuts.Storage.Proofs.get_proofs_used
    gonuts.Storage.Proofs.get_pending_proofs gonuts.Storage.Proofs.remove_pending_proofs
    gonuts.Storage.Proofs.rows_of gonuts.Storage.Proofs.save_proofs
    gonuts.Storage.Proofs.add_pending_proofs
unit_runs = record {
  both_signed = refl;
  by_one = (refl, (refl, tt));
  unlocked = refl;
  opened = refl;
  blinded = refl;
  hash_is_read = refl;
  coins_rows = refl;
}

amount_checked_lem_example : amount_checked 0 (2 ∷ 1 ∷ []) ≡ checked_total 3
amount_checked_lem_example =
    amount_checked_lem 0 (2 ∷ 1 ∷ []) (omega arith) (omega arith, (omega arith, tt))

amount_split-IsBinary_example : (sum (amount_split 13) ≡ 13) × IsAscending 1 (amount_split 13)
amount_split-IsBinary_example = amount_split-IsBinary 13 (omega arith)

has_valid_signatures_sound_example : 2 ≤ signers toy [] ("d" ∷ "e" ∷ []) (2 ∷ 3 ∷ [])
has_valid_signatures_sound_example =
    has_valid_signatures_sound toy [] ("d" ∷ "e" ∷ []) 2 (2 ∷ 3 ∷ []) (omega arith)
      unit_runs.both_signed

has_valid_signatures-single_example :
    has_valid_signatures toy [] ("d" ∷ "d" ∷ []) 2 (2 ∷ []) ≡ leb 2 2
has_valid_signatures-single_example =
    has_valid_signatures-single toy [] 2 ("d" ∷ "d" ∷ []) 2 unit_runs.by_one

verify_p2pk_locked_proof-Spendable_example :
    (tags : P2pkTags ℕ) × (parse_p2pk_tags toy [] ≡ ok tags)
    × Spendable toy 1000 (codes "s") ("d" ∷ []) "d" tags
verify_p2pk_locked_proof-Spendable_example =
    verify_p2pk_locked_proof-Spendable toy 1000 signed_coin to_key unit_runs.unlocked

verify_htlc_proof-Redeemable_example :
    (tags : P2pkTags ℕ) × (parse_p2pk_tags toy [] ≡ ok tags)
    × Redeemable toy 1000
        (codes "s")
        (record { preimage = sixes; signatures = sixes ∷ [] })
        sixes
        tags
verify_htlc_proof-Redeemable_example =
    verify_htlc_proof-Redeemable toy 1000 opened_coin to_hash unit_runs.opened

hash_to_curve-FirstPoint_example :
    ((p : ℕ) × (hash_to_curve toy [] ≡ ok p)
      × FirstPoint toy (codes "Secp256k1_HashToCurve_Cashu_" ++ []) 0 65536 p)
    ⊎ ((hash_to_curve toy [] ≡ err invalid_proof)
        × ((j : ℕ)
            → 0 ≤ j
            → j < 65536
            → candidate toy (codes "Secp256k1_HashToCurve_Cashu_" ++ []) j ≡ none))
hash_to_curve-FirstPoint_example = hash_to_curve-FirstPoint toy (λ b p e. refl) []

verify-unblind-sign_example :
    verify bits "s" true (unblind_signature bits (sign_blinded_message bits false true) true true)
    ≡ ok true
verify-unblind-sign_example =
    verify-unblind-sign bits bits_laws "s" true true false unit_runs.blinded

verify_dleq-generate_dleq_example :
    let (e, s) = generate_dleq bits true true false (sign_blinded_message bits false true) in
    verify_dleq bits (λ a b. true) e s true false (sign_blinded_message bits false true) ≡ true
verify_dleq-generate_dleq_example =
    verify_dleq-generate_dleq bits bits_laws (λ a b. true) true true false (λ b. refl)
      (sym unit_runs.hash_is_read)

save_proofs-Saved_example :
    Saved (y_of toy) stored_rows empty_db (save_proofs (y_of toy) true coins empty_db)
save_proofs-Saved_example =
    save_proofs-Saved (y_of toy) stored_rows empty_db true coins unit_runs.coins_rows

coins_pending : (add_pending_proofs (y_of toy) true coins "" empty_db).0 ≡ ok tt
unfolding add_pending_proofs gonuts.Crypto.HashToCurve.hash_to_curve
    gonuts.Crypto.HashToCurve.rounds gonuts.Crypto.HashToCurve.y_of
coins_pending = refl

remove_pending_proofs-add_pending_proofs_example :
    remove_pending_proofs true
      (ys_of stored_rows)
      (add_pending_proofs (y_of toy) true coins "" empty_db).1
    ≡ (ok tt, empty_db)
remove_pending_proofs-add_pending_proofs_example =
    remove_pending_proofs-add_pending_proofs (y_of toy) stored_rows empty_db true coins ""
      unit_runs.coins_rows coins_pending
