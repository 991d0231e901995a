-- ===== src/Tests/Runs.antt =====
-- Runs of Swap, MintTokens and MeltTokens on the small mints.
use gonuts.Prelude.{
  ℕ, ◌≡◌, refl, ap, String, Bool, true, false, Option, none, some, List, [], ◌∷◌, ◌==◌, not,
  is_empty, contains, if◌then◌else◌,
}
use gonuts.Errors.{
  Result, ok, err, panic, db_error, outputs_over_quote_amount, insufficient_proofs_amount,
}
use gonuts.Cashu.{Proof, BlindedMessage, BlindedSignature}
use gonuts.Nuts.States.{MintState, MeltState}
use gonuts.Storage.{Db, MintQuote, MeltQuote}
use gonuts.Storage.Proofs.{save_proofs}
use gonuts.Storage.BlindSignatures.{save_blind_signatures}
use gonuts.Crypto.HashToCurve.{y_of}
use gonuts.Storage.MintQuotes.{get_mint_quote, count_id}
use gonuts.Storage.MintQuotes.Laws.{stated}
use gonuts.Mint.{Mint, World, Outgoing, PaymentState}
use gonuts.Mint.Proofs.{ys_of_proofs}
use gonuts.Mint.Outputs.{b_s_of}
use gonuts.Mint.Swap.{swap}
use gonuts.Mint.Swap.Check.{check_swap}
use gonuts.Mint.MintTokens.{mint_tokens}
use gonuts.Mint.MintTokens.Check.{check_mint}
use gonuts.Mint.Melt.{melt_tokens}
use gonuts.Mint.Melt.Request.{request_melt_quote}
use gonuts.Tests.Values.{toy, working, world_with, fresh, output, outputs, coin, quoted, melting}

abbrev pub or_nothing {ℓ} : {A : Type ℓ} → Result (List A) → List A
or_nothing (ok xs) = xs
or_nothing (err e) = []
or_nothing panic = []

abbrev pub coins : List Proof
coins = coin "d" ∷ []

-- A swap of 4 for 2 and 1, with a fee of 1.
abbrev pub swapped : Result (List BlindedSignature) × Mint toy
swapped = swap toy working coins outputs fresh

-- Outputs of 4 are one too many.

-- Two outputs of the same `B_`, with different amounts.
abbrev pub same_outputs : List BlindedMessage
same_outputs = output 2 "a" ∷ output 1 "a" ∷ []

abbrev pub same_sigs : List BlindedSignature
same_sigs = or_nothing (check_swap toy working coins same_outputs fresh)

abbrev pub spent_db : Db
spent_db = (save_proofs (y_of toy) true coins fresh.db).1

-- Minting 2 and 1 for a quote of 3.
abbrev pub minted : Result (List BlindedSignature) × Mint toy
minted = mint_tokens toy working "quote" outputs "" (quoted "UNPAID")

abbrev pub paid_quote : MintQuote ℕ
paid_quote = record {
  id = "quote";
  amount = 3;
  payment_request = "lnbc1";
  payment_hash = "hash";
  state = MintState.paid;
  expiry = 1060;
  pubkey = none;
}

abbrev pub while_pending : Mint toy
while_pending = record (quoted "PAID") { db = stated "quote" MintState.pending (quoted "PAID").db }

-- The database fails at the call 5, SaveBlindSignatures.
abbrev pub failing : World toy
failing = world_with (λ i. not (i == 5)) none Outgoing.not_found

abbrev pub lost_sigs : List BlindedSignature
lost_sigs = or_nothing (check_mint toy failing paid_quote outputs "" while_pending)

-- A melt of 4 for an invoice of 2, with a reserve of 1 and a fee of 1.
abbrev quote_or : MeltQuote → Result MeltQuote → MeltQuote
quote_or q (ok q') = q'
quote_or q (err e) = q
quote_or q panic = q

abbrev no_quote : MeltQuote
no_quote = record {
  id = "";
  invoice_request = "";
  payment_hash = "";
  amount = 0;
  fee_reserve = 0;
  state = MeltState.unknown;
  expiry = 0;
  preimage = "";
  is_mpp = false;
  amount_msat = 0;
}

abbrev melted_answer : Result MeltQuote × Mint toy
melted_answer = melt_tokens toy working "melt" coins melting

abbrev pub melted : MeltQuote
melted = quote_or no_quote melted_answer.0

abbrev pub after_melt : Mint toy
after_melt = melted_answer.1

abbrev asked_answer : Result MeltQuote × Mint toy
asked_answer = request_melt_quote toy working "lnbc9" "sat" none melting

abbrev pub asked : MeltQuote
asked = quote_or no_quote asked_answer.0

abbrev pub after_asking : Mint toy
after_asking = asked_answer.1

-- What the runs answer.
pub record Runs : Type 0 where
  pub swapped_run : swap toy working coins outputs fresh ≡ (ok (or_nothing swapped.0), swapped.1)
  pub coin_points : ys_of_proofs toy coins ≡ ok ("1" ∷ [])
  pub over_run :
      swap toy working coins (output 4 "a" ∷ []) fresh ≡ (err insufficient_proofs_amount, fresh)
  pub same_checked : check_swap toy working coins same_outputs fresh ≡ ok same_sigs
  pub same_saved : save_proofs (y_of toy) true coins fresh.db ≡ (ok tt, spent_db)
  pub minted_run :
      mint_tokens toy working "quote" outputs "" (quoted "UNPAID")
      ≡ (ok (or_nothing minted.0), minted.1)
  pub minted_some_lem : is_empty (or_nothing minted.0) ≡ false
  pub paid_found : get_mint_quote toy true "quote" (quoted "PAID").db ≡ ok paid_quote
  pub quote_once : count_id "quote" (quoted "PAID").db.mint_quotes ≡ 1
  pub over_checked :
      check_mint toy working paid_quote (output 4 "a" ∷ []) "" while_pending
      ≡ err outputs_over_quote_amount
  pub lost_checked : check_mint toy failing paid_quote outputs "" while_pending ≡ ok lost_sigs
  pub lost_saved :
      save_blind_signatures false
        (b_s_of outputs)
        lost_sigs
        (stated "quote" MintState.issued while_pending.db)
      ≡ (err db_error, stated "quote" MintState.issued while_pending.db)
  pub melted_run : melt_tokens toy working "melt" coins melting ≡ (ok melted, after_melt)
  pub asked_run :
      request_melt_quote toy working "lnbc9" "sat" none melting ≡ (ok asked, after_asking)
  pub melted_state : melted.state ≡ MeltState.paid

pub runs : Runs
unfolding gonuts.Cashu.wrapping_sum gonuts.Cashu.messages_amount gonuts.Cashu.signatures_amount
    gonuts.Cashu.proofs_amount gonuts.Cashu.Amounts.overflow_add_uint64
    gonuts.Cashu.Amounts.underflow_sub_uint64 gonuts.Cashu.Amounts.amount_checked
    gonuts.Cashu.Duplicates.seen_before gonuts.Cashu.Duplicates.duplicates_from
    gonuts.Cashu.Duplicates.check_duplicate_proofs
    gonuts.Cashu.Duplicates.check_duplicate_blinded_messages
    gonuts.Cashu.Duplicates.check_duplicate_signatures gonuts.Crypto.Bdhke.blind_message
    gonuts.Crypto.Bdhke.sign_blinded_message gonuts.Crypto.Bdhke.verify_point
    gonuts.Crypto.Bdhke.verify gonuts.Crypto.Bdhke.hash_e gonuts.Crypto.Bdhke.generate_dleq
    gonuts.Crypto.HashToCurve.candidate gonuts.Crypto.HashToCurve.rounds
    gonuts.Crypto.HashToCurve.hash_to_curve gonuts.Crypto.HashToCurve.y_of
    gonuts.Crypto.Keyset.key_for gonuts.Mint.find_keyset gonuts.Mint.Melt.settle_proofs
    gonuts.Mint.Melt.after_payment gonuts.Mint.Melt.pay gonuts.Mint.Melt.melt_internally
    gonuts.Mint.Melt.melt_pending gonuts.Mint.Melt.melt_tokens gonuts.Mint.Melt.Check.check_open
    gonuts.Mint.Melt.Check.check_melt gonuts.Mint.Melt.Request.request_melt_quote
    gonuts.Mint.Melt.Request.Check.new_melt_quote gonuts.Mint.MintTokens.get_mint_quote_state
    gonuts.Mint.MintTokens.restore gonuts.Mint.MintTokens.prepare_mint
    gonuts.Mint.MintTokens.finish_mint gonuts.Mint.MintTokens.issue
    gonuts.Mint.MintTokens.mint_by_state gonuts.Mint.MintTokens.mint_tokens
    gonuts.Mint.MintTokens.Check.check_quote_request
    gonuts.Mint.MintTokens.Check.verify_mint_quote_signature
    gonuts.Mint.MintTokens.Check.check_quote_signature gonuts.Mint.MintTokens.Check.check_mint
    gonuts.Mint.Outputs.signature gonuts.Mint.Outputs.sign_message
    gonuts.Mint.Outputs.sign_blinded_messages gonuts.Mint.Outputs.same_condition
    gonuts.Mint.Outputs.same_conditions gonuts.Mint.Outputs.signed_output
    gonuts.Mint.Outputs.signed_outputs gonuts.Mint.Outputs.verify_blinded_messages
    gonuts.Mint.Proofs.fees_from gonuts.Mint.Proofs.transaction_fees gonuts.Mint.Proofs.ys_of_proofs
    gonuts.Mint.Proofs.check_condition gonuts.Mint.Proofs.verify_proof
    gonuts.Mint.Proofs.verify_each gonuts.Mint.Proofs.verify_proofs gonuts.Mint.States.publish_spent
    gonuts.Mint.Swap.commit_swap gonuts.Mint.Swap.swap gonuts.Mint.Swap.Check.enough_for_outputs
    gonuts.Mint.Swap.Check.check_swap gonuts.Nuts.Conditions.check_refund
    gonuts.Nuts.Conditions.required_keys gonuts.Nuts.Conditions.check_signatures
    gonuts.Nuts.Conditions.check_locked gonuts.Nuts.Conditions.verify_p2pk_locked_proof
    gonuts.Nuts.Conditions.check_preimage gonuts.Nuts.Conditions.check_htlc_signatures
    gonuts.Nuts.Conditions.verify_htlc_proof gonuts.Nuts.Conditions.proofs_sig_all
    gonuts.Nuts.Secrets.kind_text gonuts.Nuts.Secrets.deserialize_secret
    gonuts.Nuts.Signatures.parse_signature gonuts.Nuts.Signatures.take_signer
    gonuts.Nuts.Signatures.count_signature gonuts.Nuts.Signatures.valid_signatures
    gonuts.Nuts.Signatures.has_valid_signatures gonuts.Nuts.States.mint_state_text
    gonuts.Nuts.States.mint_state_of gonuts.Nuts.States.melt_state_text
    gonuts.Nuts.States.melt_state_of gonuts.Nuts.Tags.is_sig_all_tags gonuts.Nuts.Tags.parse_key
    gonuts.Nuts.Tags.parse_keys gonuts.Nuts.Tags.parse_tag gonuts.Nuts.Tags.parse_tags_from
    gonuts.Nuts.Tags.parse_p2pk_tags gonuts.Nuts.Tags.public_keys gonuts.Prelude.Int.parse_int
    gonuts.Storage.BlindSignatures.rows_of gonuts.Storage.BlindSignatures.insert_signatures
    gonuts.Storage.BlindSignatures.save_blind_signatures
    gonuts.Storage.BlindSignatures.read_signature gonuts.Storage.BlindSignatures.find_b_
    gonuts.Storage.BlindSignatures.get_blind_signature gonuts.Storage.BlindSignatures.select_b_s
    gonuts.Storage.BlindSignatures.get_blind_signatures gonuts.Storage.MeltQuotes.find_id
    gonuts.Storage.MeltQuotes.find_request gonuts.Storage.MeltQuotes.set_state
    gonuts.Storage.MeltQuotes.count_id gonuts.Storage.MeltQuotes.update_melt_quote
    gonuts.Storage.MeltQuotes.row_of gonuts.Storage.MeltQuotes.save_melt_quote
    gonuts.Storage.MeltQuotes.read_melt_quote gonuts.Storage.MeltQuotes.get_melt_quote
    gonuts.Storage.MeltQuotes.get_melt_quote_by_payment_request gonuts.Storage.MintQuotes.find_id
    gonuts.Storage.MintQuotes.find_payment_hash gonuts.Storage.MintQuotes.set_state
    gonuts.Storage.MintQuotes.count_id gonuts.Storage.MintQuotes.update_mint_quote_state
    gonuts.Storage.MintQuotes.read_mint_quote gonuts.Storage.MintQuotes.get_mint_quote
    gonuts.Storage.MintQuotes.get_mint_quote_by_payment_hash gonuts.Storage.Proofs.insert_proof
    gonuts.Storage.Proofs.insert_proofs gonuts.Storage.Proofs.select_ys
    gonuts.Storage.Proofs.delete_ys gonuts.Storage.Proofs.get_proofs_used
    gonuts.Storage.Proofs.get_pending_proofs gonuts.Storage.Proofs.remove_pending_proofs
    gonuts.Storage.Proofs.rows_of gonuts.Storage.Proofs.save_proofs
    gonuts.Storage.Proofs.add_pending_proofs
runs = record {
  swapped_run = refl;
  coin_points = refl;
  over_run = refl;
  same_checked = refl;
  same_saved = refl;
  minted_run = refl;
  minted_some_lem = refl;
  paid_found = refl;
  quote_once = refl;
  over_checked = refl;
  lost_checked = refl;
  lost_saved = refl;
  melted_run = refl;
  asked_run = refl;
  melted_state = refl;
}

pub minted_some : ¬ (or_nothing minted.0 ≡ [])
minted_some e = cc (runs.minted_some_lem, ap is_empty e)
