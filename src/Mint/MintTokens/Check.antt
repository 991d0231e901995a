-- ===== src/Mint/MintTokens/Check.antt =====
-- mint/mint.go: the checks of `RequestMintQuote`, and those of `MintTokens` on a paid quote, with
-- the signatures of its outputs.
use Prim.Native.String.{len}
use gonuts.Prelude.{
  ℕ, ◌+◌, ◌%◌, String, Bool, not, ◌&&◌, Option, none, some, List, [], ◌∷◌, ◌++◌, ltb, ◌==◌, str_eq,
  if◌then◌else◌, is_empty, u64_mod,
}
use gonuts.Errors.{
  Result, ok, ◌>>=◌, ◌>>◌, return_if, unit_not_supported, invalid_public_key, mint_amount_exceeded,
  minting_disabled, duplicate_outputs, outputs_over_quote_amount, blinded_message_already_signed,
  mint_quote_invalid_sig,
}
use gonuts.Library.{Library, Bytes}
use gonuts.Cashu.{BlindedMessage, BlindedSignature, message_amounts}
use gonuts.Cashu.Amounts.{amount_checked}
use gonuts.Cashu.Duplicates.{check_duplicate_blinded_messages}
use gonuts.Storage.{MintQuote}
use gonuts.Storage.Balance.{total_balance}
use gonuts.Storage.BlindSignatures.{get_blind_signatures}
use gonuts.Mint.{Mint, World, require}
use gonuts.Mint.Outputs.{b_s_of, sign_blinded_messages}

module _ (lib : Library) where
  open lib use {
    PublicKey, Signature, bytes_of, decode_hex, sha256, parse_public_key, parse_schnorr,
    verify_schnorr,
  }

  -- The optional key of a quote request.
  request_key : String → Result (Option PublicKey)
  request_key pubkey =
      if ltb 0 (len pubkey)
      then (do
        bytes ← require invalid_public_key (decode_hex pubkey)
        k ← require invalid_public_key (parse_public_key bytes)
        ok (some k))
      else ok none

  -- `balance+requestAmount > m.limits.MaxBalance`, on `uint64`
  check_balance : World lib → Mint lib → ℕ → Result (Unit {0})
  check_balance w m amount =
      if ltb 0 m.limits.max_balance
      then (do
        balance ← total_balance (w.io 0) (w.io 1) m.db
        return_if (ltb m.limits.max_balance ((balance + amount) % u64_mod)) minting_disabled)
      else ok tt

  unfoldable pub check_quote_request :
      World lib → ℕ → String → String → Mint lib → Result (Option PublicKey)
  unfolding request_key check_balance
  check_quote_request w amount unit pubkey m = do
    return_if (not (str_eq unit "sat")) unit_not_supported
    key ← request_key pubkey
    return_if (ltb 0 m.limits.mint_max_amount && ltb m.limits.mint_max_amount amount)
        mint_amount_exceeded
    check_balance w m amount
    ok key

  message_bytes : List BlindedMessage → Bytes
  message_bytes [] = []
  message_bytes (m ∷ ms) = bytes_of m.b_ ++ message_bytes ms

  -- nut20.VerifyMintQuoteSignature
  unfoldable pub verify_mint_quote_signature :
      Signature → String → List BlindedMessage → PublicKey → Bool
  unfolding message_bytes
  verify_mint_quote_signature sig quote_id messages key =
      verify_schnorr sig (sha256 (bytes_of quote_id ++ message_bytes messages)) key

  -- The signature of a quote that was requested with a key.
  unfoldable pub check_quote_signature :
      Option PublicKey → String → List BlindedMessage → String → Result (Unit {0})
  unfolding verify_mint_quote_signature
  check_quote_signature none quote_id messages sig = ok tt
  check_quote_signature (some key) quote_id messages sig = do
    return_if (len sig == 0) mint_quote_invalid_sig
    bytes ← require mint_quote_invalid_sig (decode_hex sig)
    parsed ← require mint_quote_invalid_sig (parse_schnorr bytes)
    return_if (not (verify_mint_quote_signature parsed quote_id messages key))
        mint_quote_invalid_sig

  -- The query of the signatures is call 3 of MintTokens.
  unfoldable pub check_mint :
      World lib
      → MintQuote PublicKey
      → List BlindedMessage
      → String
      → Mint lib
      → Result (List BlindedSignature)
  unfolding check_quote_signature
  check_mint w quote messages sig m = do
    total ← amount_checked 0 (message_amounts messages)
    return_if (check_duplicate_blinded_messages messages) duplicate_outputs
    return_if (ltb quote.amount total) outputs_over_quote_amount
    signed ← get_blind_signatures (w.io 3) (b_s_of messages) m.db
    return_if (not (is_empty signed)) blinded_message_already_signed
    check_quote_signature quote.pubkey quote.id messages sig
    sign_blinded_messages lib w m messages
