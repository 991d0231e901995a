-- ===== src/Mint/Kept/Writes.antt =====
-- Each write of a handler moves the database on.
use gonuts.Prelude.{String, Bool, List}
use gonuts.Library.{Library}
use gonuts.Cashu.{Proof, BlindedSignature}
use gonuts.Crypto.HashToCurve.{y_of}
use gonuts.Nuts.States.{MintState, MeltState}
use gonuts.Storage.{MintQuote, MeltQuote}
use gonuts.Storage.Proofs.{save_proofs, add_pending_proofs, remove_pending_proofs}
use gonuts.Storage.BlindSignatures.{save_blind_signatures}
use gonuts.Storage.MintQuotes.{update_mint_quote_state, save_mint_quote}
use gonuts.Storage.MeltQuotes.{update_melt_quote, save_melt_quote}
use gonuts.Storage.Later.{
  save_proofs-Later, add_pending_proofs-Later, remove_pending_proofs-Later,
  save_blind_signatures-Later, update_mint_quote_state-Later, update_melt_quote-Later,
  save_mint_quote-Later, save_melt_quote-Later,
}
use gonuts.Mint.{write}
use gonuts.Mint.Kept.{Keeps, Keeps-write}

module _ (lib : Library) (io : Bool) where
  pub Keeps-save_proofs :
      (proofs : List Proof) → Keeps {lib = lib} (write (save_proofs (y_of lib) io proofs))
  Keeps-save_proofs proofs =
      Keeps-write (save_proofs (y_of lib) io proofs) (save_proofs-Later (y_of lib) io proofs)

  pub Keeps-add_pending_proofs :
      (proofs : List Proof) (id : String)
      → Keeps {lib = lib} (write (add_pending_proofs (y_of lib) io proofs id))
  Keeps-add_pending_proofs proofs id =
      Keeps-write (add_pending_proofs (y_of lib) io proofs id)
        (add_pending_proofs-Later (y_of lib) io proofs id)

  pub Keeps-remove_pending_proofs :
      (ys : List String) → Keeps {lib = lib} (write (remove_pending_proofs io ys))
  Keeps-remove_pending_proofs ys =
      Keeps-write (remove_pending_proofs io ys) (remove_pending_proofs-Later io ys)

  pub Keeps-save_blind_signatures :
      (b_s : List String) (sigs : List BlindedSignature)
      → Keeps {lib = lib} (write (save_blind_signatures io b_s sigs))
  Keeps-save_blind_signatures b_s sigs =
      Keeps-write (save_blind_signatures io b_s sigs) (save_blind_signatures-Later io b_s sigs)

  pub Keeps-update_mint_quote_state :
      (id : String) (state : MintState)
      → Keeps {lib = lib} (write (update_mint_quote_state io id state))
  Keeps-update_mint_quote_state id state =
      Keeps-write (update_mint_quote_state io id state) (update_mint_quote_state-Later io id state)

  pub Keeps-update_melt_quote :
      (id preimage : String) (state : MeltState)
      → Keeps {lib = lib} (write (update_melt_quote io id preimage state))
  Keeps-update_melt_quote id preimage state =
      Keeps-write (update_melt_quote io id preimage state)
        (update_melt_quote-Later io id preimage state)

  pub Keeps-save_mint_quote :
      (quote : MintQuote lib.PublicKey) → Keeps {lib = lib} (write (save_mint_quote lib io quote))
  Keeps-save_mint_quote quote =
      Keeps-write (save_mint_quote lib io quote) (save_mint_quote-Later lib io quote)

  pub Keeps-save_melt_quote :
      (quote : MeltQuote) → Keeps {lib = lib} (write (save_melt_quote io quote))
  Keeps-save_melt_quote quote =
      Keeps-write (save_melt_quote io quote) (save_melt_quote-Later io quote)
