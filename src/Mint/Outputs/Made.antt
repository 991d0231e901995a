-- ===== src/Mint/Outputs/Made.antt =====
-- What signBlindedMessages has read for each signature that it answers, and how the signature is
-- made of it.
use gonuts.Prelude.{
  ℕ, String, ◌+◌, ◌≡◌, refl, Option, none, some, List, [], ◌∷◌, str_eq, Bool-cases, inl, inr,
}
use gonuts.Errors.{
  Error, ok, err, >>=-eq-ok, ok_injective, unknown_keyset, invalid_b,
  inactive_keyset_signature_request,
}
use gonuts.Library.{Library, Bytes}
use gonuts.Cashu.{BlindedMessage, BlindedSignature, DleqProof}
use gonuts.Crypto.Bdhke.{sign_blinded_message}
use gonuts.Storage.{SignatureRow}
use gonuts.Storage.BlindSignatures.{rows_of}
use gonuts.Crypto.Keyset.{key_for}
use gonuts.Nuts.Dleq.{parse_point}
use gonuts.Mint.{Mint, World, find_keyset, require}
use gonuts.Mint.Outputs.{
  b_s_of, active_key, signature, sign_message, sign_from, sign_blinded_messages,
}

pub require-eq-ok :
    {A : Type 0} (e : Error) (o : Option A) {a : A} → require e o ≡ ok a → o ≡ some a
require-eq-ok e none h = cc
require-eq-ok e (some a) h = cc

module _ (lib : Library) where
  -- The key, the point and the signature of a message.
  pub record Made (m : Mint lib) (r : lib.PrivateKey) (msg : BlindedMessage)
      (sig : BlindedSignature) : Type 0 where
    pub k : lib.PrivateKey
    pub b_ : lib.PublicKey
    pub keyed : key_for msg.amount m.active_keyset.keys ≡ some k
    pub parsed : parse_point lib msg.b_ ≡ some b_
    pub made : signature lib m r msg k b_ ≡ sig

  -- The signatures of the messages, from the nonce at a position on.
  abbrev pub MadeFrom :
      World lib → Mint lib → ℕ → List BlindedMessage → List BlindedSignature → Type 0
  MadeFrom w m i [] [] = Unit
  MadeFrom w m i (msg ∷ msgs) (sig ∷ sigs) =
      Made m (w.nonce i) msg sig × MadeFrom w m (i + 1) msgs sigs
  MadeFrom w m i _ _ = ⊥

  pub parse_point-some :
      (text : String) (bytes : Bytes) (p : lib.PublicKey)
      → lib.decode_hex text ≡ some bytes
      → lib.parse_public_key bytes ≡ some p
      → parse_point lib text ≡ some p
  unfolding parse_point
  parse_point-some text bytes p e f = rw (e, parse_point) f

  active_key-eq-ok :
      (m : Mint lib) (msg : BlindedMessage) (k : lib.PrivateKey)
      → active_key lib m msg ≡ ok k
      → key_for msg.amount m.active_keyset.keys ≡ some k
  unfolding active_key
  active_key-eq-ok m msg k e = elim (Bool-cases (str_eq msg.id m.active_keyset.id)) [
    | inl here ↦ require-eq-ok _ (key_for msg.amount m.active_keyset.keys) (rw here at e)
    | inr other ↦ refused (rw other at e)
  ]
    where
      refused :
          err inactive_keyset_signature_request ≡ ok k
          → key_for msg.amount m.active_keyset.keys ≡ some k
      refused h = cc

  sign_message-Made :
      (m : Mint lib) (r : lib.PrivateKey) (msg : BlindedMessage) (sig : BlindedSignature)
      → sign_message lib m r msg ≡ ok sig
      → Made m r msg sig
  unfolding sign_message
  sign_message-Made m r msg sig h =
      let (known, e1, h1) = >>=-eq-ok (require unknown_keyset (find_keyset msg.id m.keysets)) _ h in
      let (k, e2, h2) = >>=-eq-ok (active_key lib m msg) _ h1 in
      let (bytes, e3, h3) = >>=-eq-ok (require invalid_b (lib.decode_hex msg.b_)) _ h2 in
      let (b_, e4, h4) = >>=-eq-ok (require invalid_b (lib.parse_public_key bytes)) _ h3 in
      record {
        k = k;
        b_ = b_;
        keyed = active_key-eq-ok m msg k e2;
        parsed =
            parse_point-some msg.b_ bytes b_ (require-eq-ok _ (lib.decode_hex msg.b_) e3)
              (require-eq-ok _ (lib.parse_public_key bytes) e4);
        made = ok_injective h4;
      }

  sign_from-MadeFrom :
      (w : World lib) (m : Mint lib) (i : ℕ) (messages : List BlindedMessage)
      (sigs : List BlindedSignature)
      → sign_from lib w m i messages ≡ ok sigs
      → MadeFrom w m i messages sigs
  unfolding sign_from
  sign_from-MadeFrom w m i [] sigs h = rw (← ok_injective h) tt
  sign_from-MadeFrom w m i (msg ∷ messages) sigs h =
      let (sig, signed, h1) = >>=-eq-ok (sign_message lib m (w.nonce i) msg) _ h in
      let (rest, others, h2) = >>=-eq-ok (sign_from lib w m (i + 1) messages) _ h1 in
      rw (← ok_injective h2) (
        sign_message-Made m (w.nonce i) msg sig signed,
        sign_from-MadeFrom w m (i + 1) messages rest others,
      )

  pub sign_blinded_messages-MadeFrom :
      (w : World lib) (m : Mint lib) (messages : List BlindedMessage) (sigs : List BlindedSignature)
      → sign_blinded_messages lib w m messages ≡ ok sigs
      → MadeFrom w m 0 messages sigs
  unfolding sign_blinded_messages
  sign_blinded_messages-MadeFrom w m messages sigs h = sign_from-MadeFrom w m 0 messages sigs h

  -- What a signature must be: the point of its output, times the mint's key for the amount of the
  -- output, under the identifier of the active keyset.
  abbrev pub IsSignature : Mint lib → BlindedMessage → BlindedSignature → Type 0
  IsSignature m msg sig =
      (k : lib.PrivateKey) × (b_ : lib.PublicKey) × (key_for msg.amount m.active_keyset.keys
        ≡ some k)
      × (parse_point lib msg.b_ ≡ some b_)
      × (sig.c_ ≡ lib.encode_hex (lib.serialize_compressed (lib.scalar_mult k b_)))
      × (sig.amount ≡ msg.amount)
      × (sig.id ≡ m.active_keyset.id)

  -- The row of a signature: under the `B_` of its output, with everything that is in it.
  abbrev pub IsRowOf : BlindedMessage → BlindedSignature → SignatureRow → Type 0
  IsRowOf msg sig row =
      (row.b_ ≡ msg.b_)
      × (row.c_ ≡ sig.c_)
      × (row.keyset_id ≡ sig.id)
      × (row.amount ≡ sig.amount)
      × ((d : DleqProof) × (sig.dleq ≡ some d) × (row.e ≡ some d.e) × (row.s ≡ some d.s))

  -- For each output one signature, and one row of it, in the same order.
  abbrev pub AreSigned :
      Mint lib → List BlindedMessage → List BlindedSignature → List SignatureRow → Type 0
  AreSigned m [] [] [] = Unit
  AreSigned m (msg ∷ msgs) (sig ∷ sigs) (row ∷ rows) =
      IsSignature m msg sig × IsRowOf msg sig row × AreSigned m msgs sigs rows
  AreSigned m _ _ _ = ⊥

  Made-IsSignature :
      (m : Mint lib) (r : lib.PrivateKey) (msg : BlindedMessage) (sig : BlindedSignature)
      → Made m r msg sig
      → IsSignature m msg sig
  unfolding signature sign_blinded_message
  Made-IsSignature m r msg sig made =
      rw (← made.made) (made.k, made.b_, made.keyed, made.parsed, refl, refl, refl)

  rows_of-cons :
      (m : Mint lib) (msg : BlindedMessage) (b_s : List String) (sig : BlindedSignature)
      (sigs : List BlindedSignature) (rows : List SignatureRow) (d : DleqProof)
      → sig.dleq ≡ some d
      → rows_of (msg.b_ ∷ b_s) (sig ∷ sigs) ≡ ok rows
      → (row : SignatureRow) × (rest : List SignatureRow) × (row ∷ rest ≡ rows)
        × (rows_of b_s sigs ≡ ok rest)
        × IsRowOf msg sig row
  unfolding rows_of
  rows_of-cons m msg b_s sig sigs rows d proof h =
      let (rest, stored, whole) = >>=-eq-ok (rows_of b_s sigs) _ (rw proof at h) in
      (_, rest, ok_injective whole, stored, (refl, refl, refl, refl, (d, proof, refl, refl)))

  dleq-Made :
      (m : Mint lib) (r : lib.PrivateKey) (msg : BlindedMessage) (sig : BlindedSignature)
      → Made m r msg sig
      → (d : DleqProof) × (sig.dleq ≡ some d)
  unfolding signature
  dleq-Made m r msg sig made = rw (← made.made) (_, refl)

  pub MadeFrom-AreSigned :
      (w : World lib) (m : Mint lib) (i : ℕ) (messages : List BlindedMessage)
      (sigs : List BlindedSignature) (rows : List SignatureRow)
      → MadeFrom w m i messages sigs
      → rows_of (b_s_of messages) sigs ≡ ok rows
      → AreSigned m messages sigs rows
  unfolding rows_of
  MadeFrom-AreSigned w m i [] [] rows made h = rw (← ok_injective h) tt
  MadeFrom-AreSigned w m i [] (sig ∷ sigs) rows made h = absurd made
  MadeFrom-AreSigned w m i (msg ∷ msgs) [] rows made h = absurd made
  MadeFrom-AreSigned w m i (msg ∷ msgs) (sig ∷ sigs) rows (here, later) h =
      let (d, proof) = dleq-Made m (w.nonce i) msg sig here in
      let (row, rest, whole, stored, is_row) =
        rows_of-cons m msg (b_s_of msgs) sig sigs rows d proof h in
      rw (← whole) (
        Made-IsSignature m (w.nonce i) msg sig here,
        is_row,
        MadeFrom-AreSigned w m (i + 1) msgs sigs rest later stored,
      )
