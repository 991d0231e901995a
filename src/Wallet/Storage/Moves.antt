-- ===== src/Wallet/Storage/Moves.antt =====
-- wallet/storage/bolt.go: the loop of `UpdateKeysetMintURL` over the keysets of the old URL.
use gonuts.Prelude.{◌≡◌, ◌≢◌, sym, ap, ◌∙◌, String, some, List, [], ◌∷◌, All}
use gonuts.Library.{Library, Bytes}
use gonuts.Wallet.{
  WalletKeyset, answer, must_have, must_have-eq-answer, not_json, >>=-eq-answer, answer_injective,
}
use gonuts.Wallet.Storage.{Bolt, BoltLaws, move_keysets}

-- No key stands twice.
abbrev pub HasDistinctEntries : {V : Type 0} → List (Bytes × V) → Type 0
HasDistinctEntries [] = Unit
HasDistinctEntries ((key, v) ∷ rest) = All (λ entry. key ≢ entry.0) rest × HasDistinctEntries rest

module _ {lib : Library} (bolt : Bolt lib) where
  -- The keyset of an entry stands in a bucket, as it was except for its URL.
  abbrev pub IsMovedTo : String → bolt.Bucket bolt.Json → Bytes × bolt.Json → Type 0
  IsMovedTo url bucket entry =
      (keyset : WalletKeyset lib.PublicKey) × (text : bolt.Json) × (bolt.unmarshal_keyset entry.1
        ≡ some keyset)
      × (bolt.marshal_keyset (record {
        id = keyset.id;
        mint_url = url;
        unit = keyset.unit;
        active = keyset.active;
        public_keys = keyset.public_keys;
        counter = keyset.counter;
        input_fee_ppk = keyset.input_fee_ppk;
      })
          ≡ some text)
      × (bolt.get entry.0 bucket ≡ some text)

  -- All of them do, and the other keys are as they were.
  abbrev pub AreMoved :
      String → List (Bytes × bolt.Json) → bolt.Bucket bolt.Json → bolt.Bucket bolt.Json → Type 0
  AreMoved url moved before after =
      All (IsMovedTo url after) moved
      × ((key : Bytes)
          → All (λ entry. key ≢ entry.0) moved
          → bolt.get key after ≡ bolt.get key before)

  module _ (laws : BoltLaws bolt) where
    move_keysets-other :
        (url : String) (entries : List (Bytes × bolt.Json)) (before after : bolt.Bucket bolt.Json)
        (key : Bytes)
        → All (λ entry. key ≢ entry.0) entries
        → move_keysets bolt url entries before ≡ answer after
        → bolt.get key after ≡ bolt.get key before
    unfolding move_keysets
    move_keysets-other url [] before after key apart h =
        ap (bolt.get key) (sym (answer_injective h))
    move_keysets-other url ((id, text) ∷ rest) before after key apart h =
        let (keyset, e, h1) = >>=-eq-answer (must_have not_json (bolt.unmarshal_keyset text)) _ h in
        let (text', e', h2) = >>=-eq-answer (must_have not_json (bolt.marshal_keyset _)) _ h1 in
        move_keysets-other url rest (bolt.put id text' before) after key apart.1 h2
        ∙ laws.get-put_other key id text' before apart.0

    move_keysets-IsMovedTo :
        (url : String) (entries : List (Bytes × bolt.Json)) (before after : bolt.Bucket bolt.Json)
        → HasDistinctEntries entries
        → move_keysets bolt url entries before ≡ answer after
        → All (IsMovedTo url after) entries
    unfolding move_keysets
    move_keysets-IsMovedTo url [] before after distinct h = tt
    move_keysets-IsMovedTo url ((id, text) ∷ rest) before after distinct h =
        let (keyset, e, h1) = >>=-eq-answer (must_have not_json (bolt.unmarshal_keyset text)) _ h in
        let (text', e', h2) = >>=-eq-answer (must_have not_json (bolt.marshal_keyset _)) _ h1 in
        (
          (
            keyset,
            text',
            must_have-eq-answer not_json (bolt.unmarshal_keyset text) e,
            must_have-eq-answer not_json _ e',
            move_keysets-other url rest (bolt.put id text' before) after id distinct.0 h2
                ∙ laws.get-put id text' before,
          ),
          move_keysets-IsMovedTo url rest (bolt.put id text' before) after distinct.1 h2,
        )

    pub move_keysets-AreMoved :
        (url : String) (entries : List (Bytes × bolt.Json)) (before after : bolt.Bucket bolt.Json)
        → HasDistinctEntries entries
        → move_keysets bolt url entries before ≡ answer after
        → AreMoved url entries before after
    move_keysets-AreMoved url entries before after distinct h = (
      move_keysets-IsMovedTo url entries before after distinct h,
      λ key apart. move_keysets-other url entries before after key apart h,
    )
