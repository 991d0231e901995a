-- ===== src/Nuts/Tags.antt =====
-- cashu/nuts/nut11: the tags of a P2PK or HTLC secret.
use gonuts.Prelude.{
  ℕ, String, Bool, true, false, ◌&&◌, ◌||◌, Option, none, some, List, [], ◌∷◌, ◌++◌, ltb, str_eq,
  if◌then◌else◌, length,
}
use gonuts.Prelude.Int.{ℤ, pos, negsuc, parse_int}
use gonuts.Errors.{
  Result, ok, err, ◌>>=◌, ◌>>◌, return_if, too_many_tags, invalid_tag, invalid_sigflag,
  invalid_n_sigs, n_sigs_must_be_positive, invalid_locktime, nut11_invalid_public_key,
}
use gonuts.Library.{Library}
use gonuts.Nuts.Secrets.{SecretKind, WellKnownSecret, p2pk, htlc, anyone_can_spend}

-- IsSigAll
unfoldable pub is_sig_all_tags : List (List String) → Bool
is_sig_all_tags [] = false
is_sig_all_tags ((name ∷ value ∷ []) ∷ tags) =
    if str_eq name "sigflag" && str_eq value "SIG_ALL" then true else is_sig_all_tags tags
is_sig_all_tags (tag ∷ tags) = is_sig_all_tags tags

abbrev pub is_sig_all : WellKnownSecret → Bool
is_sig_all secret = is_sig_all_tags secret.content.tags

-- nut11.P2PKTags
pub record P2pkTags (K : Type 0) : Type 0 where
  pub sigflag : String
  pub n_sigs : ℕ
  pub pubkeys : List K
  pub locktime : ℤ
  pub refund : List K

abbrev pub no_tags : {K : Type 0} → P2pkTags K
no_tags = record { sigflag = ""; n_sigs = 0; pubkeys = []; locktime = pos 0; refund = [] }

-- ParseInt of n_sigs, and the test that it is not negative
abbrev checked_n_sigs : Option ℤ → Result ℕ
checked_n_sigs none = err invalid_n_sigs
checked_n_sigs (some (pos n)) = ok n
checked_n_sigs (some (negsuc n)) = err n_sigs_must_be_positive

abbrev checked_locktime : Option ℤ → Result ℤ
checked_locktime none = err invalid_locktime
checked_locktime (some n) = ok n

module _ (lib : Library) where
  open lib use {PublicKey, decode_hex, parse_public_key}

  -- nut11.ParsePublicKey
  unfoldable pub parse_key : String → Result PublicKey
  parse_key key = elim (decode_hex key) [
    | none ↦ err nut11_invalid_public_key
    | some bytes ↦ elim (parse_public_key bytes) [
      | none ↦ err nut11_invalid_public_key
      | some k ↦ ok k
    ]
  ]

  -- The loops over the keys of a `pubkeys` and of a `refund` tag.
  unfoldable pub parse_keys : List String → Result (List PublicKey)
  unfolding parse_key
  parse_keys [] = ok []
  parse_keys (key ∷ keys) = do k ← parse_key key; ks ← parse_keys keys; ok (k ∷ ks)

  -- One round of the loop of ParseP2PKTags: the tag's name, its first value and all its values.
  unfoldable pub parse_tag :
      P2pkTags PublicKey → String → String → List String → Result (P2pkTags PublicKey)
  unfolding parse_keys
  parse_tag tags name value values =
      if str_eq name "sigflag"
      then (if str_eq value "SIG_INPUTS" || str_eq value "SIG_ALL"
          then ok (record tags { sigflag = value })
          else err invalid_sigflag)
      else if str_eq name "n_sigs"
      then (do n ← checked_n_sigs (parse_int 8 value); ok (record tags { n_sigs = n }))
      else if str_eq name "pubkeys"
      then (do ks ← parse_keys values; ok (record tags { pubkeys = ks }))
      else if str_eq name "locktime"
      then (do t ← checked_locktime (parse_int 64 value); ok (record tags { locktime = t }))
      else if str_eq name "refund"
      then (do ks ← parse_keys values; ok (record tags { refund = ks }))
      else ok tags

  unfoldable pub parse_tags_from :
      P2pkTags PublicKey → List (List String) → Result (P2pkTags PublicKey)
  unfolding parse_tag
  parse_tags_from tags [] = ok tags
  parse_tags_from tags ((name ∷ value ∷ values) ∷ rest) = do
    tags' ← parse_tag tags name value (value ∷ values)
    parse_tags_from tags' rest
  parse_tags_from tags (tag ∷ rest) = err invalid_tag

  -- ParseP2PKTags
  unfoldable pub parse_p2pk_tags : List (List String) → Result (P2pkTags PublicKey)
  unfolding parse_tags_from
  parse_p2pk_tags tags = do
    return_if (ltb 5 (length tags)) too_many_tags
    parse_tags_from no_tags tags

  with_data_key : SecretKind → String → List PublicKey → Result (List PublicKey)
  unfolding parse_key
  with_data_key p2pk text keys = do k ← parse_key text; ok (keys ++ k ∷ [])
  with_data_key htlc text keys = ok keys
  with_data_key anyone_can_spend text keys = ok keys

  -- PublicKeys: the keys that can sign.
  unfoldable pub public_keys : WellKnownSecret → Result (List PublicKey)
  unfolding parse_p2pk_tags with_data_key
  public_keys secret = do
    tags ← parse_p2pk_tags secret.content.tags
    with_data_key secret.kind secret.content.text tags.pubkeys
