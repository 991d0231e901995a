-- ===== src/Nuts/Secrets.antt =====
-- cashu/nuts/nut10: well-known secrets.
use gonuts.Prelude.{String, Option, none, some, List, [], ◌∷◌, str_eq, if◌then◌else◌}
use gonuts.Library.{Library, SecretData}

-- nut10.SecretKind
pub data SecretKind : Type 0 where
  anyone_can_spend p2pk htlc : SecretKind

-- SecretKind.String
unfoldable pub kind_text : SecretKind → String
kind_text p2pk = "P2PK"
kind_text htlc = "HTLC"
kind_text anyone_can_spend = "anyonecanspend"

abbrev pub kind_of : String → SecretKind
kind_of kind =
    if str_eq kind "P2PK" then p2pk else if str_eq kind "HTLC" then htlc else anyone_can_spend

-- nut10.WellKnownSecret
pub record WellKnownSecret : Type 0 where
  pub kind : SecretKind
  pub content : SecretData

module _ (lib : Library) where
  open lib use {Raw, unmarshal_array, unmarshal_text, unmarshal_secret_data}

  with_kind : SecretKind → Option SecretData → Option WellKnownSecret
  with_kind k none = none
  with_kind k (some d) = some (record { kind = k; content = d })

  second_element : Raw → Option String → Option WellKnownSecret
  unfolding with_kind
  second_element raw none = none
  second_element raw (some k) = with_kind (kind_of k) (unmarshal_secret_data raw)

  elements : Option (List Raw) → Option WellKnownSecret
  unfolding second_element
  elements none = none
  elements (some []) = none
  elements (some (kind ∷ [])) = none
  elements (some (kind ∷ content ∷ rest)) = second_element content (unmarshal_text kind)

  -- DeserializeSecret; no caller looks at what the error says.
  unfoldable pub deserialize_secret : String → Option WellKnownSecret
  unfolding elements
  deserialize_secret text = elements (unmarshal_array text)
