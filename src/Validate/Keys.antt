-- ===== src/Validate/Keys.antt =====
-- validate/validate.go: extension keys, absolute URIs and the policy URLs extension.
pub mod Uris
use ai_catalog_go.Prelude.{
  [], List, some, none, Option, not, false, true, Bool, ℕ, all, if◌then◌else◌, ◌||◌, ◌∷◌,
}
use ai_catalog_go.Regex.{
  anything, class_not, literal, plus, optional, class, match, Regex, star, seq,
}
use ai_catalog_go.Validate.Codes.{policy_urls, extension_key}
use ai_catalog_go.Catalog.{Members}
use ai_catalog_go.Text.{text_eq, codes, Bytes}
use ai_catalog_go.Json.{last_member, Json}
use ai_catalog_go.Validate.Report.{error_if, when_some, for_each, Check}
use ai_catalog_go.Jws.{find_member}

abbrev pub letter_spans : List (ℕ × ℕ)
letter_spans = (b'A', b'Z') ∷ (b'a', b'z') ∷ []

abbrev pub letter : Regex
letter = class letter_spans

-- [A-Za-z0-9] and [A-Za-z0-9-]
abbrev alnum : Regex
alnum = class ((b'A', b'Z') ∷ (b'a', b'z') ∷ (b'0', b'9') ∷ [])

abbrev alnum_dash : Regex
alnum_dash = class ((b'A', b'Z') ∷ (b'a', b'z') ∷ (b'0', b'9') ∷ (b'-', b'-') ∷ [])

-- [A-Za-z][A-Za-z0-9+.\-]*
abbrev pub scheme_spans : List (ℕ × ℕ)
scheme_spans =
    (b'A', b'Z') ∷ (b'a', b'z') ∷ (b'0', b'9') ∷ (b'+', b'+') ∷ (b'.', b'.') ∷ (b'-', b'-') ∷ []

abbrev pub scheme : Regex
scheme = seq letter (star (class scheme_spans))

-- tab, line feed, form feed, carriage return and space: \s
abbrev pub space_spans : List (ℕ × ℕ)
space_spans = (9, 10) ∷ (12, 13) ∷ (b' ', b' ') ∷ []

abbrev pub authority_stops : List (ℕ × ℕ)
authority_stops = (b'/', b'/') ∷ (b'?', b'?') ∷ (b'#', b'#') ∷ space_spans

abbrev dns_label : Regex
dns_label = seq alnum (optional (seq (star alnum_dash) alnum))

-- ^label(\.label)+$
abbrev pub reverse_dns_key : Regex
reverse_dns_key = seq dns_label (plus (seq (class ((b'.', b'.') ∷ [])) dns_label))

-- ^scheme://[^/?#\s]+ with no anchor at the end
abbrev pub url_key : Regex
url_key = seq scheme (seq (literal (codes "://")) (seq (plus (class_not authority_stops)) anything))

-- ^scheme:\S+$
abbrev pub absolute_uri : Regex
absolute_uri = seq scheme (seq (class ((b':', b':') ∷ [])) (plus (class_not space_spans)))

unfoldable pub is_extension_key : Bytes → Bool
unfolding match
is_extension_key key = match url_key key || match reverse_dns_key key

unfoldable pub is_absolute_uri : Bytes → Bool
unfolding match
is_absolute_uri value = match absolute_uri value

-- The keys in order; the map is held in the order of its keys.
unfoldable pub validate_extension_keys : Members → Bytes → Check
validate_extension_keys extensions path =
    for_each (λ _ (m : Bytes × Bytes). error_if (not (is_extension_key m.0)) extension_key path) 0
      extensions

abbrev pub policy_urls_key : Bytes
policy_urls_key = codes "https://ai-catalog.org/extensions/policy-urls"

module _ (json : Json) where
  abbrev pub member_is_string : Option Bytes → Bool
  member_is_string none = true
  member_is_string (some raw) = json.is_string raw

  -- null is no object; every member is a string where it is present
  unfoldable pub policy_valid : Bytes → Bool
  policy_valid raw = elim (json.object raw) [
    | none ↦ false
    | some members ↦
        all (λ name. member_is_string (last_member name members))
          (codes "privacyPolicyUrl" ∷ codes "termsOfServiceUrl" ∷ [])
  ]

  unfoldable pub validate_policy_urls : Members → Bytes → Check
  validate_policy_urls extensions path =
      when_some (find_member policy_urls_key extensions)
        λ raw. error_if (not (policy_valid raw)) policy_urls path
