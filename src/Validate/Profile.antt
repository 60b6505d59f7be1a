-- ===== src/Validate/Profile.antt =====
-- validate/profile.go: the did:web signer profile. Its violations are warnings.
pub mod Rule
use ai_catalog_go.Prelude.{
  [], List, some, none, Option, not, false, Bool, is_empty, ◌&&◌, ◌∷◌, ◌++◌,
}
use ai_catalog_go.Validate.Report.{for_each, warn_if, Check, ◌>>◌}
use ai_catalog_go.Validate.Codes.{profile_header, profile_key_id, profile_algorithm, profile_signer}
use ai_catalog_go.Text.{text_eq, contains_any, codes, cut_prefix, Bytes}
use ai_catalog_go.Catalog.{CatalogEntry, Signature}
use ai_catalog_go.Jws.{has, forbidden, Header}
use ai_catalog_go.Identity.{root_did_web, did, publisher, valid_publisher}

abbrev pub did_web_profile : Bytes
did_web_profile = codes "did-web-v1"

abbrev pub profile_algorithm_name : Bytes
profile_algorithm_name = codes "ES256"

abbrev pub key_source_members : List Bytes
key_source_members = codes "jku" ∷ codes "jwk" ∷ codes "x5u" ∷ codes "x5c" ∷ []

-- the kid is the signer, `#` and a fragment that is not empty and holds none of `/?#`
abbrev pub good_fragment : Option Bytes → Bool
good_fragment none = false
good_fragment (some fragment) = not (is_empty fragment) && not (contains_any fragment (codes "/?#"))

unfoldable pub selects_fragment : Bytes → Bytes → Bool
unfolding cut_prefix contains_any
selects_fragment signer key_id = good_fragment (cut_prefix key_id (signer ++ codes "#"))

unfoldable pub check_signer_profile : Signature → Header → Bytes → Check
unfolding selects_fragment
check_signer_profile s h path = do
  warn_if (not (root_did_web s.signer)) profile_signer (path ++ codes ".signer")
  warn_if (not (text_eq h.algorithm profile_algorithm_name) && not (forbidden h.algorithm))
      profile_algorithm (path ++ codes ".jws")
  warn_if (not (selects_fragment s.signer h.key_id)) profile_key_id (path ++ codes ".jws")
  for_each (λ _ member. warn_if (has h member) profile_header (path ++ codes ".jws")) 0
      key_source_members

-- the signer is the did:web DID of the publisher in the entry's identifier
abbrev pub names_signer : Bytes → Option Bytes → Bool
names_signer signer none = false
names_signer signer (some p) = valid_publisher p && text_eq signer (did p)

unfoldable pub is_publisher : CatalogEntry → Bytes → Bool
is_publisher entry signer = names_signer signer (publisher entry.identifier)
