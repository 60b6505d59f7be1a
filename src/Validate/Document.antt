-- ===== src/Validate/Document.antt =====
-- validate/validate.go: a document and the catalogs nested in it. The walk over nested catalogs is
-- recursion on fuel: a catalog inside a nested entry is visited with one unit less, and none is
-- visited when there is none left. `Validate` starts with the maximal depth as its fuel; a
-- `maxDepth` below zero of the source acts as zero does.
pub mod Walk
pub mod Rules
pub mod Nested
pub mod Conforming
pub mod Fuel
pub mod Level
use ai_catalog_go.Prelude.{
  [], List, some, none, Option, not, Bool, suc, zero, ℕ, is_empty, is_some, leb, if◌then◌else◌,
  ◌&&◌, ◌||◌, ◌+◌, ◌++◌,
}
use ai_catalog_go.Validate.Report.{
  indexed, warn_if, for_each, add_error, error_if, when_some, pass, Check, Validator, Diagnostic,
  ◌>>◌,
}
use ai_catalog_go.Validate.Codes.{
  nested_invalid, nested_depth, publisher_member, identifier_not_uri, entry_artifact, entry_member,
  host_member, spec_version,
}
use ai_catalog_go.Catalog.{
  Signature, is_nested_catalog, AiCatalog, Publisher, CatalogEntry, HostInfo,
}
use ai_catalog_go.Json.{Json}
use ai_catalog_go.Text.{codes, Bytes}
use ai_catalog_go.Catalog.Version.{Times}
use ai_catalog_go.Validate.SpecVersion.{validate_spec_version}
use ai_catalog_go.Validate.Signature.{catalog_jws_type, validate_signature, validate_timestamp}
use ai_catalog_go.Validate.Keys.{validate_policy_urls, validate_extension_keys}
use ai_catalog_go.Validate.Entries.{validate_entry_uniqueness}
use ai_catalog_go.Validate.Manifest.{validate_entry_trust}
use ai_catalog_go.Catalog.Query.{contains_text}

pub data ConformanceLevel : Type 0 where
  minimal discoverable trusted : ConformanceLevel

pub record Result : Type 0 where
  pub is_valid : Bool
  pub conformance_level : ConformanceLevel
  pub errors : List Diagnostic
  pub warnings : List Diagnostic

unfoldable pub validate_host : Option HostInfo → Bytes → Check
validate_host host path =
    when_some host
      λ h. error_if (is_empty h.display_name) host_member (path ++ codes ".displayName")

unfoldable pub validate_required_entry_fields : CatalogEntry → Bytes → Check
validate_required_entry_fields entry path = do
  error_if (is_empty entry.identifier) entry_member (path ++ codes ".identifier")
  error_if (is_empty entry.type) entry_member (path ++ codes ".type")

unfoldable pub validate_publisher : Option Publisher → Bytes → Check
validate_publisher publisher path = when_some publisher λ p. do
  error_if (is_empty p.identifier) publisher_member (path ++ codes ".identifier")
  error_if (is_empty p.display_name) publisher_member (path ++ codes ".displayName")

unfoldable pub validate_artifact_source : CatalogEntry → Bytes → Check
validate_artifact_source entry path =
    let has_url = not (is_empty entry.url) in
    let has_content = not (is_empty entry.content) in
    if has_url && has_content
    then add_error entry_artifact path
    else if not has_url && not has_content
    then add_error entry_artifact path
    else pass

-- how a nested catalog is validated: the catalog, its path and its depth
abbrev pub Visit : Type 0
Visit = AiCatalog → Bytes → ℕ → Check

abbrev pub visit_parsed : Visit → Option AiCatalog → Bytes → ℕ → Check
visit_parsed visit none path depth = add_error nested_invalid path
visit_parsed visit (some nested) path depth = visit nested path (depth + 1)

abbrev pub empty_validator : Validator
empty_validator = record { errors = []; warnings = [] }

unfoldable pub level : Validator → AiCatalog → ConformanceLevel
level v c = if not (is_empty v.errors) || not (is_some c.host) then minimal else discoverable

module _ (json : Json) (times : Times) (now max_depth : ℕ) where
  unfoldable pub validate_nested_catalog : Visit → CatalogEntry → Bytes → ℕ → Check
  unfolding is_nested_catalog
  validate_nested_catalog visit entry path depth =
      if not (is_nested_catalog entry)
      then pass
      else if leb max_depth depth
      then add_error nested_depth path
      else if is_empty entry.content
      then pass
      else visit_parsed visit (json.catalog entry.content) (path ++ codes ".data") depth

  unfoldable pub validate_entry : Visit → CatalogEntry → Bytes → ℕ → Check
  unfolding validate_required_entry_fields validate_artifact_source validate_publisher
      validate_nested_catalog
  validate_entry visit entry path depth = do
    validate_required_entry_fields entry path
    validate_artifact_source entry path
    validate_timestamp times entry.updated_at (path ++ codes ".updatedAt")
    validate_extension_keys entry.extensions (path ++ codes ".extensions")
    validate_policy_urls json entry.extensions (path ++ codes ".extensions")
    validate_publisher entry.publisher (path ++ codes ".publisher")
    validate_entry_trust json times now entry path
    validate_nested_catalog visit entry path depth
    warn_if (not (is_empty entry.identifier) && not (contains_text entry.identifier (codes ":")))
        identifier_not_uri (path ++ codes ".identifier")

  abbrev pub validate_signed_catalog : Option Signature → Bytes → Check
  validate_signed_catalog signature path =
      when_some signature λ s. validate_signature json times s catalog_jws_type path

  -- `validateCatalog`, the validation of nested catalogs given
  unfoldable pub validate_level : Visit → Visit
  unfolding validate_host validate_entry
  validate_level visit c path depth = do
    validate_spec_version c.spec_version (path ++ codes ".specVersion")
    validate_host c.host (path ++ codes ".host")
    validate_signed_catalog c.signature (path ++ codes ".signature")
    validate_extension_keys c.extensions (path ++ codes ".extensions")
    validate_entry_uniqueness c.entries path
    for_each (λ i e. validate_entry visit e (indexed path (codes ".entries") i) depth) 0 c.entries

  unfoldable pub validate_catalog : ℕ → Visit
  unfolding validate_level
  validate_catalog zero = validate_level (λ _ _ _. pass)
  validate_catalog (suc fuel) = validate_level (validate_catalog fuel)

  unfoldable pub validate : AiCatalog → Result
  unfolding validate_catalog level
  validate c =
      let v = validate_catalog max_depth c (codes "catalog") 0 empty_validator in
      record {
        is_valid = is_empty v.errors;
        conformance_level = level v c;
        errors = v.errors;
        warnings = v.warnings;
      }
