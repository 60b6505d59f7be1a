-- ===== src/Validate/Document/Walk.antt =====
-- The rules for one catalog, the ones nested in it apart, and the catalogs that a walk meets.
use ai_catalog_go.Prelude.{Memᴰ, [], List, some, true, ℕ, ◌+◌, ◌<◌, ◌⊎◌, ◌≡◌, ◌≢◌}
use ai_catalog_go.Json.{last_member, Json}
use ai_catalog_go.Catalog.{AiCatalog, is_nested_catalog, CatalogEntry, Publisher}
use ai_catalog_go.Text.{codes, Bytes}
use ai_catalog_go.Catalog.Version.{Times}
use ai_catalog_go.Validate.Keys.{policy_urls_key}
use ai_catalog_go.Validate.Report.Enforces.{IfSome, IfPresent}
use ai_catalog_go.Validate.SpecVersion.Rule.{IsSpecVersion}
use ai_catalog_go.Validate.Signature.Rule.{IsSignature, IsTimestamp}
use ai_catalog_go.Validate.Manifest.Rule.{HasExtensionKeys}
use ai_catalog_go.Jws.{find_member}
use ai_catalog_go.Validate.Signature.{catalog_jws_type}
use ai_catalog_go.Validate.Entries.Unique.{Unique}
use ai_catalog_go.Validate.Manifest.Trust.{IsTrusted}

-- A policy URLs extension: an object in which two members, where they are there, are strings.
pub record IsPolicy (json : Json) (raw : Bytes) : Type 0 where
  pub members : List (Bytes × Bytes)
  pub is_object : json.object raw ≡ some members
  pub privacy :
      (v : Bytes)
      → last_member (codes "privacyPolicyUrl") members ≡ some v
      → json.is_string v ≡ true
  pub terms :
      (v : Bytes)
      → last_member (codes "termsOfServiceUrl") members ≡ some v
      → json.is_string v ≡ true

pub record IsNamedPublisher (p : Publisher) : Type 0 where
  pub some_identifier : p.identifier ≢ []
  pub some_display_name : p.display_name ≢ []

-- The artifact is at an address or in the document, not both.
abbrev pub HasOneSource : CatalogEntry → Type 0
HasOneSource e = ((e.url ≢ []) × (e.content ≡ [])) ⊎ ((e.url ≡ []) × (e.content ≢ []))

-- The rules for an entry, what is nested in it apart.
pub record IsEntry (json : Json) (times : Times) (e : CatalogEntry) : Type 0 where
  pub some_identifier : e.identifier ≢ []
  pub some_type : e.type ≢ []
  pub one_source : HasOneSource e
  pub updated : IfPresent (IsTimestamp times) e.updated_at
  pub extension_keys : HasExtensionKeys e.extensions
  pub policy : IfSome (IsPolicy json) (find_member policy_urls_key e.extensions)
  pub publisher_valid : IfSome IsNamedPublisher e.publisher
  pub trust : IsTrusted json times e

-- The rule for a nested catalog at a depth: not too deep, and one that parses if it is inline.
abbrev pub NestsWell : Json → ℕ → ℕ → CatalogEntry → Type 0
NestsWell json max_depth depth e =
    (is_nested_catalog e ≡ true)
    → (depth < max_depth)
      × IfPresent (λ raw. (c : AiCatalog) × (json.catalog raw ≡ some c)) e.content

-- The rules for a catalog at a depth: its members and its entries.
pub record IsLevel (json : Json) (times : Times) (max_depth : ℕ) (c : AiCatalog) (depth : ℕ)
    : Type 0 where
  pub spec_version_valid : IsSpecVersion c.spec_version
  pub host_named : IfSome (λ h. h.display_name ≢ []) c.host
  pub signature_valid : IfSome (IsSignature json times catalog_jws_type) c.signature
  pub extension_keys : HasExtensionKeys c.extensions
  pub unique : Unique c.entries
  pub entries_valid :
      (e : CatalogEntry)
      → Memᴰ e c.entries
      → IsEntry json times e × NestsWell json max_depth depth e

-- A catalog that stands in another one, at its depth: the catalog itself, or one that stands in the
-- inline catalog of a nested entry.
pub data Inside (json : Json) : AiCatalog → ℕ → AiCatalog → ℕ → Type 0 where
  here : {c : AiCatalog} {depth : ℕ} → Inside json c depth c depth
  nested :
      {c d : AiCatalog} {depth depth' : ℕ} (e : CatalogEntry) (n : AiCatalog)
      → Memᴰ e c.entries
      → is_nested_catalog e ≡ true
      → e.content ≢ []
      → json.catalog e.content ≡ some n
      → Inside json n (depth + 1) d depth'
      → Inside json c depth d depth'

-- Every catalog that stands in a document follows the rules.
abbrev pub Conforms : Json → Times → ℕ → AiCatalog → ℕ → Type 0
Conforms json times max_depth c depth =
    (d : AiCatalog) (depth' : ℕ)
    → Inside json c depth d depth'
    → IsLevel json times max_depth d depth'
