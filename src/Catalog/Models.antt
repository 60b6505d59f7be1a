-- ===== src/Catalog/Models.antt =====
-- catalog/models.go, and the types of catalog/catalog.go and catalog/entry.go. A Go string, a
-- `json.RawMessage` and a `[]byte` are their bytes, `""` and `nil` the empty list; a pointer is an
-- `Option`; a map is its members in the order of their keys.
use ai_catalog_go.Prelude.{List, Option, ℕ}
use ai_catalog_go.Text.{Bytes}

abbrev pub Members : Type 0
Members = List (Bytes × Bytes)

pub record HostInfo : Type 0 where
  pub display_name : Bytes
  pub identifier : Bytes
  pub documentation_url : Bytes
  pub logo_url : Bytes

pub record Publisher : Type 0 where
  pub identifier : Bytes
  pub display_name : Bytes
  pub identity_type : Bytes

-- Binds a trust manifest to the artifact it describes.
pub record Subject : Type 0 where
  pub identifier : Bytes
  pub version : Bytes
  pub type : Bytes
  pub digest : Bytes

pub record Signature : Type 0 where
  pub signer : Bytes
  pub profile : Bytes
  pub issued_at : Bytes
  pub expires_at : Bytes
  pub jws : Bytes

pub record TrustSchema : Type 0 where
  pub identifier : Bytes
  pub version : Bytes
  pub governance_uri : Bytes
  pub verification_methods : List Bytes

pub record Attestation : Type 0 where
  pub type : Bytes
  pub uri : Bytes
  pub digest : Bytes
  pub size : Option ℕ
  pub description : Bytes

pub record ProvenanceLink : Type 0 where
  pub relation : Bytes
  pub source_id : Bytes
  pub source_digest : Bytes
  pub registry_uri : Bytes
  pub statement_uri : Bytes
  pub signature_ref : Bytes

pub record TrustManifest : Type 0 where
  pub contributor : Bytes
  pub subject : Option Subject
  pub signature : Option Signature
  pub additional_signatures : Bytes
  pub trust_schema : Option TrustSchema
  pub attestations : List Attestation
  pub provenance : List ProvenanceLink
  pub extensions : Members
  pub raw : Bytes

pub record CatalogEntry : Type 0 where
  pub identifier : Bytes
  pub display_name : Bytes
  pub type : Bytes
  pub url : Bytes
  pub content : Bytes
  pub version : Bytes
  pub description : Bytes
  pub tags : List Bytes
  pub publisher : Option Publisher
  pub digest : Bytes
  pub trust_manifests : List TrustManifest
  pub updated_at : Bytes
  pub extensions : Members

pub record AiCatalog : Type 0 where
  pub spec_version : Bytes
  pub host : Option HostInfo
  pub entries : List CatalogEntry
  pub signature : Option Signature
  pub additional_signatures : Bytes
  pub extensions : Members
