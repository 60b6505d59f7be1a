-- ===== src/Validate/Verify.antt =====
-- validate/verify.go: the verification of signatures and artifacts. What goes out is kept in a log:
-- the requests made so far, the last one first, on which the reply of the fetcher may depend.
pub mod Signer
pub mod Artifact
pub mod Release
mod Samples
pub mod Document
use ai_catalog_go.Prelude.{
  List, some, none, Option, not, false, true, Bool, ℕ, is_empty, if◌then◌else◌, ◌&&◌, ◌||◌,
}
use ai_catalog_go.Json.{Json}
use ai_catalog_go.Text.{text_eq, Bytes}
use ai_catalog_go.Catalog.{Signature, TrustManifest, Subject, CatalogEntry}
use ai_catalog_go.Validate.Did.{DidJson}
use ai_catalog_go.Trust.Canonical.{Jcs}
use ai_catalog_go.Validate.Manifest.{subject_mismatches}
use ai_catalog_go.Trust.Digest.{Hashes}
use ai_catalog_go.Trust.Es256.{Ecdsa}
use ai_catalog_go.Catalog.Version.{Times}

-- What `rawCatalog` keeps of an entry: the bytes of its data and of its manifests.
pub record RawEntry : Type 0 where
  pub content : Bytes
  pub trust_manifests : List Bytes

-- The parts that verification is built from: libraries, and the packages they are handed to.
pub record Services (Url Key : Type 0) : Type 0 where
  pub json : Json
  pub did_json : DidJson
  -- `json.Unmarshal` into a `rawCatalog`
  pub raw_catalog : Bytes → Option (List RawEntry)
  pub jcs : Jcs
  pub hashes : Hashes
  pub ecdsa : Ecdsa Key
  pub times : Times
  -- net/url: `Parse`, `Scheme`, `String` and `ResolveReference`
  pub parse_url : Bytes → Option Url
  pub scheme : Url → Bytes
  pub url_text : Url → Bytes
  pub resolve : Url → Url → Url

-- A `Fetcher`: the requests before, and the address.
abbrev pub Log : Type 0
Log = List Bytes

abbrev pub Fetch : Type 0
Fetch = Log → Bytes → Option Bytes

pub data Status : Type 0 where
  verified failed unverifiable : Status

-- `(*Outcome).Verified` and `(*Outcome).Failed`; the reason of an outcome is left out
abbrev pub is_verified : Option Status → Bool
is_verified (some verified) = true
is_verified (some failed) = false
is_verified (some unverifiable) = false
is_verified none = false

abbrev pub is_failed : Option Status → Bool
is_failed (some failed) = true
is_failed (some verified) = false
is_failed (some unverifiable) = false
is_failed none = false

pub record ManifestTrust : Type 0 where
  pub index : ℕ
  pub contributor : Bytes
  pub signer : Bytes
  pub signature : Option Status
  pub release : Option Status
  pub publisher : Bool

pub record EntryTrust : Type 0 where
  pub index : ℕ
  pub identifier : Bytes
  pub manifests : List ManifestTrust
  pub artifact : Option Status
  pub publisher_endorsed : Bool
  pub publisher_failed : Bool

abbrev pub accepted : ManifestTrust → Bool
accepted m = is_verified m.signature && is_verified m.release

abbrev pub manifest_failed : ManifestTrust → Bool
manifest_failed m = is_failed m.signature || is_failed m.release

-- `release`: Entry Release Coverage
unfoldable pub release_subject : CatalogEntry → Option Subject → Status
release_subject entry none = failed
release_subject entry (some s) =
    if is_empty s.identifier || is_empty s.type || is_empty s.digest
    then failed
    else if not (is_empty (subject_mismatches entry s))
    then failed
    else verified

unfoldable pub release : CatalogEntry → TrustManifest → Signature → Status
unfolding release_subject
release entry manifest signature =
    if not (text_eq signature.signer manifest.contributor)
    then failed
    else if is_empty entry.digest
    then failed
    else release_subject entry manifest.subject
