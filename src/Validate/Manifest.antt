-- ===== src/Validate/Manifest.antt =====
-- validate/manifest.go: trust manifests and what binds them to their entry.
pub mod Subjects
pub mod Rule
pub mod Trust
pub mod Advice
use ai_catalog_go.Prelude.{
  ok, err, [], List, Option, not, false, true, Bool, ℕ, any, is_empty, Either, is_some,
  if◌then◌else◌, ◌&&◌, ◌||◌, ◌∷◌, ◌++◌,
}
use ai_catalog_go.Validate.Report.{
  indexed, error_if, add_error, for_each, when_some, pass, Check, ◌>>◌,
}
use ai_catalog_go.Validate.Codes.{
  provenance_member, attestation_member, trust_schema_member, subject_mismatch, subject_member,
  manifest_signer, manifest_signed_member, manifest_empty, manifest_contributor_uri,
  manifest_contributor, entry_digest, digest_invalid,
}
use ai_catalog_go.Text.{codes, text_eq, Bytes}
use ai_catalog_go.Validate.Signature.{
  signature_current, manifest_jws_type, validate_signature, require,
}
use ai_catalog_go.Catalog.{
  Signature, Subject, TrustManifest, ProvenanceLink, Attestation, TrustSchema, CatalogEntry,
}
use ai_catalog_go.Json.{Json}
use ai_catalog_go.Catalog.Version.{Times}
use ai_catalog_go.Validate.Keys.{is_absolute_uri, validate_extension_keys}
use ai_catalog_go.Validate.Profile.{check_signer_profile, did_web_profile}
use ai_catalog_go.Trust.Digest.{parse_digest}
use ai_catalog_go.Jws.{parse, detached}

abbrev is_error {ℓ κ} : {E : Type ℓ} {A : Type κ} → Either E A → Bool
is_error (err e) = true
is_error (ok a) = false

unfoldable pub validate_digest : Bytes → Bytes → Check
validate_digest value path =
    if is_empty value then pass else error_if (is_error (parse_digest value)) digest_invalid path

unfoldable pub validate_subject : Option Subject → Bytes → Check
unfolding validate_digest require
validate_subject subject path = when_some subject λ s. do
  require subject_member
      ((codes "identifier", s.identifier)
        ∷ (codes "type", s.type)
        ∷ (codes "digest", s.digest)
        ∷ [])
      path
  validate_digest s.digest (path ++ codes ".digest")

-- one test of `subjectMismatches`: the member that disagrees, if it does
abbrev mismatch : Bool → Bytes → List Bytes
mismatch b member = if b then member ∷ [] else []

-- The members of the subject that disagree with the entry; their messages are left out.
unfoldable pub subject_mismatches : CatalogEntry → Subject → List Bytes
unfolding text_eq
subject_mismatches entry s =
    mismatch (not (is_empty s.identifier) && not (text_eq s.identifier entry.identifier))
      (codes "identifier")
    ++ (mismatch
          (not (is_empty s.type) && not (is_empty entry.type) && not (text_eq s.type entry.type))
          (codes "type")
        ++ (mismatch
              (not (is_empty s.digest)
                && not (is_empty entry.digest)
                && not (text_eq s.digest entry.digest))
              (codes "digest")
            ++ mismatch (not (text_eq s.version entry.version)) (codes "version")))

unfoldable pub validate_subject_binding : CatalogEntry → TrustManifest → Bytes → Check
unfolding subject_mismatches
validate_subject_binding entry manifest path = when_some manifest.subject λ s.
    for_each (λ _ member. add_error subject_mismatch (path ++ (codes ".subject." ++ member))) 0
      (subject_mismatches entry s)

unfoldable pub validate_trust_schema : Option TrustSchema → Bytes → Check
validate_trust_schema schema path = when_some schema λ s. do
  error_if (is_empty s.identifier) trust_schema_member (path ++ codes ".identifier")
  error_if (is_empty s.version) trust_schema_member (path ++ codes ".version")

unfoldable pub validate_attestations : List Attestation → Bytes → Check
unfolding validate_digest
validate_attestations attestations path =
    for_each
      (λ i a. do
        error_if (is_empty a.type) attestation_member
            (indexed path (codes ".attestations") i ++ codes ".type")
        error_if (is_empty a.uri) attestation_member
            (indexed path (codes ".attestations") i ++ codes ".uri")
        validate_digest a.digest (indexed path (codes ".attestations") i ++ codes ".digest"))
      0 attestations

unfoldable pub validate_provenance : List ProvenanceLink → Bytes → Check
unfolding validate_digest
validate_provenance provenance path =
    for_each
      (λ i l. do
        error_if (is_empty l.relation) provenance_member
            (indexed path (codes ".provenance") i ++ codes ".relation")
        error_if (is_empty l.source_id) provenance_member
            (indexed path (codes ".provenance") i ++ codes ".sourceId")
        validate_digest l.source_digest
            (indexed path (codes ".provenance") i ++ codes ".sourceDigest"))
      0 provenance

unfoldable pub validate_contributor : Bytes → Bytes → Check
validate_contributor contributor path =
    if is_empty contributor
    then add_error manifest_contributor path
    else if not (is_absolute_uri contributor)
    then add_error manifest_contributor_uri path
    else pass

unfoldable pub is_substantive : TrustManifest → Bool
is_substantive m =
    is_some m.signature
    || is_some m.trust_schema
    || not (is_empty m.attestations)
    || not (is_empty m.provenance)
    || not (is_empty m.extensions)

module _ (json : Json) (times : Times) where
  -- the block for a manifest that carries a signature
  unfoldable pub validate_signed : TrustManifest → Signature → Bytes → Check
  validate_signed m s path = do
    error_if (not (is_some m.subject)) manifest_signed_member (path ++ codes ".subject")
    validate_signature json times s manifest_jws_type (path ++ codes ".signature")
    error_if (not (is_empty s.signer) && not (text_eq s.signer m.contributor)) manifest_signer
        (path ++ codes ".signature.signer")

  unfoldable pub validate_trust_manifest : TrustManifest → Bytes → Check
  unfolding validate_signed validate_contributor is_substantive validate_subject
      validate_trust_schema validate_attestations validate_provenance validate_extension_keys
  validate_trust_manifest m path = do
    validate_extension_keys m.extensions (path ++ codes ".extensions")
    validate_contributor m.contributor (path ++ codes ".contributor")
    error_if (not (is_substantive m)) manifest_empty path
    when_some m.signature (λ s. validate_signed m s path)
    validate_subject m.subject (path ++ codes ".subject")
    validate_trust_schema m.trust_schema (path ++ codes ".trustSchema")
    validate_attestations m.attestations path
    validate_provenance m.provenance path

  -- the warnings about a signature of the did:web profile whose header parses
  unfoldable pub check_manifest_profile : ℕ → TrustManifest → Bytes → Check
  check_manifest_profile now m path = when_some m.signature λ s.
      if not (text_eq s.profile did_web_profile) || not (detached s.jws)
      then pass
      else when_some (parse json s.jws) λ h. do
        check_signer_profile s h (path ++ codes ".signature")
        signature_current times now s (path ++ codes ".signature")

  -- the body of the loop over the manifests of an entry
  unfoldable pub validate_manifest : ℕ → CatalogEntry → TrustManifest → Bytes → Check
  validate_manifest now entry m path = do
    validate_trust_manifest m path
    validate_subject_binding entry m path
    check_manifest_profile now m path

  unfoldable pub validate_entry_trust : ℕ → CatalogEntry → Bytes → Check
  unfolding validate_digest validate_manifest
  validate_entry_trust now entry path = do
    validate_digest entry.digest (path ++ codes ".digest")
    for_each (λ i m. validate_manifest now entry m (indexed path (codes ".trustManifests") i)) 0
        entry.trust_manifests
    error_if (any (λ m. is_some m.signature) entry.trust_manifests && is_empty entry.digest)
        entry_digest (path ++ codes ".digest")
