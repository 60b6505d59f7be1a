-- ===== src/Validate/Verify/Document/Tests.antt =====
-- Verification at a concrete document.
use ai_catalog_go.Validate.Report.{add_warning, add_error, when_some, for_each}
use ai_catalog_go.Json.{last_member}
use ai_catalog_go.Trust.Es256.Key.{
  parse_members, text_member, check_key_use, parse_es256_key, coordinate,
}
use ai_catalog_go.Validate.Manifest.{
  check_manifest_profile, validate_subject_binding, validate_trust_manifest, validate_entry_trust,
  subject_mismatches,
}
use ai_catalog_go.Trust.Canonical.{canonicalize_for_signature, canonicalize}
use ai_catalog_go.Trust.Es256.{verify_es256, check_jws_parts, check_raw, header_allowed}
use ai_catalog_go.Trust.Digest.{verify_digest, verify_bytes, parse_digest}
use ai_catalog_go.Base64.{base64_decode}
use ai_catalog_go.Validate.Did.{
  only_method, method_key, did_document_url, select_key, methods_of, resolve_reference,
}
use ai_catalog_go.Jws.{forbidden, find_member, string_member, has, parse, decode_members, detached}
use ai_catalog_go.Identity.{valid_publisher, did, publisher, root_did_web}
use ai_catalog_go.Validate.Profile.{check_signer_profile, is_publisher, selects_fragment}
use ai_catalog_go.Prelude.{
  All, length, ◌∙◌, ◌+◌, ◌≤◌, ◌↔◌, ap, ok, [], some, none, false, true, refl, ◌∷◌, ◌≡◌,
}
use ai_catalog_go.Validate.Document.{discoverable, validate, trusted}
use ai_catalog_go.Validate.Verify.{unverifiable, release, Log, EntryTrust, ManifestTrust, verified}
use ai_catalog_go.Validate.Verify.Document.Requests.{verify-IsRequest, requests_for, IsRequest}
use ai_catalog_go.Validate.Verify.Document.{
  verify_manifests, verify_entry, verify_entries, verified_level, verify, Verification,
}
use ai_catalog_go.Text.{cut, text_eq, codes}
use ai_catalog_go.Validate.Verify.Samples.{
  manifest_text, full_signature, full_entry, raw_entry, document_text, options, fetch, full_catalog,
  services,
}
use ai_catalog_go.Validate.Verify.Signer.{check_signature}
use ai_catalog_go.Validate.Verify.Artifact.{check_artifact}
use ai_catalog_go.Catalog.Query.{has_prefix, contains_text}
use ai_catalog_go.Validate.Keys.{is_absolute_uri, validate_extension_keys, validate_policy_urls}
use ai_catalog_go.Validate.Signature.{
  manifest_jws_type, signature_current, validate_signature, validate_timestamp,
}
use ai_catalog_go.Validate.Entries.{validate_entry_uniqueness}
use ai_catalog_go.Validate.SpecVersion.{validate_spec_version}
use ai_catalog_go.Validate.Verify.Document.Runs.{verify-report, report}
use ai_catalog_go.Validate.Verify.Document.Trusted.{verify-trusted_iff, IsTrusted}
use ai_catalog_go.Validate.Verify.Artifact.Content.{check_artifact_iff, AsksHttps, HasArtifact}
use ai_catalog_go.Validate.Verify.Signer.Verdict.{check_signature_iff, CannotTell, IsSigned}
use ai_catalog_go.Validate.Verify.Document.Returns.{verify-returns_iff, IsReadable}

abbrev verified_manifest : ManifestTrust
verified_manifest = record {
  index = 0;
  contributor = codes "did:web:acme.com";
  signer = codes "did:web:acme.com";
  signature = some verified;
  release = some verified;
  publisher = true;
}

abbrev verified_entry : EntryTrust
verified_entry = record {
  index = 0;
  identifier = codes "urn:air:acme.com:signed";
  manifests = verified_manifest ∷ [];
  artifact = some verified;
  publisher_endorsed = true;
  publisher_failed = false;
}

abbrev verification : Verification
verification = record {
  validation = validate services.json services.times 1 4 full_catalog;
  conformance_level = trusted;
  catalog_signature = none;
  catalog_authorized = false;
  entries = verified_entry ∷ [];
}

abbrev requests : Log
requests = codes "https://acme.com/s" ∷ codes "https://acme.com/.well-known/did.json" ∷ []

entries_test :
    verify_entries services fetch options 0 full_catalog.entries (raw_entry ∷ []) []
    ≡ some (verified_entry ∷ [], requests)
unfolding verify_entries verify_entry verify_manifests check_signature check_artifact
    selects_fragment root_did_web detached publisher resolve_reference is_publisher did methods_of
    valid_publisher decode_members select_key parse base64_decode has string_member did_document_url
    text_eq parse_digest method_key header_allowed canonicalize check_raw verify_bytes
    check_jws_parts subject_mismatches canonicalize_for_signature coordinate last_member
    parse_es256_key check_key_use text_member parse_members verify_digest only_method verify_es256
    release
entries_test = refl

level_test :
    (validate services.json services.times 1 4 full_catalog).conformance_level ≡ discoverable
unfolding validate for_each contains_text has_prefix validate_entry_trust when_some
    validate_policy_urls find_member validate_extension_keys validate_timestamp
    validate_entry_uniqueness validate_spec_version add_error validate_signature
    validate_trust_manifest validate_subject_binding check_manifest_profile detached parse
    base64_decode cut decode_members string_member signature_current check_signer_profile has
    add_warning root_did_web parse_digest forbidden is_absolute_uri
level_test = refl

reported :
    report services fetch options document_text full_catalog (verified_entry ∷ []) ≡ verification
unfolding verified_level
reported = rw level_test refl

verify_test : verify services fetch options document_text ≡ ok (verification, requests)
unfolding text_eq
verify_test =
    verify-report services fetch options document_text full_catalog (raw_entry ∷ [])
      (verified_entry ∷ []) requests refl refl entries_test
    ∙ ap (λ v. ok (v, requests)) reported

verify-trusted_iff_example :
    (verification.conformance_level ≡ trusted)
    ↔ IsTrusted services fetch options document_text full_catalog (raw_entry ∷ [])
unfolding text_eq
verify-trusted_iff_example =
    verify-trusted_iff services fetch options document_text full_catalog (raw_entry ∷ [])
      verification requests refl refl verify_test

verify-IsRequest_example :
    All (IsRequest services fetch options) requests
    × (length requests ≤ 1 + requests_for services fetch options full_catalog.entries)
unfolding text_eq
verify-IsRequest_example =
    verify-IsRequest services fetch options document_text full_catalog verification requests refl
      verify_test

check_signature_iff_example :
    (((check_signature services 1 fetch full_signature manifest_jws_type manifest_text []).0
        ≡ verified)
      ↔ IsSigned services 1 fetch full_signature manifest_jws_type manifest_text [])
    × (((check_signature services 1 fetch full_signature manifest_jws_type manifest_text []).0
          ≡ unverifiable)
        ↔ CannotTell services 1 fetch full_signature manifest_jws_type manifest_text [])
check_signature_iff_example =
    check_signature_iff services 1 fetch full_signature manifest_jws_type manifest_text []

check_artifact_iff_example :
    (((check_artifact services fetch none full_entry [] []).0 ≡ verified)
      ↔ HasArtifact services fetch none full_entry [] [])
    × AsksHttps services fetch none full_entry [] []
        (check_artifact services fetch none full_entry [] []).1
check_artifact_iff_example = check_artifact_iff services fetch none full_entry [] []

verify-returns_iff_example :
    ((v : Verification) × (log : Log) × (verify services fetch options document_text ≡ ok (v, log)))
    ↔ IsReadable services fetch options document_text
verify-returns_iff_example = verify-returns_iff services fetch options document_text
