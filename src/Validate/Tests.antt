-- ===== src/Validate/Tests.antt =====
-- The package validate at concrete documents.
use ai_catalog_go.Trust.Digest.{parse_digest}
use ai_catalog_go.Prelude.{is_empty, arith, [], none, false, true, refl, ◌∷◌, ◌↔◌, ◌≡◌, ◌≢◌}
use ai_catalog_go.Validate.Document.{
  empty_validator, validate_catalog, validate, trusted, discoverable, minimal,
}
use ai_catalog_go.Validate.Report.Enforces.{IfSome, Enforces}
use ai_catalog_go.Validate.Manifest.{
  check_manifest_profile, validate_subject_binding, validate_trust_manifest, validate_entry_trust,
}
use ai_catalog_go.Validate.SpecVersion.{validate_spec_version}
use ai_catalog_go.Validate.Keys.{
  validate_extension_keys, validate_policy_urls, is_absolute_uri, is_extension_key,
}
use ai_catalog_go.Validate.Samples.{
  inner, signature, signed_manifest, outer, stub_times, signed_entry, stub_json,
}
use ai_catalog_go.Validate.Signature.{
  signature_current, validate_timestamp, manifest_jws_type, validate_signature,
}
use ai_catalog_go.Validate.Entries.{validate_entry_uniqueness}
use ai_catalog_go.Text.{cut, codes}
use ai_catalog_go.Catalog.Samples.{weather_2, catalog_of, weather}
use ai_catalog_go.Validate.SpecVersion.Rule.{Enforces-validate_spec_version, IsSpecVersion}
use ai_catalog_go.Validate.Manifest.Trust.{Enforces-validate_entry_trust, IsTrusted}
use ai_catalog_go.Validate.Document.Walk.{Conforms}
use ai_catalog_go.Validate.Document.Fuel.{validate_catalog-enough}
use ai_catalog_go.Validate.Manifest.Rule.{Enforces-validate_trust_manifest, IsManifest}
use ai_catalog_go.Validate.Entries.Unique.{Enforces-validate_entry_uniqueness, Unique}
use ai_catalog_go.Validate.Document.Conforming.{validate-IsValid_iff}
use ai_catalog_go.Validate.Document.Level.{validate-level_iff}
use ai_catalog_go.Validate.Signature.Rule.{Enforces-validate_signature, IsSignature}
use ai_catalog_go.Validate.Report.{add_warning, add_error, when_some, for_each}
use ai_catalog_go.Catalog.Query.{has_prefix, contains_text}
use ai_catalog_go.Jws.{
  Header, forbidden, has, string_member, decode_members, parse, detached, find_member,
}
use ai_catalog_go.Base64.{base64_decode}
use ai_catalog_go.Validate.Profile.{check_signer_profile}
use ai_catalog_go.Identity.{root_did_web}
use ai_catalog_go.Trust.Digest.{parse_digest}
use ai_catalog_go.Validate.Report.Advises.{Advises}
use ai_catalog_go.Validate.Profile.Rule.{Advises-check_signer_profile, FollowsProfile}
use ai_catalog_go.Validate.Manifest.Advice.{Advises-check_manifest_profile, FollowsAdvice}

validate_tests :
    ((validate stub_json stub_times 0 4 outer).is_valid ≡ true)
    × ((validate stub_json stub_times 0 0 outer).is_valid ≡ false)
    × ((validate stub_json stub_times 0 4 outer).conformance_level ≡ discoverable)
    × ((validate stub_json stub_times 0 4 inner).is_valid ≡ true)
    × ((validate stub_json stub_times 0 4 inner).conformance_level ≡ minimal)
    × ((validate stub_json stub_times 0 4 (catalog_of (weather ∷ weather ∷ []))).is_valid ≡ false)
unfolding validate for_each contains_text has_prefix validate_entry_trust when_some
    validate_policy_urls find_member validate_extension_keys validate_timestamp
    validate_entry_uniqueness validate_spec_version add_error
validate_tests = (refl, refl, refl, refl, refl, refl)

-- A signed entry passes with no error and no warning.
signed_test :
    validate stub_json stub_times 1 4 (catalog_of (signed_entry ∷ []))
    ≡ record { is_valid = true; conformance_level = discoverable; errors = []; warnings = [] }
unfolding validate for_each contains_text has_prefix validate_entry_trust when_some
    validate_policy_urls find_member validate_extension_keys validate_timestamp
    validate_entry_uniqueness validate_spec_version add_error validate_signature
    validate_trust_manifest validate_subject_binding check_manifest_profile detached parse
    base64_decode cut decode_members string_member signature_current check_signer_profile has
    add_warning root_did_web parse_digest forbidden is_absolute_uri
signed_test = refl

validate-IsValid_iff_example :
    ((validate stub_json stub_times 0 4 outer).is_valid ≡ true)
    ↔ Conforms stub_json stub_times 4 outer 0
validate-IsValid_iff_example = validate-IsValid_iff stub_json stub_times 0 4 outer

validate-level_iff_example :
    (((validate stub_json stub_times 0 4 outer).conformance_level ≡ discoverable)
      ↔ (Conforms stub_json stub_times 4 outer 0 × (outer.host ≢ none)))
    × ((validate stub_json stub_times 0 4 outer).conformance_level ≢ trusted)
validate-level_iff_example = validate-level_iff stub_json stub_times 0 4 outer

validate_catalog-enough_example :
    validate_catalog stub_json stub_times 0 2 2 outer (codes "catalog") 0
    ≡ validate_catalog stub_json stub_times 0 2 7 outer (codes "catalog") 0
validate_catalog-enough_example =
    validate_catalog-enough stub_json stub_times 0 2 2 7 outer (codes "catalog") 0 (omega arith)
      (omega arith)

Enforces-validate_entry_trust_example :
    Enforces
      (validate_entry_trust stub_json stub_times 1 signed_entry (codes "e"))
      (IsTrusted stub_json stub_times signed_entry)
Enforces-validate_entry_trust_example =
    Enforces-validate_entry_trust stub_json stub_times 1 signed_entry (codes "e")

Enforces-validate_trust_manifest_example :
    Enforces
      (validate_trust_manifest stub_json stub_times signed_manifest (codes "m"))
      (IsManifest stub_json stub_times signed_manifest)
Enforces-validate_trust_manifest_example =
    Enforces-validate_trust_manifest stub_json stub_times signed_manifest (codes "m")

Enforces-validate_signature_example :
    Enforces
      (validate_signature stub_json stub_times signature manifest_jws_type (codes "s"))
      (IsSignature stub_json stub_times manifest_jws_type signature)
Enforces-validate_signature_example =
    Enforces-validate_signature stub_json stub_times signature manifest_jws_type (codes "s")

Enforces-validate_entry_uniqueness_example :
    Enforces
      (validate_entry_uniqueness (weather ∷ weather_2 ∷ weather ∷ []) (codes "c"))
      (Unique (weather ∷ weather_2 ∷ weather ∷ []))
Enforces-validate_entry_uniqueness_example =
    Enforces-validate_entry_uniqueness (weather ∷ weather_2 ∷ weather ∷ []) (codes "c")

-- The sign of the minor component is not tested.
spec_version_tests :
    (is_empty (validate_spec_version (codes "1.0") (codes "p") empty_validator).errors ≡ true)
    × (is_empty (validate_spec_version (codes "1.-5") (codes "p") empty_validator).errors ≡ true)
    × (is_empty (validate_spec_version (codes "-1.0") (codes "p") empty_validator).errors ≡ false)
    × (is_empty (validate_spec_version (codes "2.0") (codes "p") empty_validator).errors ≡ false)
    × (is_empty (validate_spec_version (codes "1") (codes "p") empty_validator).errors ≡ false)
unfolding validate_spec_version add_error
spec_version_tests = (refl, refl, refl, refl, refl)

Enforces-validate_spec_version_example :
    Enforces (validate_spec_version (codes "1.-5") (codes "p")) (IsSpecVersion (codes "1.-5"))
Enforces-validate_spec_version_example = Enforces-validate_spec_version (codes "1.-5") (codes "p")

key_tests :
    (is_extension_key (codes "com.example.score") ≡ true)
    × (is_extension_key (codes "score") ≡ false)
    × (is_extension_key (codes "https://acme.com/x") ≡ true)
    × (is_absolute_uri (codes "urn:x y") ≡ false)
unfolding is_extension_key is_absolute_uri
key_tests = (refl, refl, refl, refl)

abbrev protected : Header
protected = record {
  algorithm = codes "ES256";
  key_id = codes "did:web:acme.com#k";
  type = manifest_jws_type;
  members = codes "alg" ∷ codes "kid" ∷ codes "typ" ∷ [];
}

Advises-check_signer_profile_example :
    Advises
      (check_signer_profile signature protected (codes "s"))
      (FollowsProfile signature protected)
Advises-check_signer_profile_example = Advises-check_signer_profile signature protected (codes "s")

Advises-check_manifest_profile_example :
    Advises
      (check_manifest_profile stub_json stub_times 1 signed_manifest (codes "m"))
      (IfSome (FollowsAdvice stub_times stub_json 1) signed_manifest.signature)
Advises-check_manifest_profile_example =
    Advises-check_manifest_profile stub_times stub_json 1 signed_manifest (codes "m")
