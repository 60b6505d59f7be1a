-- ===== src/Validate/Codes.antt =====
-- validate/codes.go: the kinds of diagnostics.

pub data Code : Type 0 where
  -- catalog, host and entry rules
  spec_version host_member entry_member entry_artifact entry_duplicate entry_version : Code
  identifier_not_uri timestamp publisher_member extension_key nested_depth nested_invalid : Code
  digest_invalid entry_digest policy_urls : Code
  -- signature object rules
  signature_member signature_signer signature_expiry signature_form signature_malformed : Code
  signature_algorithm signature_b64 signature_type signature_expired signature_not_yet_valid : Code
  -- trust manifest rules
  manifest_contributor manifest_contributor_uri manifest_empty manifest_signed_member : Code
  manifest_signer subject_member subject_mismatch trust_schema_member attestation_member : Code
  provenance_member : Code
  -- did:web signer profile rules
  profile_signer profile_algorithm profile_key_id profile_header : Code
