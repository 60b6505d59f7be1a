-- ===== src/Validate/Verify/Signer.antt =====
-- validate/verify.go: `checkSignature`, with `checkHeader` and `checkTime`.
pub mod Signed
pub mod Outcome
pub mod Verdict
use ai_catalog_go.Prelude.{
  some, none, Option, not, false, Bool, ℕ, any, is_empty, is_some, ltb, ◌>>=◌, if◌then◌else◌, ◌&&◌,
  ◌||◌, ◌∷◌,
}
use ai_catalog_go.Validate.Report.{◌>>◌}
use ai_catalog_go.Validate.Verify.{Log, Status, Fetch, Services, unverifiable, failed, verified}
use ai_catalog_go.Catalog.{Signature}
use ai_catalog_go.Text.{text_eq, Bytes}
use ai_catalog_go.Jws.{has, parse, detached, Header}
use ai_catalog_go.Validate.Did.{did_document_url, select_key}
use ai_catalog_go.Validate.Profile.{
  selects_fragment, key_source_members, did_web_profile, profile_algorithm_name,
}
use ai_catalog_go.Trust.Es256.Key.{parse_es256_key}
use ai_catalog_go.Trust.Canonical.{canonicalize_for_signature}
use ai_catalog_go.Trust.Es256.{verify_es256}
use ai_catalog_go.Identity.{root_did_web}

module _ {Url Key : Type 0} (services : Services Url Key) where
  open services use {json, did_json, jcs, hashes, ecdsa, times}

  -- the tests on a header that was parsed
  unfoldable pub header_accepted : Signature → Bytes → Header → Bool
  header_accepted s typ h =
      text_eq h.algorithm profile_algorithm_name
      && text_eq h.type typ
      && not (any (λ member. has h member) key_source_members)
      && root_did_web s.signer
      && selects_fragment s.signer h.key_id

  abbrev pub accept_header : Signature → Bytes → Option Header → Option Header
  accept_header s typ none = none
  accept_header s typ (some h) = if header_accepted s typ h then some h else none

  -- `none` is a failed check
  unfoldable pub checked_header : Signature → Bytes → Option Header
  unfolding header_accepted
  checked_header s typ =
      if not (detached s.jws) then none else accept_header s typ (parse json s.jws)

  abbrev pub after_now : ℕ → Option ℕ → Bool
  after_now now none = false
  after_now now (some t) = ltb now t

  abbrev pub not_after_now : ℕ → Option ℕ → Bool
  not_after_now now none = false
  not_after_now now (some t) = not (ltb now t)

  unfoldable pub check_time : ℕ → Signature → Bool
  check_time now s =
      not_after_now now (times.parse s.issued_at)
      && (is_empty s.expires_at || after_now now (times.parse s.expires_at))

  -- the key, the payload and the signature, once the DID document is there
  unfoldable pub check_key : Signature → Header → Bytes → Bytes → Option Bytes
  check_key s h document body = do
    jwk ← select_key json did_json body s.signer h.key_id
    key ← parse_es256_key json ecdsa jwk
    payload ← canonicalize_for_signature json jcs document
    if is_some (verify_es256 json hashes ecdsa s.jws payload key) then none else some payload

  abbrev pub passed : Option Bytes → Status
  passed none = failed
  passed (some payload) = verified

  abbrev pub check_reply : Signature → Header → Bytes → Option Bytes → Status
  check_reply s h document none = unverifiable
  check_reply s h document (some body) = passed (check_key s h document body)

  module _ (now : ℕ) (fetch : Fetch) where
    abbrev pub check_signer : Signature → Header → Bytes → Option Bytes → Log → Status × Log
    check_signer s h document none log = (failed, log)
    check_signer s h document (some location) log =
        (check_reply s h document (fetch log location), location ∷ log)

    abbrev pub check_accepted : Signature → Bytes → Option Header → Log → Status × Log
    check_accepted s document none log = (failed, log)
    check_accepted s document (some h) log =
        if not (check_time now s)
        then (failed, log)
        else check_signer s h document (did_document_url s.signer) log

    unfoldable pub check_signature : Signature → Bytes → Bytes → Log → Status × Log
    unfolding checked_header check_time check_key
    check_signature s typ document log =
        if not (text_eq s.profile did_web_profile)
        then (unverifiable, log)
        else check_accepted s document (checked_header s typ) log
