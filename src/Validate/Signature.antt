-- ===== src/Validate/Signature.antt =====
-- validate/signature.go: the structure of a signature object. What `validateSignature` returns is
-- not used by its callers and is left out.
pub mod Rule
use ai_catalog_go.Prelude.{
  [], List, some, none, Option, not, false, Bool, ℕ, is_empty, is_some, ltb, if◌then◌else◌, ◌&&◌,
  ◌∷◌, ◌++◌,
}
use ai_catalog_go.Validate.Report.{error_if, add_error, warn_if, pass, for_each, Check, ◌>>◌}
use ai_catalog_go.Validate.Codes.{
  Code, signature_not_yet_valid, signature_expired, signature_type, signature_b64,
  signature_algorithm, signature_malformed, signature_form, signature_expiry, signature_signer,
  signature_member, timestamp,
}
use ai_catalog_go.Text.{text_eq, codes, Bytes}
use ai_catalog_go.Catalog.Version.{Times}
use ai_catalog_go.Jws.{parse, has, detached, forbidden, Header}
use ai_catalog_go.Json.{Json}
use ai_catalog_go.Catalog.{Signature}
use ai_catalog_go.Validate.Keys.{is_absolute_uri}

abbrev pub catalog_jws_type : Bytes
catalog_jws_type = codes "ai-catalog+jws"

abbrev pub manifest_jws_type : Bytes
manifest_jws_type = codes "ai-catalog-trust-manifest+jws"

abbrev dot : Bytes → Bytes
dot member = b'.' ∷ member

-- the members that must not be empty, each with its value
unfoldable pub require : Code → List (Bytes × Bytes) → Bytes → Check
require code required path =
    for_each (λ _ (r : Bytes × Bytes). error_if (is_empty r.1) code (path ++ dot r.0)) 0 required

module _ (times : Times) where
  -- `instant`
  abbrev pub instant : Bytes → Option ℕ
  instant = times.parse

  -- an optional timestamp
  unfoldable pub validate_timestamp : Bytes → Bytes → Check
  validate_timestamp value path =
      if is_empty value then pass else error_if (not (is_some (times.parse value))) timestamp path

  -- both instants are known and the second is not later
  abbrev wrong_order : Option ℕ → Option ℕ → Bool
  wrong_order (some issued) (some expires) = not (ltb issued expires)
  wrong_order _ _ = false

  unfoldable pub validate_validity_window : Signature → Bytes → Check
  unfolding validate_timestamp
  validate_validity_window s path = if is_empty s.expires_at then pass else do
    validate_timestamp s.expires_at (path ++ codes ".expiresAt")
    error_if (wrong_order (instant s.issued_at) (instant s.expires_at)) signature_expiry
        (path ++ codes ".expiresAt")

  -- the clock is before `issued`, or not before `expires`
  abbrev pub future : ℕ → Option ℕ → Bool
  future now none = false
  future now (some issued) = ltb now issued

  abbrev pub over : ℕ → Option ℕ → Bool
  over now none = false
  over now (some expires) = not (ltb now expires)

  -- `signatureCurrent`
  unfoldable pub signature_current : ℕ → Signature → Bytes → Check
  signature_current now s path = do
    warn_if (future now (instant s.issued_at)) signature_not_yet_valid (path ++ codes ".issuedAt")
    warn_if (over now (instant s.expires_at)) signature_expired (path ++ codes ".expiresAt")

-- the tests of `validateJWS` on a header that was parsed
unfoldable pub check_header : Option Header → Bytes → Bytes → Check
check_header none typ path = add_error signature_malformed path
check_header (some h) typ path = do
  error_if (forbidden h.algorithm) signature_algorithm path
  error_if (has h (codes "b64")) signature_b64 path
  error_if (not (text_eq h.type typ)) signature_type path

module _ (json : Json) where
  unfoldable pub validate_jws : Bytes → Bytes → Bytes → Check
  unfolding check_header
  validate_jws signature typ path =
      if is_empty signature
      then pass
      else if not (detached signature)
      then add_error signature_form path
      else check_header (parse json signature) typ path

  module _ (times : Times) where
    unfoldable pub validate_signature : Signature → Bytes → Bytes → Check
    unfolding require validate_timestamp validate_validity_window validate_jws
    validate_signature s typ path = do
      require signature_member
          ((codes "signer", s.signer)
            ∷ (codes "profile", s.profile)
            ∷ (codes "issuedAt", s.issued_at)
            ∷ (codes "jws", s.jws)
            ∷ [])
          path
      error_if (not (is_empty s.signer) && not (is_absolute_uri s.signer)) signature_signer
          (path ++ codes ".signer")
      validate_timestamp times s.issued_at (path ++ codes ".issuedAt")
      validate_validity_window times s path
      validate_jws s.jws typ (path ++ codes ".jws")
