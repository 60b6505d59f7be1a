-- ===== src/Trust/Es256.antt =====
-- trust/es256.go: `VerifyES256`. Keys, the ASN.1 form of a signature and the verification of ECDSA
-- are the section's parameters; no error is `none`. The child Key has `ParseES256Key`.
pub mod Verified
pub mod Key
mod Tests
use ai_catalog_go.Prelude.{
  [], List, some, none, Option, not, false, Bool, ℕ, is_empty, drop, take, length, if◌then◌else◌,
  ◌==◌, ◌&&◌, ◌∷◌, ◌++◌,
}
use ai_catalog_go.Text.{split, text_eq, codes, Bytes}
use ai_catalog_go.Jws.{parse, has, Header}
use ai_catalog_go.Json.{Json}
use ai_catalog_go.Trust.Digest.{Hashes}
use ai_catalog_go.Base64.{base64_decode, base64_encode}

pub data Es256Error : Type 0 where
  invalid_jws signature_mismatch : Es256Error

-- `ecdsa.ParseUncompressedPublicKey` on P-256, `asn1.Marshal` of the two numbers, from their bytes,
-- and `ecdsa.VerifyASN1`.
pub record Ecdsa (Key : Type 0) : Type 0 where
  pub parse_key : Bytes → Option Key
  pub encode : Bytes → Bytes → Option Bytes
  pub verify : Key → Bytes → Bytes → Bool

abbrev pub algorithm_es256 : Bytes
algorithm_es256 = codes "ES256"

abbrev pub coordinate_len : ℕ
coordinate_len = 32

abbrev pub signature_len : ℕ
signature_len = 64

-- the tests on the header
unfoldable pub header_allowed : Option Header → Bool
header_allowed none = false
header_allowed (some h) =
    text_eq h.algorithm algorithm_es256 && not (has h (codes "b64")) && not (has h (codes "crit"))

module _ {Key : Type 0} (json : Json) (hashes : Hashes) (ecdsa : Ecdsa Key) where
  abbrev pub signing_input : Bytes → Bytes → Bytes
  signing_input header payload = header ++ (b'.' ∷ base64_encode payload)

  unfoldable pub check_der : Bytes → Bytes → Key → Option Bytes → Option Es256Error
  check_der header payload key none = some invalid_jws
  check_der header payload key (some der) =
      if not (ecdsa.verify key (hashes.sha256 (signing_input header payload)) der)
      then some signature_mismatch
      else none

  unfoldable pub check_raw : Bytes → Bytes → Key → Option Bytes → Option Es256Error
  unfolding check_der
  check_raw header payload key none = some invalid_jws
  check_raw header payload key (some raw) =
      if not (length raw == signature_len)
      then some invalid_jws
      else check_der header payload key
          (ecdsa.encode (take coordinate_len raw) (drop coordinate_len raw))

  unfoldable pub check_jws_parts : Bytes → Bytes → Key → List Bytes → Option Es256Error
  check_jws_parts signature payload key (header ∷ middle ∷ raw ∷ []) =
      if not (is_empty middle)
      then some invalid_jws
      else if not (header_allowed (parse json signature))
      then some invalid_jws
      else check_raw header payload key (base64_decode raw)
  check_jws_parts signature payload key _ = some invalid_jws

  unfoldable pub verify_es256 : Bytes → Bytes → Key → Option Es256Error
  verify_es256 signature payload key = check_jws_parts signature payload key (split signature b'.')
