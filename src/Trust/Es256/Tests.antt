-- ===== src/Trust/Es256/Tests.antt =====
-- A signature at concrete stand-ins for JSON, the hash functions and ECDSA.
use ai_catalog_go.Text.{cut}
use ai_catalog_go.Jws.{decode_members, string_member}
use ai_catalog_go.Prelude.{[], some, none, true, refl, ◌∷◌, ◌↔◌, ◌++◌, ◌≡◌}
use ai_catalog_go.Trust.Es256.{
  check_raw, header_allowed, check_jws_parts, verify_es256, Ecdsa, signature_mismatch, invalid_jws,
}
use ai_catalog_go.Json.{Json}
use ai_catalog_go.Trust.Digest.{Hashes}
use ai_catalog_go.Text.{split, text_eq, codes, Bytes}
use ai_catalog_go.Trust.Es256.Verified.{verify_es256_iff, IsVerified}
use ai_catalog_go.Base64.{base64_decode, base64_encode}
use ai_catalog_go.Jws.{has, parse}

abbrev json : Json
json = record {
  catalog = λ raw. none;
  object = λ raw. some ((codes "alg", codes "ES256") ∷ []);
  text = λ raw. some raw;
  is_string = λ raw. true;
  texts = λ raw. none;
}

abbrev hashes : Hashes
hashes = record { sha256 = λ s. s; sha384 = λ s. s; sha512 = λ s. s }

-- A key is the text that it verifies.
abbrev ecdsa : Ecdsa Bytes
ecdsa = record {
  parse_key = λ point. some point;
  encode = λ r s. some (r ++ s);
  verify = λ key sum der. text_eq key sum;
}

-- The text of 64 bytes, all zero, in base64url.
abbrev signed : Bytes
signed =
    codes
      "e30..AAAAAAAAAAAAAAAAAAAAAAAAAAAAAAAAAAAAAAAAAAAAAAAAAAAAAAAAAAAAAAAAAAAAAAAAAAAAAAAAAAAAAA"

verify_tests :
    (verify_es256 json hashes ecdsa signed (codes "x") (codes "e30.eA") ≡ none)
    × (verify_es256 json hashes ecdsa signed (codes "y") (codes "e30.eA") ≡ some signature_mismatch)
    × (verify_es256 json hashes ecdsa (codes "e30..AA") (codes "x") (codes "e30.eA")
        ≡ some invalid_jws)
unfolding verify_es256 check_jws_parts split header_allowed check_raw base64_encode base64_decode
    parse text_eq has cut decode_members string_member
verify_tests = (refl, refl, refl)

verify_es256_iff_example :
    (verify_es256 json hashes ecdsa signed (codes "x") (codes "e30.eA") ≡ none)
    ↔ IsVerified json hashes ecdsa signed (codes "x") (codes "e30.eA")
verify_es256_iff_example = verify_es256_iff json hashes ecdsa signed (codes "x") (codes "e30.eA")
