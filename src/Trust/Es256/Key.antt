-- ===== src/Trust/Es256/Key.antt =====
-- trust/es256.go: `ParseES256Key`. Every error is the same one, `none`.
pub mod Rule
pub mod Accepted
use ai_catalog_go.Prelude.{
  [], List, some, none, Option, not, false, true, Bool, ℕ, length, is_some, if◌then◌else◌, ◌>>=◌,
  ◌==◌, ◌&&◌, ◌||◌, ◌∷◌, ◌++◌,
}
use ai_catalog_go.Json.{last_member, Json}
use ai_catalog_go.Text.{codes, contains, text_eq, Bytes}
use ai_catalog_go.Trust.Es256.{algorithm_es256, coordinate_len, Ecdsa}
use ai_catalog_go.Base64.{base64_decode}

abbrev pub sec1_uncompress : ℕ
sec1_uncompress = 4

-- `""` where the string was not decoded
abbrev pub or_empty : Option Bytes → Bytes
or_empty none = []
or_empty (some value) = value

module _ (json : Json) where
  -- `text`: a member that is absent has no bytes, which are no JSON text
  abbrev pub text_of : Option Bytes → Bytes
  text_of none = []
  text_of (some raw) = or_empty (json.text raw)

  unfoldable pub text_member : List (Bytes × Bytes) → Bytes → Bytes
  text_member ms name = text_of (last_member name ms)

  -- a member that is absent, or a string of the given value
  unfoldable pub allows : List (Bytes × Bytes) → Bytes → Bytes → Bool
  unfolding text_member text_eq
  allows ms name value = not (is_some (last_member name ms)) || text_eq (text_member ms name) value

  abbrev pub permits : Option (List Bytes) → Bool
  permits none = false
  permits (some operations) = contains operations (codes "verify")

  abbrev pub permits_verify : Option Bytes → Bool
  permits_verify none = true
  permits_verify (some raw) = permits (json.texts raw)

  unfoldable pub check_key_use : List (Bytes × Bytes) → Bool
  unfolding allows
  check_key_use ms =
      not (is_some (last_member (codes "d") ms))
      && allows ms (codes "alg") algorithm_es256
      && allows ms (codes "use") (codes "sig")
      && permits_verify (last_member (codes "key_ops") ms)

  abbrev pub full_length : Option Bytes → Option Bytes
  full_length none = none
  full_length (some c) = if length c == coordinate_len then some c else none

  unfoldable pub coordinate : List (Bytes × Bytes) → Bytes → Option Bytes
  coordinate ms name = full_length (base64_decode (text_member ms name))

  module _ {Key : Type 0} (ecdsa : Ecdsa Key) where
    unfoldable pub parse_members : List (Bytes × Bytes) → Option Key
    parse_members ms =
        if not (text_eq (text_member ms (codes "kty")) (codes "EC"))
          || not (text_eq (text_member ms (codes "crv")) (codes "P-256"))
          || not (check_key_use ms)
        then none
        else (coordinate ms (codes "x") >>= λ x.
            coordinate ms (codes "y") >>= λ y. ecdsa.parse_key (sec1_uncompress ∷ (x ++ y)))

    unfoldable pub parse_es256_key : Bytes → Option Key
    parse_es256_key jwk = do members ← json.object jwk; parse_members members
