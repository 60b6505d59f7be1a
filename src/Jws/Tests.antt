-- ===== src/Jws/Tests.antt =====
-- Protected headers at concrete serializations.
-- A reader for which every text is one object of the given members, and every value but null a string.
use ai_catalog_go.Prelude.{
  if◌then◌else◌, [], List, some, none, false, true, refl, ◌∷◌, ◌↔◌, ◌++◌, ◌≡◌,
}
use ai_catalog_go.Text.{text_eq, cut, codes, Bytes}
use ai_catalog_go.Jws.{string_member, decode_members, detached, parse, Header}
use ai_catalog_go.Json.{Json}
use ai_catalog_go.Jws.Parsing.{parse_iff, IsHeader}
use ai_catalog_go.Base64.{base64_decode}

abbrev object_of : List (Bytes × Bytes) → Json
object_of ms = record {
  catalog = λ raw. none;
  object = λ raw. some ms;
  text = λ raw. if text_eq raw (codes "null") then some [] else some raw;
  is_string = λ raw. true;
  texts = λ raw. none;
}

abbrev es256 : Header
es256 = record {
  algorithm = codes "ES256";
  key_id = [];
  type = codes "t";
  members = codes "alg" ∷ codes "typ" ∷ [];
}

abbrev members : List (Bytes × Bytes)
members = (codes "alg", codes "ES256") ∷ (codes "typ", codes "t") ∷ []

parse_tests :
    (parse (object_of members) (codes "e30..c2ln") ≡ some es256)
    × (parse (object_of (members ++ members)) (codes "e30..c2ln") ≡ none)
    × (parse (object_of []) (codes "e30..c2ln") ≡ none)
    × (parse (object_of members) (codes "e3!..c2ln") ≡ none)
unfolding parse decode_members string_member base64_decode cut text_eq
parse_tests = (refl, refl, refl, refl)

abbrev with_null_key : List (Bytes × Bytes)
with_null_key = (codes "alg", codes "ES256") ∷ (codes "kid", codes "null") ∷ []

-- A "kid" that is null is read as "", and an "alg" that is null is no algorithm.
null_tests :
    (parse (object_of with_null_key) (codes "e30..c2ln")
      ≡ some (record {
        algorithm = codes "ES256";
        key_id = [];
        type = [];
        members = codes "alg" ∷ codes "kid" ∷ [];
      }))
    × (parse (object_of ((codes "alg", codes "null") ∷ [])) (codes "e30..c2ln") ≡ none)
unfolding parse decode_members string_member base64_decode cut text_eq
null_tests = (refl, refl)

detached_tests :
    (detached (codes "e30..c2ln") ≡ true)
    × (detached (codes "e30.x.c2ln") ≡ false)
    × (detached (codes "..c2ln") ≡ false)
    × (detached (codes "e30..c2ln.") ≡ false)
unfolding detached
detached_tests = (refl, refl, refl, refl)

parse_iff_example :
    (parse (object_of members) (codes "e30..c2ln") ≡ some es256)
    ↔ IsHeader (object_of members) (codes "e30..c2ln") es256
parse_iff_example = parse_iff (object_of members) (codes "e30..c2ln") es256
