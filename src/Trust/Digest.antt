-- ===== src/Trust/Digest.antt =====
-- trust/trust.go: digests "algorithm:hex". The hash functions of crypto/sha256 and crypto/sha512
-- are the section's parameter.
pub mod Laws
pub mod Verify
mod Tests
use ai_catalog_go.Prelude.{
  ok, err, if◌then◌else◌, [], some, none, Option, not, false, Bool, suc, ℕ, all, is_empty, length,
  Either, leb, ltb, ◌/◌, ◌%◌, ◌==◌, ◌&&◌, ◌||◌, ◌-◌, ◌+◌, ◌∷◌,
}
use ai_catalog_go.Text.{contains, lower_byte, ascii_lower, codes, cut, text_eq, Bytes}

abbrev pub sha256_hex_len : ℕ
sha256_hex_len = 64

abbrev pub sha384_hex_len : ℕ
sha384_hex_len = 96

abbrev pub sha512_hex_len : ℕ
sha512_hex_len = 128

-- The errors, with no text.
pub data DigestError : Type 0 where
  invalid_format unsupported_algorithm weak_algorithm invalid_hex : DigestError

pub record ParsedDigest : Type 0 where
  pub algorithm : Bytes
  pub hex_value : Bytes

-- `strings.Count` of one byte
unfoldable pub count_byte : ℕ → Bytes → ℕ
count_byte b [] = 0
count_byte b (c ∷ s) = let rest = count_byte b s in if c == b then suc rest else rest

-- a byte that `hex.DecodeString` reads; the length is checked before, and is even
unfoldable pub is_hex : ℕ → Bool
is_hex c = leb b'0' c && leb c b'9' || leb b'a' c && leb c b'f' || leb b'A' c && leb c b'F'

-- the switch on the algorithm: the length of the hex value, or the error
unfoldable pub expected_len : Bytes → Either DigestError ℕ
unfolding text_eq
expected_len algorithm =
    if text_eq algorithm (codes "sha256")
    then ok sha256_hex_len
    else if text_eq algorithm (codes "sha384")
    then ok sha384_hex_len
    else if text_eq algorithm (codes "sha512")
    then ok sha512_hex_len
    else if contains (codes "md5" ∷ codes "sha1" ∷ codes "sha224" ∷ []) algorithm
    then err weak_algorithm
    else err unsupported_algorithm

parse_hex : Bytes → Bytes → Either DigestError ℕ → Either DigestError ParsedDigest
parse_hex normalized hex (err e) = err e
parse_hex normalized hex (ok len) =
    if not (length hex == len)
    then err invalid_hex
    else if not (all is_hex hex)
    then err invalid_hex
    else ok (record { algorithm = normalized; hex_value = ascii_lower hex })

-- `!found || algorithm == "" || hexValue == "" || strings.Count(value, ":") != 1`
malformed : Bytes → Bool
malformed value =
    let (algorithm, hex, found) = cut value b':' in
    not found || is_empty algorithm || is_empty hex || not (count_byte b':' value == 1)

unfoldable pub parse_digest : Bytes → Either DigestError ParsedDigest
unfolding malformed parse_hex cut count_byte expected_len is_hex ascii_lower lower_byte contains
parse_digest value =
    let (algorithm, hex, found) = cut value b':' in
    let normalized = ascii_lower algorithm in
    if malformed value
    then err invalid_format
    else parse_hex normalized hex (expected_len normalized)

-- The hash functions, each from the data to the sum.
pub record Hashes : Type 0 where
  pub sha256 : Bytes → Bytes
  pub sha384 : Bytes → Bytes
  pub sha512 : Bytes → Bytes

-- `hex.EncodeToString`
unfoldable pub hex_digit : ℕ → ℕ
hex_digit n = if ltb n 10 then b'0' + n else b'a' + (n - 10)

unfoldable pub hex_encode : Bytes → Bytes
unfolding hex_digit
hex_encode [] = []
hex_encode (c ∷ s) = hex_digit (c / 16) ∷ (hex_digit (c % 16) ∷ hex_encode s)

module _ (hashes : Hashes) where
  unfoldable pub sum : Bytes → Bytes → Option Bytes
  unfolding text_eq
  sum algorithm content =
      if text_eq algorithm (codes "sha256")
      then some (hashes.sha256 content)
      else if text_eq algorithm (codes "sha384")
      then some (hashes.sha384 content)
      else if text_eq algorithm (codes "sha512")
      then some (hashes.sha512 content)
      else none

  unfoldable pub verify_bytes : ParsedDigest → Bytes → Bool
  unfolding hex_encode text_eq sum
  verify_bytes d content = elim (sum d.algorithm content) [
    | none ↦ false
    | some s ↦ text_eq (hex_encode s) d.hex_value
  ]

  unfoldable pub verify_digest : Bytes → Bytes → Either DigestError Bool
  verify_digest expected content = elim (parse_digest expected) [
    | err e ↦ err e
    | ok parsed ↦ ok (verify_bytes parsed content)
  ]
