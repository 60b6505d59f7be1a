-- ===== src/Base64.antt =====
-- encoding/base64, `RawURLEncoding`: the URL alphabet with no padding. As the package does,
-- decoding skips line breaks and ignores the unused bits of the last digit.
pub mod RoundTrip
use ai_catalog_go.Prelude.{
  ◌>>=◌, map, [], List, some, none, Option, ℕ, leb, ltb, if◌then◌else◌, ◌/◌, ◌%◌, ◌==◌, ◌&&◌, ◌||◌,
  ◌*◌, ◌-◌, ◌+◌, ◌∷◌,
}
use ai_catalog_go.Text.{Bytes}

encode_digit : ℕ → ℕ
encode_digit n =
    if ltb n 26
    then b'A' + n
    else if ltb n 52
    then b'a' + (n - 26)
    else if ltb n 62
    then b'0' + (n - 52)
    else if n == 62
    then b'-'
    else b'_'

decode_digit : ℕ → Option ℕ
decode_digit c =
    if leb b'A' c && leb c b'Z'
    then some (c - b'A')
    else if leb b'a' c && leb c b'z'
    then some (c - b'a' + 26)
    else if leb b'0' c && leb c b'9'
    then some (c - b'0' + 52)
    else if c == b'-'
    then some 62
    else if c == b'_'
    then some 63
    else none

encode_digits : Bytes → List ℕ
encode_digits [] = []
encode_digits (a ∷ []) = (a / 4) ∷ (a % 4 * 16) ∷ []
encode_digits (a ∷ b ∷ []) = (a / 4) ∷ (a % 4 * 16 + b / 16) ∷ (b % 16 * 4) ∷ []
encode_digits (a ∷ b ∷ c ∷ s) =
    (a / 4) ∷ (a % 4 * 16 + b / 16) ∷ (b % 16 * 4 + c / 64) ∷ (c % 64) ∷ encode_digits s

decode_digits : List ℕ → Option Bytes
decode_digits [] = some []
decode_digits (a ∷ []) = none
decode_digits (a ∷ b ∷ []) = some ((a * 4 + b / 16) ∷ [])
decode_digits (a ∷ b ∷ c ∷ []) = some ((a * 4 + b / 16) ∷ (b % 16 * 16 + c / 4) ∷ [])
decode_digits (a ∷ b ∷ c ∷ d ∷ s) = do
  rest ← decode_digits s
  some ((a * 4 + b / 16) ∷ (b % 16 * 16 + c / 4) ∷ (c % 4 * 64 + d) ∷ rest)

read_digits : Bytes → Option (List ℕ)
read_digits [] = some []
read_digits (c ∷ s) =
    let rest = read_digits s in
    if c == 10 || c == 13 then rest else (do d ← decode_digit c; ds ← rest; some (d ∷ ds))

unfoldable pub base64_encode : Bytes → Bytes
unfolding encode_digits encode_digit
base64_encode s = map encode_digit (encode_digits s)

unfoldable pub base64_decode : Bytes → Option Bytes
unfolding read_digits decode_digits decode_digit
base64_decode s = do ds ← read_digits s; decode_digits ds
