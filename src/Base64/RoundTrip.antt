-- ===== src/Base64/RoundTrip.antt =====
-- Decoding undoes encoding.
use ai_catalog_go.Prelude.{arith, map, [], List, some, refl, ℕ, All, ◌<◌, ◌∷◌, ◌≡◌, ◌≢◌}
use ai_catalog_go.Base64.{
  decode_digits, encode_digit, base64_encode, encode_digits, read_digits, decode_digit,
  base64_decode,
}
use ai_catalog_go.Text.{Bytes}

decode_digit-encode_digit :
    (n : ℕ)
    → n < 64
    → (decode_digit (encode_digit n) ≡ some n) × (encode_digit n ≢ 10) × (encode_digit n ≢ 13)
unfolding decode_digit encode_digit
decode_digit-encode_digit n h = (ground arith, ground arith, ground arith)

read_digits-map : (ds : List ℕ) → All (λ d. d < 64) ds → read_digits (map encode_digit ds) ≡ some ds
unfolding read_digits
read_digits-map [] h = refl
read_digits-map (d ∷ ds) (h, hs) =
    let (same, no_lf, no_cr) = decode_digit-encode_digit d h in
    ground (arith, read_digits-map ds hs)

encode_digits-lt : (s : Bytes) → All (λ c. c < 256) s → All (λ d. d < 64) (encode_digits s)
unfolding encode_digits
encode_digits-lt [] h = tt
encode_digits-lt (a ∷ []) h = omega arith
encode_digits-lt (a ∷ b ∷ []) h = omega arith
encode_digits-lt (a ∷ b ∷ c ∷ s) (p, (q, (r, hs))) =
    (omega arith, (omega arith, (omega arith, (omega arith, encode_digits-lt s hs))))

decode_digits-encode_digits :
    (s : Bytes) → All (λ c. c < 256) s → decode_digits (encode_digits s) ≡ some s
unfolding encode_digits decode_digits
decode_digits-encode_digits [] h = refl
decode_digits-encode_digits (a ∷ []) h = ground arith
decode_digits-encode_digits (a ∷ b ∷ []) h = ground arith
decode_digits-encode_digits (a ∷ b ∷ c ∷ s) (p, (q, (r, hs))) =
    ground (arith, decode_digits-encode_digits s hs)

-- Every text of bytes is decoded from its encoding.
pub base64_decode-base64_encode :
    (s : Bytes) → All (λ c. c < 256) s → base64_decode (base64_encode s) ≡ some s
unfolding base64_decode base64_encode
base64_decode-base64_encode s h =
    rw (read_digits-map (encode_digits s) (encode_digits-lt s h)) (decode_digits-encode_digits s h)
