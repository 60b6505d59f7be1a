-- ===== src/Trust/Digest/Verify.antt =====
-- Verifying content against the digest that was made of other content.
use ai_catalog_go.Prelude.{
  ok, arith, [], inr, inl, ap, refl, ℕ, All, length, Bool-cases, ◌/◌, ◌%◌, ◌*◌, ◌<◌, ◌∷◌, ◌++◌, ◌≡◌,
}
use ai_catalog_go.Text.{text_eq_refl, text_eq_iff, codes, text_eq, ascii_lower, lower_byte, Bytes}
use ai_catalog_go.Trust.Digest.{
  parse_digest, verify_bytes, verify_digest, Hashes, hex_encode, hex_digit,
}
use ai_catalog_go.Trust.Digest.Laws.{parse_digest_of_parts, IsHex}

abbrev pub AllBytes : Bytes → Type 0
AllBytes = All (λ c. c < 256)

hex_digit_facts : (n : ℕ) → n < 16 → IsHex (hex_digit n) × (lower_byte (hex_digit n) ≡ hex_digit n)
unfolding hex_digit lower_byte
hex_digit_facts n h = (ground arith, ground arith)

hex_digit-injective : (m n : ℕ) → m < 16 → n < 16 → hex_digit m ≡ hex_digit n → m ≡ n
unfolding hex_digit
hex_digit-injective m n p q h = ground arith

hex_encode-IsHex : (s : Bytes) → AllBytes s → All IsHex (hex_encode s)
unfolding hex_encode
hex_encode-IsHex [] h = tt
hex_encode-IsHex (c ∷ s) (h, hs) = (
  (hex_digit_facts (c / 16) (omega arith)).0,
  ((hex_digit_facts (c % 16) (omega arith)).0, hex_encode-IsHex s hs),
)

ascii_lower-hex_encode : (s : Bytes) → AllBytes s → ascii_lower (hex_encode s) ≡ hex_encode s
unfolding hex_encode ascii_lower
ascii_lower-hex_encode [] h = refl
ascii_lower-hex_encode (c ∷ s) (h, hs) = cc (
  (hex_digit_facts (c / 16) (omega arith)).1,
  (hex_digit_facts (c % 16) (omega arith)).1,
  ascii_lower-hex_encode s hs,
)

length-hex_encode : (s : Bytes) → length (hex_encode s) ≡ 2 * length s
unfolding hex_encode
length-hex_encode [] = refl
length-hex_encode (c ∷ s) = omega (arith, length-hex_encode s)

hex_encode-injective : (s t : Bytes) → AllBytes s → AllBytes t → hex_encode s ≡ hex_encode t → s ≡ t
unfolding hex_encode
hex_encode-injective [] [] hs ht e = refl
hex_encode-injective [] (d ∷ t) hs ht e = cc
hex_encode-injective (c ∷ s) [] hs ht e = cc
hex_encode-injective (c ∷ s) (d ∷ t) (h, hs) (k, kt) e =
    let high = hex_digit-injective (c / 16) (d / 16) (omega arith) (omega arith) (cc) in
    let low = hex_digit-injective (c % 16) (d % 16) (omega arith) (omega arith) (cc) in
    let same : c ≡ d = omega arith in cc (hex_encode-injective s t hs kt (cc))

text_eq-hex_encode :
    (s t : Bytes) → AllBytes s → AllBytes t → text_eq (hex_encode s) (hex_encode t) ≡ text_eq s t
text_eq-hex_encode s t hs ht = elim (Bool-cases (text_eq s t)) [
  | inl e ↦ rw (e, (text_eq_iff s t).0 e) (text_eq_refl (hex_encode t))
  | inr e ↦ ground (
    arith,
    text_eq_iff s t,
    text_eq_iff (hex_encode s) (hex_encode t),
    hex_encode-injective s t hs ht,
  )
]

-- What crypto/sha256 documents: a sum is 32 bytes.
pub record SumsAreSha256 (hashes : Hashes) : Type 0 where
  pub size : (content : Bytes) → length (hashes.sha256 content) ≡ 32
  pub bytes : (content : Bytes) → AllBytes (hashes.sha256 content)

parse_sha256 :
    (x : Bytes)
    → length x ≡ 64
    → All IsHex x
    → parse_digest (codes "sha256" ++ (b':' ∷ x))
      ≡ ok (record { algorithm = codes "sha256"; hex_value = ascii_lower x })
unfolding ascii_lower lower_byte
parse_sha256 x long hex = parse_digest_of_parts (codes "sha256") x (inl (refl, long)) hex

-- Where sums are 32 bytes: the text `sha256:` with the hex form of the sum of `published` verifies
-- `content` without an error, and the answer is whether the two have the same sum.
pub verify_digest-hex_encode :
    (hashes : Hashes) (published content : Bytes)
    → SumsAreSha256 hashes
    → verify_digest hashes (codes "sha256" ++ (b':' ∷ hex_encode (hashes.sha256 published))) content
      ≡ ok (text_eq (hashes.sha256 content) (hashes.sha256 published))
unfolding verify_digest verify_bytes
verify_digest-hex_encode hashes published content sums =
    let p = hashes.sha256 published in
    let all_bytes = sums.bytes published in
    let long : length (hex_encode p) ≡ 64 =
      omega (arith, length-hex_encode p, sums.size published) in
    rw
      (
        parse_sha256 (hex_encode p) long (hex_encode-IsHex p all_bytes),
        ascii_lower-hex_encode p all_bytes,
        verify_digest,
      )
      (ap ok (text_eq-hex_encode (hashes.sha256 content) p (sums.bytes content) all_bytes))
