-- ===== src/Trust/Digest/Tests.antt =====
-- Digests at concrete inputs.
use ai_catalog_go.Prelude.{ok, err, arith, [], refl, ℕ, replicate, length, ◌%◌, ◌∷◌, ◌↔◌, ◌++◌, ◌≡◌}
use ai_catalog_go.Trust.Digest.{
  hex_encode, verify_digest, parse_digest, Hashes, invalid_hex, weak_algorithm,
  unsupported_algorithm, invalid_format,
}
use ai_catalog_go.Text.{text_eq, codes, Bytes}
use ai_catalog_go.Trust.Digest.Verify.{verify_digest-hex_encode, AllBytes, SumsAreSha256}
use ai_catalog_go.Trust.Digest.Laws.{parse_digest_iff, IsDigest}

abbrev zeros : ℕ → Bytes
zeros n = replicate n b'0'

-- A stand-in for the hash functions: sums of the right size that keep the first byte.
abbrev first_byte : Bytes → Bytes
first_byte [] = replicate 32 0
first_byte (c ∷ s) = (c % 256) ∷ replicate 31 0

abbrev stub : Hashes
stub = record { sha256 = first_byte; sha384 = first_byte; sha512 = first_byte }

stub_size : (s : Bytes) → length (first_byte s) ≡ 32
stub_size [] = refl
stub_size (c ∷ s) = refl

stub_bytes : (s : Bytes) → AllBytes (first_byte s)
stub_bytes [] = omega arith
stub_bytes (c ∷ s) = omega arith

stub-sums : SumsAreSha256 stub
stub-sums = record { size = stub_size; bytes = stub_bytes }

parse_digest_tests :
    (parse_digest (codes "sha1:00") ≡ err weak_algorithm)
    × (parse_digest (codes "sha3:00") ≡ err unsupported_algorithm)
    × (parse_digest (codes "sha256:00") ≡ err invalid_hex)
    × (parse_digest (codes "sha256") ≡ err invalid_format)
    × (parse_digest (codes "a:b:c") ≡ err invalid_format)
    × (parse_digest (codes "SHA256:" ++ zeros 64)
        ≡ ok (record { algorithm = codes "sha256"; hex_value = zeros 64 }))
unfolding parse_digest
parse_digest_tests = (refl, refl, refl, refl, refl, refl)

parse_digest_iff_example :
    (parse_digest (codes "sha256:00")
      ≡ ok (record { algorithm = codes "sha256"; hex_value = codes "00" }))
    ↔ IsDigest (codes "sha256:00") (record { algorithm = codes "sha256"; hex_value = codes "00" })
parse_digest_iff_example =
    parse_digest_iff (codes "sha256:00")
      (record { algorithm = codes "sha256"; hex_value = codes "00" })

verify_digest-hex_encode_example :
    verify_digest stub
      (codes "sha256" ++ (b':' ∷ hex_encode (first_byte (codes "ab"))))
      (codes "cd")
    ≡ ok (text_eq (first_byte (codes "cd")) (first_byte (codes "ab")))
verify_digest-hex_encode_example = verify_digest-hex_encode stub (codes "ab") (codes "cd") stub-sums
