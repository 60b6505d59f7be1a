-- ===== src/Trust/Digest/Laws.antt =====
-- Which digests are accepted, and what verifying one means.
use ai_catalog_go.Prelude.{
  is_empty-eq-false_iff, ◌∙◌, false, All-map, ◌<◌, ◌≢◌, err, inr, inl, all_iff, All, length, Either,
  ok, arith, [], true, refl, ℕ, ◌+◌, ◌≤◌, ◌∷◌, ◌↔◌, ◌⊎◌, ◌++◌, ◌≡◌,
}
use ai_catalog_go.Trust.Digest.{
  malformed, DigestError, parse_digest, parse_hex, ParsedDigest, expected_len, is_hex, count_byte,
}
use ai_catalog_go.Text.{
  cut_at, cut_found, cut, lower_byte, ascii_lower, text_eq_iff, codes, Lacks, Bytes,
}

count_byte-Lacks : (b : ℕ) (s : Bytes) → (count_byte b s ≡ 0) ↔ Lacks b s
unfolding count_byte
count_byte-Lacks b [] = (λ _. tt, λ _. refl)
count_byte-Lacks b (c ∷ s) = (
  λ h. (ground arith, (count_byte-Lacks b s).0 (ground arith)),
  λ h. ground (arith, (count_byte-Lacks b s).1 h.1),
)

count_byte-append : (b : ℕ) (s t : Bytes) → count_byte b (s ++ t) ≡ count_byte b s + count_byte b t
unfolding count_byte
count_byte-append b [] t = omega arith
count_byte-append b (c ∷ s) t = ground (arith, count_byte-append b s t)

abbrev pub IsHex : ℕ → Type 0
IsHex c = ((b'0' ≤ c) × (c ≤ b'9')) ⊎ (((b'a' ≤ c) × (c ≤ b'f')) ⊎ ((b'A' ≤ c) × (c ≤ b'F')))

is_hex_iff : (c : ℕ) → (is_hex c ≡ true) ↔ IsHex c
unfolding is_hex
is_hex_iff c = (λ h. ground arith, λ h. ground arith)

-- The accepted algorithms, each with the number of hex digits of its sums.
abbrev pub Accepted : Bytes → ℕ → Type 0
Accepted a n =
    ((a ≡ codes "sha256") × (n ≡ 64))
    ⊎ (((a ≡ codes "sha384") × (n ≡ 96)) ⊎ ((a ≡ codes "sha512") × (n ≡ 128)))

expected_len_iff : (a : Bytes) (n : ℕ) → (expected_len a ≡ ok n) ↔ Accepted a n
unfolding expected_len
expected_len_iff a n = (
  λ h. ground (
    arith,
    text_eq_iff a (codes "sha256"),
    text_eq_iff a (codes "sha384"),
    text_eq_iff a (codes "sha512"),
  ),
  elim [ inl (e, f) ↦ rw (e, f) | inr (inl (e, f)) ↦ rw (e, f) | inr (inr (e, f)) ↦ rw (e, f) ],
)

-- A text that is a digest, read from it with no parser.
pub record IsDigest (value : Bytes) (d : ParsedDigest) : Type 0 where
  pub written : Bytes
  pub digits : Bytes
  pub spelled : value ≡ written ++ (b':' ∷ digits)
  pub algorithm : d.algorithm ≡ ascii_lower written
  pub hex_value : d.hex_value ≡ ascii_lower digits
  pub accepted : Accepted d.algorithm (length digits)
  pub hex : All IsHex digits

parse_hex_sound :
    (a hex : Bytes) (d : ParsedDigest)
    → parse_hex a hex (expected_len a) ≡ ok d
    → (d.algorithm ≡ a) × (d.hex_value ≡ ascii_lower hex) × Accepted a (length hex) × All IsHex hex
unfolding parse_hex
parse_hex_sound a hex d h = go (expected_len a) refl h
  where
    go :
        (r : Either DigestError ℕ)
        → expected_len a ≡ r
        → parse_hex a hex r ≡ ok d
        → (d.algorithm ≡ a)
          × (d.hex_value ≡ ascii_lower hex)
          × Accepted a (length hex)
          × All IsHex hex
    go (err e) same h = absurd (cc)
    go (ok n) same h =
        let fits : length hex ≡ n = ground arith in
        (
          ground arith,
          ground arith,
          rw fits ((expected_len_iff a n).0 same),
          (all_iff is_hex is_hex_iff hex).0 (ground arith),
        )

malformed_sound : (value : Bytes) → malformed value ≡ false → (cut value b':').2 ≡ true
unfolding malformed
malformed_sound value h = ground arith

parse_digest_sound :
    (value : Bytes) (d : ParsedDigest) → parse_digest value ≡ ok d → IsDigest value d
unfolding parse_digest
parse_digest_sound value d h =
    let well_formed : malformed value ≡ false = ground arith in
    let (written, digits, found) = cut value b':' in
    let (spelled, lacking) = cut_found value b':' (malformed_sound value well_formed) in
    let (a, x, accepted, hex) =
      parse_hex_sound (ascii_lower written) digits d (rw well_formed at h) in
    record {
      written = written;
      digits = digits;
      spelled = spelled;
      algorithm = a;
      hex_value = x;
      accepted = rw a accepted;
      hex = hex;
    }

Lacks-ascii_lower : (s : Bytes) → Lacks b':' (ascii_lower s) → Lacks b':' s
unfolding ascii_lower lower_byte
Lacks-ascii_lower [] h = tt
Lacks-ascii_lower (c ∷ s) (h, hs) = (ground arith, Lacks-ascii_lower s hs)

Accepted-Lacks : (a : Bytes) (n : ℕ) → Accepted a n → Lacks b':' a × (a ≢ []) × (0 < n)
Accepted-Lacks a n (inl (e, f)) = rw (e, f) (omega arith, (λ h. cc), omega arith)
Accepted-Lacks a n (inr (inl (e, f))) = rw (e, f) (omega arith, (λ h. cc), omega arith)
Accepted-Lacks a n (inr (inr (e, f))) = rw (e, f) (omega arith, (λ h. cc), omega arith)

IsHex-Lacks : (s : Bytes) → All IsHex s → Lacks b':' s
IsHex-Lacks = All-map (λ c h. ground arith)

well_formed :
    (w x : Bytes)
    → Lacks b':' w
    → Lacks b':' x
    → w ≢ []
    → x ≢ []
    → malformed (w ++ (b':' ∷ x)) ≡ false
unfolding malformed
well_formed w x lw lx nw nx =
    rw
      (
        cut_at w x b':' lw,
        count_byte-append,
        (is_empty-eq-false_iff w).1 nw,
        (is_empty-eq-false_iff x).1 nx,
      )
      (unfold count_byte in
        ground (arith, (count_byte-Lacks b':' w).1 lw, (count_byte-Lacks b':' x).1 lx))

parse_hex_complete :
    (a hex : Bytes)
    → Accepted a (length hex)
    → All IsHex hex
    → parse_hex a hex (expected_len a) ≡ ok (record { algorithm = a; hex_value = ascii_lower hex })
unfolding parse_hex
parse_hex_complete a hex acc digits =
    rw ((expected_len_iff a (length hex)).1 acc, (all_iff is_hex is_hex_iff hex).1 digits)
      (ground arith)

ascii_lower-ne-nil : (s : Bytes) → ascii_lower s ≢ [] → s ≢ []
unfolding ascii_lower
ascii_lower-ne-nil [] h e = absurd (h refl)
ascii_lower-ne-nil (c ∷ s) h e = cc

length-ne-nil : (s : Bytes) → 0 < length s → s ≢ []
length-ne-nil [] h e = absurd (omega arith)
length-ne-nil (c ∷ s) h e = cc

pub parse_digest_of_parts :
    (w x : Bytes)
    → Accepted (ascii_lower w) (length x)
    → All IsHex x
    → parse_digest (w ++ (b':' ∷ x))
      ≡ ok (record { algorithm = ascii_lower w; hex_value = ascii_lower x })
unfolding parse_digest
parse_digest_of_parts w x acc digits =
    let (lacking, some_name, some_digits) = Accepted-Lacks (ascii_lower w) (length x) acc in
    let lw = Lacks-ascii_lower w lacking in
    rw
      (
        well_formed w x lw (IsHex-Lacks x digits) (ascii_lower-ne-nil w some_name)
            (length-ne-nil x some_digits),
        cut_at w x b':' lw,
      )
      (parse_hex_complete (ascii_lower w) x acc digits)

parse_digest_complete :
    (value : Bytes) (d : ParsedDigest) → IsDigest value d → parse_digest value ≡ ok d
parse_digest_complete value d i =
    rw i.spelled
      (parse_digest_of_parts i.written i.digits (rw i.algorithm at i.accepted) i.hex ∙ (cc))

-- `ParseDigest` succeeds exactly on an accepted algorithm in any case, a colon, and as many hex
-- digits as the algorithm's sums have; the result is both parts in lower case.
pub parse_digest_iff :
    (value : Bytes) (d : ParsedDigest) → (parse_digest value ≡ ok d) ↔ IsDigest value d
parse_digest_iff value d = (parse_digest_sound value d, parse_digest_complete value d)
