-- ===== src/Trust/Es256/Verified.antt =====
-- Which signatures verify.
-- A header that ES256 verification accepts.
use ai_catalog_go.Prelude.{
  List, arith, append-nil, [], some, none, Option, false, true, inr, inl, ap, refl, All, drop, take,
  length, Bool-cases, ◌∙◌, ◌==◌, ◌∷◌, ◌↔◌, ◌++◌, ◌≡◌,
}
use ai_catalog_go.Trust.Es256.{
  verify_es256, check_jws_parts, coordinate_len, signing_input, signature_len, check_raw, check_der,
  algorithm_es256, Ecdsa, header_allowed, invalid_jws,
}
use ai_catalog_go.Json.{Json}
use ai_catalog_go.Text.{codes, text_eq_iff, Lacks, split, Bytes}
use ai_catalog_go.Jws.{has, parse, Header}
use ai_catalog_go.Trust.Digest.{Hashes}
use ai_catalog_go.Jws.Parsing.{parse_iff, IsHeader}
use ai_catalog_go.Text.Splitting.{split_lacking, split_at, split-Lacks, separated-split, separated}
use ai_catalog_go.Base64.{base64_decode}
use mathlib.Core.Option.{some-injective}

pub record IsEs256Header (json : Json) (signature : Bytes) : Type 0 where
  pub header : Header
  pub parsed : IsHeader json signature header
  pub right_algorithm : header.algorithm ≡ algorithm_es256
  pub no_b64 : has header (codes "b64") ≡ false
  pub no_crit : has header (codes "crit") ≡ false

header_allowed_iff :
    (json : Json) (signature : Bytes)
    → (header_allowed (parse json signature) ≡ true) ↔ IsEs256Header json signature
unfolding header_allowed
header_allowed_iff json signature = (read (parse json signature) refl, write)
  where
    read :
        (o : Option Header)
        → parse json signature ≡ o
        → header_allowed o ≡ true
        → IsEs256Header json signature
    read none same h = cc
    read (some x) same h = record {
      header = x;
      parsed = (parse_iff json signature x).0 same;
      right_algorithm = (text_eq_iff x.algorithm algorithm_es256).0 (ground arith);
      no_b64 = ground arith;
      no_crit = ground arith;
    }

    write : IsEs256Header json signature → header_allowed (parse json signature) ≡ true
    write i =
        let found = (parse_iff json signature i.header).1 i.parsed in
        let same = (text_eq_iff i.header.algorithm algorithm_es256).1 i.right_algorithm in
        let allowed : header_allowed (some i.header) ≡ true = rw (same, i.no_b64, i.no_crit) refl in
        ap header_allowed found ∙ allowed

parts_iff :
    (s a c : Bytes)
    → (split s b'.' ≡ a ∷ [] ∷ c ∷ [])
      ↔ ((s ≡ a ++ (b'.' ∷ (b'.' ∷ c))) × (Lacks b'.' a × Lacks b'.' c))
parts_iff s a c = (
  λ e.
      let spelled : separated b'.' (a ∷ [] ∷ c ∷ []) ≡ b'.' ∷ s =
        rw e at (separated-split b'.' s) in
      let lacking : All (Lacks b'.') (a ∷ [] ∷ c ∷ []) = rw e at (split-Lacks b'.' s) in
      (cc (append-nil c), (lacking.0, lacking.1.1.0)),
  λ (e, (la, lc)).
      rw (e, split_at b'.' a (b'.' ∷ c) la, split_at b'.' [] c tt, split_lacking b'.' c lc) refl,
)

module _ {Key : Type 0} (json : Json) (hashes : Hashes) (ecdsa : Ecdsa Key) where
  -- A detached serialization whose 64 bytes of signature ECDSA verifies over the header's text, a
  -- dot and the encoded payload.
  pub record IsVerified (signature payload : Bytes) (key : Key) : Type 0 where
    pub header_text : Bytes
    pub signature_text : Bytes
    pub spelled : signature ≡ header_text ++ (b'.' ∷ (b'.' ∷ signature_text))
    pub header_lacks : Lacks b'.' header_text
    pub signature_lacks : Lacks b'.' signature_text
    pub header_valid : IsEs256Header json signature
    pub raw : Bytes
    pub decoded : base64_decode signature_text ≡ some raw
    pub long : length raw ≡ signature_len
    pub der : Bytes
    pub encoded : ecdsa.encode (take coordinate_len raw) (drop coordinate_len raw) ≡ some der
    pub verifies :
        ecdsa.verify key (hashes.sha256 (signing_input json hashes ecdsa header_text payload)) der
        ≡ true

  check_der_iff :
      (header payload : Bytes) (key : Key) (o : Option Bytes)
      → (check_der json hashes ecdsa header payload key o ≡ none) ↔ (
          (der : Bytes) × (o ≡ some der)
          × (ecdsa.verify key (hashes.sha256 (signing_input json hashes ecdsa header payload)) der
              ≡ true))
  unfolding check_der
  check_der_iff header payload key none = (λ h. cc, λ (d, e, v). cc)
  check_der_iff header payload key (some der) = (
    λ h. (der, refl, ground arith),
    λ (d, e, v). let same = some-injective _ _ e in rw (same, v) refl,
  )

  check_raw_iff :
      (header payload : Bytes) (key : Key) (o : Option Bytes)
      → (check_raw json hashes ecdsa header payload key o ≡ none) ↔ (
          (raw : Bytes) × (o ≡ some raw)
          × (length raw ≡ signature_len)
          × (check_der json hashes ecdsa header payload key
                (ecdsa.encode (take coordinate_len raw) (drop coordinate_len raw))
              ≡ none))
  unfolding check_raw
  check_raw_iff header payload key none = (λ h. cc, λ (r, e, l, c). cc)
  check_raw_iff header payload key (some raw) = elim (Bool-cases (length raw == signature_len)) [
    | inl t ↦ (
      λ h. (raw, refl, ground arith, rw t at h),
      λ (r, e, l, c).
          let same = some-injective _ _ e in
          let t' : (length r == signature_len) ≡ true = ground arith in rw (same, t', c) refl,
    )
    | inr t ↦ (
      λ h. let k : some invalid_jws ≡ none = rw t at h in cc,
      λ (r, e, l, c).
          let same = some-injective _ _ e in
          let l' : length raw ≡ signature_len = rw same l in absurd (ground arith),
    )
  ]

  module _ (signature payload : Bytes) (key : Key) where
    read_parts :
        (ps : List Bytes)
        → check_jws_parts json hashes ecdsa signature payload key ps ≡ none
        → (a : Bytes) × (c : Bytes) × (ps ≡ a ∷ [] ∷ c ∷ [])
          × (header_allowed (parse json signature) ≡ true)
          × (check_raw json hashes ecdsa a payload key (base64_decode c) ≡ none)
    unfolding check_jws_parts
    read_parts [] h = cc
    read_parts (a ∷ []) h = cc
    read_parts (a ∷ b ∷ []) h = cc
    read_parts (a ∷ b ∷ c ∷ d ∷ ps) h = cc
    read_parts (a ∷ (b ∷ m) ∷ c ∷ []) h = cc
    read_parts (a ∷ [] ∷ c ∷ []) h = elim (Bool-cases (header_allowed (parse json signature))) [
      | inl t ↦ (a, c, refl, t, rw t at h)
      | inr t ↦ let k : some invalid_jws ≡ none = rw t at h in cc
    ]

    IsVerified-sound :
        verify_es256 json hashes ecdsa signature payload key ≡ none
        → IsVerified signature payload key
    unfolding verify_es256
    IsVerified-sound h =
        let (a, c, parts, allowed, checked) = read_parts (split signature b'.') h in
        let (spelled, (la, lc)) = (parts_iff signature a c).0 parts in
        let (raw, decoded, long, der_checked) =
          (check_raw_iff a payload key (base64_decode c)).0 checked in
        let (der, encoded, verifies) = (check_der_iff a payload key _).0 der_checked in
        record {
          header_text = a;
          signature_text = c;
          spelled = spelled;
          header_lacks = la;
          signature_lacks = lc;
          header_valid = (header_allowed_iff json signature).0 allowed;
          raw = raw;
          decoded = decoded;
          long = long;
          der = der;
          encoded = encoded;
          verifies = verifies;
        }

    parts_complete :
        (i : IsVerified signature payload key)
        → check_jws_parts json hashes ecdsa signature payload key
            (i.header_text ∷ [] ∷ i.signature_text ∷ [])
          ≡ none
    unfolding check_jws_parts
    parts_complete i =
        let allowed = (header_allowed_iff json signature).1 i.header_valid in
        let der_checked =
          (check_der_iff i.header_text payload key _).1 (i.der, i.encoded, i.verifies) in
        let checked =
          (check_raw_iff i.header_text payload key (base64_decode i.signature_text)).1
            (i.raw, i.decoded, i.long, der_checked) in
        rw allowed checked

    -- `VerifyES256` returns no error exactly for a detached serialization whose header parses, names
    -- ES256 and has neither `b64` nor `crit`, and whose signature is base64url of 64 bytes that ECDSA
    -- verifies with the key over the sum of the header's text, a dot and the encoded payload.
    pub verify_es256_iff :
        (verify_es256 json hashes ecdsa signature payload key ≡ none)
        ↔ IsVerified signature payload key
    unfolding verify_es256
    verify_es256_iff = (
      IsVerified-sound,
      λ i.
          let parts =
            (parts_iff signature i.header_text i.signature_text).1
              (i.spelled, (i.header_lacks, i.signature_lacks)) in
          ap (check_jws_parts json hashes ecdsa signature payload key) parts ∙ parts_complete i,
    )
