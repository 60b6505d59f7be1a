-- ===== src/Trust/Canonical/Manifest/Tests.antt =====
-- A manifest with stand-ins that read and write its contributor.
use ai_catalog_go.Prelude.{
  inr, inl, Bool-cases, arith, none, Option, if◌then◌else◌, ◌==◌, ◌&&◌, ◌∷◌, [], some, false, true,
  refl, is_empty, ◌>>=◌, ◌≡◌, ◌≢◌,
}
use ai_catalog_go.Trust.Canonical.Manifest.{
  decode_text, zero_manifest, canonicalize_trust_manifest, unmarshal, ManifestJson,
}
use ai_catalog_go.Trust.Canonical.{canonicalize, canonicalize_for_signature, Jcs}
use ai_catalog_go.Text.{text_eq_iff, codes, text_eq, Bytes}
use ai_catalog_go.Catalog.{TrustManifest}
use ai_catalog_go.Trust.Canonical.Manifest.Decoded.{
  differs, canonicalize_trust_manifest_lem, ManifestLaws,
}
use ai_catalog_go.Validate.Samples.{stub_json}
use mathlib.Core.Option.{some-injective}
use mathlib.Core.Path.{subst}

-- The value of a text is what stands behind its leading spaces.
abbrev value_of : Bytes → Option Bytes
value_of [] = none
value_of (c ∷ s) = let rest = value_of s in if c == b' ' then rest else some (c ∷ s)

abbrev stub_manifest_json : ManifestJson
stub_manifest_json = record {
  value_text = value_of;
  decode_onto = λ m text. some (record m { contributor = text });
  encode = λ m. some m.contributor;
  deep_equal = λ a b. text_eq a.contributor b.contributor && text_eq a.raw b.raw;
  is_zero = λ m. is_empty m.contributor;
  trim_space = λ s. s;
}

abbrev jcs : Jcs
jcs = record {
  valid_utf8 = λ s. true;
  valid = λ s. true;
  transform = λ s. some s;
  marshal = λ ms. some [];
}

abbrev text : Bytes
text = codes "acme"

abbrev decoded : TrustManifest
decoded = record zero_manifest { contributor = text; raw = text }

abbrev changed : TrustManifest
changed = record decoded { contributor = codes "other" }

stub_same : (m : TrustManifest) → stub_manifest_json.deep_equal m m ≡ true
stub_same m =
    let c = (text_eq_iff m.contributor m.contributor).1 refl in
    let r = (text_eq_iff m.raw m.raw).1 refl in rw (c, r) refl

stub_same_raw : (a b : TrustManifest) → stub_manifest_json.deep_equal a b ≡ true → a.raw ≡ b.raw
stub_same_raw a b e = (text_eq_iff a.raw b.raw).0 (ground arith)

some_value : (text value : Bytes) → value_of text ≡ some value → value ≢ []
some_value [] value e = absurd (ground arith)
some_value (c ∷ s) value e = elim (Bool-cases (c == b' ')) [
  | inl t ↦ some_value s value (rw t at e)
  | inr t ↦ λ n. let same = some-injective _ _ (rw t at e) in cc
]

value_again : (text value : Bytes) → value_of text ≡ some value → value_of value ≡ some value
value_again [] value e = absurd (ground arith)
value_again (c ∷ s) value e = elim (Bool-cases (c == b' ')) [
  | inl t ↦ value_again s value (rw t at e)
  | inr t ↦ subst (λ v. value_of v ≡ some v) (some-injective _ _ (rw t at e)) (rw t refl)
]

laws : ManifestLaws stub_manifest_json
laws = record {
  same = stub_same;
  same_raw = stub_same_raw;
  zero_is_zero = refl;
  value_again = value_again;
  some_value = some_value;
  value_trimmed = λ t v e. refl;
}

not_null : text ≢ codes "null"
unfolding text_eq
not_null e =
    let k : text_eq text (codes "null") ≡ true = (text_eq_iff text (codes "null")).1 e in
    let k' : false ≡ true = k in cc

unmarshal_test : unmarshal stub_manifest_json zero_manifest text ≡ some decoded
unfolding unmarshal text_eq
unmarshal_test = refl

manifest_tests :
    (canonicalize_trust_manifest stub_manifest_json stub_json jcs decoded ≡ some text)
    × (canonicalize_trust_manifest stub_manifest_json stub_json jcs changed ≡ some (codes "other"))
unfolding canonicalize_trust_manifest text_eq canonicalize_for_signature canonicalize
manifest_tests = (refl, refl)

changed_test : stub_manifest_json.deep_equal decoded changed ≡ false
unfolding text_eq
changed_test = refl

-- The text with a space before it.
abbrev padded : Bytes
padded = b' ' ∷ text

decoded_test : decode_text stub_manifest_json zero_manifest padded ≡ some decoded
unfolding decode_text text_eq
decoded_test = refl

changed_again : decode_text stub_manifest_json zero_manifest changed.raw ≡ some decoded
unfolding decode_text text_eq
changed_again = refl

padded_test :
    canonicalize_trust_manifest stub_manifest_json stub_json jcs (record decoded { raw = padded })
    ≡ some text
unfolding canonicalize_trust_manifest text_eq canonicalize_for_signature canonicalize
padded_test = refl

canonicalize_trust_manifest_lem_example :
    (canonicalize_trust_manifest stub_manifest_json stub_json jcs decoded
      ≡ canonicalize_for_signature stub_json jcs text)
    × (canonicalize_trust_manifest stub_manifest_json stub_json jcs changed
        ≡ (stub_manifest_json.encode changed >>= canonicalize_for_signature stub_json jcs))
canonicalize_trust_manifest_lem_example =
    canonicalize_trust_manifest_lem stub_manifest_json laws stub_json jcs decoded changed padded
      text (record { the_value = refl; not_null = not_null; decoded = decoded_test })
      (differs decoded changed_again changed_test)
