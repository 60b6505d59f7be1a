-- ===== src/Trust/Canonical/Manifest/Decoded.antt =====
-- The payload of a manifest that was decoded, and of one that has changed since.
-- What encoding/json documents of the value of a text: it is not empty, has no space around it, and
-- is its own value. A manifest is deeply equal to itself, deeply equal ones were decoded from the
-- same bytes, and the one with no field set is zero.
use ai_catalog_go.Prelude.{
  Option, [], some, none, false, true, inr, inl, ap, sym, refl, is_empty-eq-false_iff, is_empty,
  >>=-eq-some, Bool-cases, if◌then◌else◌, ◌∙◌, ◌>>=◌, ◌≡◌, ◌≢◌,
}
use ai_catalog_go.Trust.Canonical.Manifest.{
  decode_text, decoded_bytes, canonicalize_trust_manifest, raw_bytes, unmarshal, kept_bytes,
  zero_manifest, ManifestJson,
}
use ai_catalog_go.Catalog.{TrustManifest}
use ai_catalog_go.Json.{Json}
use ai_catalog_go.Trust.Canonical.{canonicalize_for_signature, Jcs}
use ai_catalog_go.Text.{text_eq_iff, text_eq, codes, Bytes}
use mathlib.Core.Option.{some-injective}
use mathlib.Core.Path.{subst}

pub record ManifestLaws (manifest_json : ManifestJson) : Type 0 where
  pub same : (m : TrustManifest) → manifest_json.deep_equal m m ≡ true
  pub same_raw : (a b : TrustManifest) → manifest_json.deep_equal a b ≡ true → a.raw ≡ b.raw
  pub zero_is_zero : manifest_json.is_zero zero_manifest ≡ true
  pub value_again :
      (text value : Bytes)
      → manifest_json.value_text text ≡ some value
      → manifest_json.value_text value ≡ some value
  pub some_value : (text value : Bytes) → manifest_json.value_text text ≡ some value → value ≢ []
  pub value_trimmed :
      (text value : Bytes)
      → manifest_json.value_text text ≡ some value
      → manifest_json.trim_space value ≡ value

module _ (manifest_json : ManifestJson) (laws : ManifestLaws manifest_json) (json : Json)
    (jcs : Jcs) where
  open manifest_json use {value_text, decode_onto, encode, deep_equal, trim_space}

  -- `json.Unmarshal` of a text into a fresh manifest gave this one; the value of the text is not
  -- null.
  pub record IsDecodedFrom (m : TrustManifest) (text value : Bytes) : Type 0 where
    pub the_value : value_text text ≡ some value
    pub not_null : value ≢ codes "null"
    pub decoded : decode_text manifest_json zero_manifest text ≡ some m

  -- The bytes of a manifest do not stand for it: there are none, they cannot be decoded, or what they
  -- decode to differs from it.
  pub data IsStale (k : TrustManifest) : Type 0 where
    built : k.raw ≡ [] → IsStale k
    undecodable : decode_text manifest_json zero_manifest k.raw ≡ none → IsStale k
    differs :
        (d : TrustManifest)
        → decode_text manifest_json zero_manifest k.raw ≡ some d
        → deep_equal d k ≡ false
        → IsStale k

  kept :
      (text : Bytes)
      → trim_space text ≢ codes "null"
      → kept_bytes manifest_json zero_manifest text ≡ text
  unfolding kept_bytes
  kept text n = elim (Bool-cases (text_eq (trim_space text) (codes "null"))) [
    | inl t ↦ absurd (n ((text_eq_iff (trim_space text) (codes "null")).0 t))
    | inr t ↦ rw (laws.zero_is_zero, t) refl
  ]

  unmarshal-raw :
      (m : TrustManifest) (text : Bytes)
      → unmarshal manifest_json zero_manifest text ≡ some m
      → m.raw ≡ kept_bytes manifest_json zero_manifest text
  unfolding unmarshal
  unmarshal-raw m text e =
      let (d, _, f) = >>=-eq-some (decode_onto zero_manifest text) _ e in
      sym (ap (λ x. x.raw) (some-injective _ _ f))

  -- Decoding a text is decoding its value.
  decode_text-value :
      (text value : Bytes)
      → value_text text ≡ some value
      → decode_text manifest_json zero_manifest text ≡ unmarshal manifest_json zero_manifest value
  unfolding decode_text
  decode_text-value text value e = rw e refl

  decoded_raw :
      (m : TrustManifest) (text value : Bytes) → IsDecodedFrom m text value → m.raw ≡ value
  decoded_raw m text value i =
      let there = laws.value_trimmed text value i.the_value in
      unmarshal-raw m value (sym (decode_text-value text value i.the_value) ∙ i.decoded)
      ∙ kept value (λ e. i.not_null (sym there ∙ e))

  -- The bytes that were kept decode to the manifest again.
  decoded_again :
      (m : TrustManifest) (text value : Bytes)
      → IsDecodedFrom m text value
      → decode_text manifest_json zero_manifest value ≡ some m
  decoded_again m text value i =
      decode_text-value value value (laws.value_again text value i.the_value)
      ∙ sym (decode_text-value text value i.the_value)
      ∙ i.decoded

  raw_bytes-decoded :
      (m : TrustManifest) (text value : Bytes)
      → IsDecodedFrom m text value
      → raw_bytes manifest_json m ≡ some value
  unfolding raw_bytes
  raw_bytes-decoded m text value i =
      let there = (is_empty-eq-false_iff value).1 (laws.some_value text value i.the_value) in
      subst (λ r. (if is_empty r then none else some r) ≡ some value)
        (sym (decoded_raw m text value i)) (rw there refl)

  decoded_bytes-decoded :
      (m : TrustManifest) (text value : Bytes)
      → IsDecodedFrom m text value
      → decoded_bytes manifest_json m ≡ some value
  unfolding decoded_bytes
  decoded_bytes-decoded m text value i =
      rw (raw_bytes-decoded m text value i, decoded_again m text value i, laws.same m) refl

  decoded_bytes-stale : (k : TrustManifest) → IsStale k → decoded_bytes manifest_json k ≡ none
  unfolding decoded_bytes raw_bytes
  decoded_bytes-stale k (built e) = rw e refl
  decoded_bytes-stale k (undecodable e) = elim (Bool-cases (is_empty k.raw)) [
    | inl t ↦ rw t refl
    | inr t ↦ rw (t, e) refl
  ]
  decoded_bytes-stale k (differs d e n) = elim (Bool-cases (is_empty k.raw)) [
    | inl t ↦ rw t refl
    | inr t ↦ rw (t, e, n) refl
  ]

  -- A manifest that keeps bytes with space around their value, as after a call of `UnmarshalJSON` itself,
  -- is stale.
  pub IsStale-padded :
      (k : TrustManifest) (value : Bytes)
      → value_text k.raw ≡ some value
      → value ≢ k.raw
      → value ≢ codes "null"
      → IsStale k
  IsStale-padded k value e n not_null =
      of_decoded (decode_text manifest_json zero_manifest k.raw) refl
    where
      of_decoded :
          (o : Option TrustManifest) → decode_text manifest_json zero_manifest k.raw ≡ o → IsStale k
      of_decoded none f = undecodable f
      of_decoded (some d) f =
          let i : IsDecodedFrom d k.raw value = record {
            the_value = e;
            not_null = not_null;
            decoded = f;
          } in
          elim (Bool-cases (deep_equal d k)) [
            | inl t ↦ absurd (n (sym (decoded_raw d k.raw value i) ∙ laws.same_raw d k t))
            | inr t ↦ differs d f t
          ]

  -- Where the decoder and the comparison do what is documented of them: the payload of a manifest that
  -- `json.Unmarshal` gave for a text is that of the text's value, without the space around it, if that
  -- is not null, so members that the struct does not hold are covered too; and the payload of a
  -- manifest whose bytes are missing, cannot be decoded, or decode to something else than the manifest
  -- is that of its encoding.
  pub canonicalize_trust_manifest_lem :
      (m changed : TrustManifest) (text value : Bytes)
      → IsDecodedFrom m text value
      → IsStale changed
      → (canonicalize_trust_manifest manifest_json json jcs m
          ≡ canonicalize_for_signature json jcs value)
        × (canonicalize_trust_manifest manifest_json json jcs changed
            ≡ (encode changed >>= canonicalize_for_signature json jcs))
  unfolding canonicalize_trust_manifest
  canonicalize_trust_manifest_lem m changed text value i s =
      (rw (decoded_bytes-decoded m text value i) refl, rw (decoded_bytes-stale changed s) refl)
