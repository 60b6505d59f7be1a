-- ===== src/Trust/Canonical/Tests.antt =====
-- A payload with stand-ins for JSON and its canonical form, which know three objects.
use ai_catalog_go.Prelude.{
  [], List, some, true, inr, inl, sym, refl, Bool-cases, if◌then◌else◌, ◌>>=◌, ◌∷◌, ◌⊎◌, ◌≡◌,
}
use ai_catalog_go.Trust.Canonical.{
  set_member, payload_of, jws_member, drop_member, canonicalize_for_signature, canonicalize, Jcs,
  signature_member,
}
use ai_catalog_go.Text.{codes, text_eq, Bytes}
use ai_catalog_go.Json.{Json}
use ai_catalog_go.Trust.Canonical.Payload.{
  canonicalize_for_signature_lem, signed_members, payload_of_members, JcsLaws,
}
use ai_catalog_go.Validate.Samples.{stub_json}
use ai_catalog_go.Jws.Parsing.{DistinctNames}
use ai_catalog_go.Jws.{find_member}
use mathlib.Core.Path.{subst}
use mathlib.Core.Option.{some-injective}

abbrev plain : Bytes
plain = codes "{}"

abbrev signed : Bytes
signed = codes "{\"signature\":{\"jws\":\"\"}}"

abbrev unsigned : Bytes
unsigned = codes "{\"signature\":{}}"

abbrev inner_signature : Bytes
inner_signature = codes "{\"jws\":\"\"}"

abbrev one_member : Bytes → Bytes → List (Bytes × Bytes)
one_member name value = (name, value) ∷ []

abbrev json : Json
json = record stub_json {
  object = λ raw.
      if text_eq raw signed
      then some (one_member signature_member inner_signature)
      else if text_eq raw unsigned
      then some (one_member signature_member plain)
      else if text_eq raw inner_signature
      then some (one_member jws_member (codes "\"\""))
      else some [];
}

abbrev written : List (Bytes × Bytes) → Bytes
written [] = plain
written ((k, v) ∷ ms) = if text_eq v inner_signature then signed else unsigned

abbrev canonical_of : Bytes → Bytes
canonical_of s = if text_eq s signed then signed else if text_eq s unsigned then unsigned else plain

abbrev jcs : Jcs
jcs = record {
  valid_utf8 = λ s. true;
  valid = λ s. true;
  transform = λ s. some (canonical_of s);
  marshal = λ ms. some (written ms);
}

three_texts :
    (s : Bytes)
    → (canonical_of s ≡ signed) ⊎ ((canonical_of s ≡ unsigned) ⊎ (canonical_of s ≡ plain))
three_texts s = elim (Bool-cases (text_eq s signed)) [
  | inl t ↦ inl (rw t refl)
  | inr t ↦ elim (Bool-cases (text_eq s unsigned)) [
    | inl u ↦ inr (inl (rw (t, u) refl))
    | inr u ↦ inr (inr (rw (t, u) refl))
  ]
]

abbrev Lawful : Bytes → Type 0
Lawful c =
    (ms : List (Bytes × Bytes))
    → json.object c ≡ some ms
    → ((jcs.marshal ms >>= canonicalize jcs) ≡ some c) × DistinctNames ms

Lawful-signed : Lawful signed
unfolding canonicalize text_eq find_member
Lawful-signed ms e =
    subst (λ x. ((jcs.marshal x >>= canonicalize jcs) ≡ some signed) × DistinctNames x)
      (some-injective _ _ e) (refl, (tt, tt))

Lawful-unsigned : Lawful unsigned
unfolding canonicalize text_eq find_member
Lawful-unsigned ms e =
    subst (λ x. ((jcs.marshal x >>= canonicalize jcs) ≡ some unsigned) × DistinctNames x)
      (some-injective _ _ e) (refl, (tt, tt))

Lawful-plain : Lawful plain
unfolding canonicalize text_eq find_member
Lawful-plain ms e =
    subst (λ x. ((jcs.marshal x >>= canonicalize jcs) ≡ some plain) × DistinctNames x)
      (some-injective _ _ e) (refl, tt)

lawful : (s : Bytes) → Lawful (canonical_of s)
lawful s = elim (three_texts s) [
  | inl e ↦ subst Lawful (sym e) Lawful-signed
  | inr (inl e) ↦ subst Lawful (sym e) Lawful-unsigned
  | inr (inr e) ↦ subst Lawful (sym e) Lawful-plain
]

canonical-Lawful : (s c : Bytes) → canonicalize jcs s ≡ some c → Lawful c
unfolding canonicalize
canonical-Lawful s c e = subst Lawful (some-injective _ _ e) (lawful s)

laws : JcsLaws json jcs
laws = record {
  restores = λ s c ms e o. (canonical-Lawful s c e ms o).0;
  distinct = λ s c ms e o. (canonical-Lawful s c e ms o).1;
}

signed_canonical : canonicalize jcs signed ≡ some signed
unfolding canonicalize text_eq
signed_canonical = refl

signed_object : json.object signed ≡ some (one_member signature_member inner_signature)
unfolding text_eq
signed_object = refl

canonicalize_for_signature_lem_example :
    canonicalize_for_signature json jcs signed
    ≡ payload_of_members json jcs
        (signed_members json jcs (one_member signature_member inner_signature))
canonicalize_for_signature_lem_example =
    canonicalize_for_signature_lem json jcs laws signed signed
      (one_member signature_member inner_signature) signed_canonical refl signed_object

payload_tests :
    (canonicalize_for_signature json jcs signed ≡ some unsigned)
    × (canonicalize_for_signature json jcs plain ≡ some plain)
unfolding canonicalize_for_signature text_eq drop_member find_member payload_of set_member
    canonicalize
payload_tests = (refl, refl)
