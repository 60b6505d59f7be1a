-- ===== src/Validate/Manifest/Rule.antt =====
-- Which trust manifests pass, alone and with the entry that carries them.
use ai_catalog_go.Prelude.{
  ℕ, arith, [], List, some, none, Option, not, false, inr, inl, sym, refl, All,
  is_empty-eq-false_iff, is_empty_iff, is_empty, is_some, Bool-cases, ◌∙◌, ◌&&◌, ◌||◌, ◌∷◌, ◌↔◌,
  ◌⊎◌, ◌++◌, ◌≡◌, ◌≢◌,
}
use ai_catalog_go.Validate.Codes.{
  manifest_signer, manifest_signed_member, manifest_empty, manifest_contributor_uri,
  manifest_contributor, extension_key,
}
use ai_catalog_go.Text.{codes, text_eq_iff, text_eq, Bytes}
use ai_catalog_go.Validate.Manifest.{
  validate_trust_manifest, validate_signed, is_substantive, validate_contributor,
}
use ai_catalog_go.Catalog.{
  ProvenanceLink, Attestation, Subject, TrustSchema, Signature, TrustManifest, Members,
}
use ai_catalog_go.Validate.Keys.{is_extension_key, is_absolute_uri, validate_extension_keys}
use ai_catalog_go.Json.{Json}
use ai_catalog_go.Validate.Keys.Uris.{
  is_extension_key_iff, is_absolute_uri_iff, IsExtensionKey, IsAbsoluteUri,
}
use ai_catalog_go.Validate.Report.Enforces.{
  Enforces-pass, Enforces-when_some, Enforces-error, Enforces-then, Enforces-unless, Enforces-if,
  IfSome, Enforces-for_each, Enforces-iff, Enforces,
}
use ai_catalog_go.Catalog.Version.{Times}
use ai_catalog_go.Validate.Signature.Rule.{Enforces-validate_signature, IsSignature}
use ai_catalog_go.Validate.Signature.{manifest_jws_type}
use ai_catalog_go.Validate.Manifest.Subjects.{
  Enforces-validate_provenance, Enforces-validate_attestations, Enforces-validate_trust_schema,
  Enforces-validate_subject, IsItem, IsTrustSchema, IsSubject,
}

-- A contributor is an absolute URI, and there is one.
contributor_iff : (c : Bytes) → (not (is_absolute_uri c) ≡ false) ↔ IsAbsoluteUri c
contributor_iff c = (
  λ h. (is_absolute_uri_iff c).0 (ground arith),
  λ u. ground (arith, (is_absolute_uri_iff c).1 u),
)

concat-cons-ne-nil : (s t : Bytes) (b : ℕ) → s ++ (b ∷ t) ≢ []
concat-cons-ne-nil [] t b h = cc
concat-cons-ne-nil (c ∷ s) t b h = cc

not_empty : (s : Bytes) → IsAbsoluteUri s → is_empty s ≡ false
not_empty s u =
    (is_empty-eq-false_iff s).1
      λ e. concat-cons-ne-nil u.scheme_part u.rest b':' (sym u.spelled ∙ e)

Enforces-validate_contributor :
    (c path : Bytes) → Enforces (validate_contributor c path) (IsAbsoluteUri c)
unfolding validate_contributor
Enforces-validate_contributor c path =
    Enforces-iff
      (
        elim [
          | inl (_, x) ↦ absurd x
          | inr (_, inl (_, x)) ↦ absurd x
          | inr (_, inr (h, _)) ↦ (contributor_iff c).0 h
        ],
        λ u. inr (not_empty c u, inr ((contributor_iff c).1 u, tt)),
      )
      (Enforces-if (is_empty c) (Enforces-error manifest_contributor path) (
        Enforces-if (not (is_absolute_uri c)) (Enforces-error manifest_contributor_uri path)
          Enforces-pass))

-- Every key of an extensions object is a URL or a reverse-DNS name.
abbrev pub HasExtensionKeys : Members → Type 0
HasExtensionKeys ms = All (λ m. IsExtensionKey m.0) ms

pub Enforces-validate_extension_keys :
    (extensions : Members) (path : Bytes)
    → Enforces (validate_extension_keys extensions path) (HasExtensionKeys extensions)
unfolding validate_extension_keys
Enforces-validate_extension_keys extensions path = Enforces-for_each 0 extensions λ i m.
    Enforces-unless (not (is_extension_key m.0)) extension_key path (
      λ h. (is_extension_key_iff m.0).0 (ground arith),
      λ k. ground (arith, (is_extension_key_iff m.0).1 k),
    )

-- A manifest that says something.
abbrev pub IsSubstantive : TrustManifest → Type 0
IsSubstantive m =
    m.signature ≢ none
    ⊎ (m.trust_schema ≢ none ⊎ (m.attestations ≢ [] ⊎ (m.provenance ≢ [] ⊎ m.extensions ≢ [])))

IsSubstantive-iff : (m : TrustManifest) → (not (is_substantive m) ≡ false) ↔ IsSubstantive m
unfolding is_substantive
IsSubstantive-iff m = decided m.signature m.trust_schema m.attestations m.provenance m.extensions
  where
    decided :
        (s : Option Signature) (t : Option TrustSchema) (a : List Attestation)
        (p : List ProvenanceLink) (x : Members)
        → (not (is_some s || is_some t || not (is_empty a) || not (is_empty p) || not (is_empty x))
            ≡ false)
          ↔ (s ≢ none ⊎ (t ≢ none ⊎ (a ≢ [] ⊎ (p ≢ [] ⊎ x ≢ []))))
    decided (some s) t a p x = (λ _. inl (λ e. cc), λ _. refl)
    decided none (some t) a p x = (λ _. inr (inl (λ e. cc)), λ _. refl)
    decided none none (a ∷ rest) p x = (λ _. inr (inr (inl (λ e. cc))), λ _. refl)
    decided none none [] (p ∷ ps) x = (λ _. inr (inr (inr (inl (λ e. cc)))), λ _. refl)
    decided none none [] [] (x ∷ xs) = (λ _. inr (inr (inr (inr (λ e. cc)))), λ _. refl)
    decided none none [] [] [] = (
      λ h. cc,
      elim [
        | inl n ↦ absurd (n refl)
        | inr (inl n) ↦ absurd (n refl)
        | inr (inr (inl n)) ↦ absurd (n refl)
        | inr (inr (inr (inl n))) ↦ absurd (n refl)
        | inr (inr (inr (inr n))) ↦ absurd (n refl)
      ],
    )

module _ (json : Json) (times : Times) where
  -- What a manifest that carries a signature must satisfy besides.
  pub record IsSigned (m : TrustManifest) (s : Signature) : Type 0 where
    pub has_subject : m.subject ≢ none
    pub is_signature : IsSignature json times manifest_jws_type s
    pub contributor_signs : s.signer ≡ m.contributor

  subject_iff : (o : Option Subject) → (not (is_some o) ≡ false) ↔ (o ≢ none)
  subject_iff none = (λ h. cc, λ n. absurd (n refl))
  subject_iff (some s) = (λ _ e. cc, λ _. refl)

  signer_iff :
      (s c : Bytes) → ((not (is_empty s) && not (text_eq s c)) ≡ false) ↔ ((s ≡ []) ⊎ (s ≡ c))
  signer_iff s c = (
    λ h. elim (Bool-cases (is_empty s)) [
      | inl t ↦ inl ((is_empty_iff s).0 t)
      | inr t ↦ inr ((text_eq_iff s c).0 (ground arith))
    ],
    elim [
      | inl t ↦ ground (arith, (is_empty_iff s).1 t)
      | inr t ↦ ground (arith, (text_eq_iff s c).1 t)
    ],
  )

  Enforces-validate_signed :
      (m : TrustManifest) (s : Signature) (path : Bytes)
      → Enforces (validate_signed json times m s path) (IsSigned m s)
  unfolding validate_signed
  Enforces-validate_signed m s path =
      Enforces-iff
        (
          λ (subject, (signature, signer)). record {
            has_subject = subject;
            is_signature = signature;
            contributor_signs = elim signer [
              | inl e ↦ absurd (signature.some_signer e)
              | inr e ↦ e
            ];
          },
          λ i. (i.has_subject, (i.is_signature, inr i.contributor_signs)),
        )
        (Enforces-then
          (Enforces-unless _ manifest_signed_member (path ++ codes ".subject")
            (subject_iff m.subject))
          (Enforces-then
            (Enforces-validate_signature json times s manifest_jws_type
              (path ++ codes ".signature"))
            (Enforces-unless _ manifest_signer (path ++ codes ".signature.signer")
              (signer_iff s.signer m.contributor))))

  -- The rules for a trust manifest.
  pub record IsManifest (m : TrustManifest) : Type 0 where
    pub extension_keys : HasExtensionKeys m.extensions
    pub contributor_uri : IsAbsoluteUri m.contributor
    pub substantive : IsSubstantive m
    pub signed : IfSome (IsSigned m) m.signature
    pub subject_valid : IfSome IsSubject m.subject
    pub schema_valid : IfSome IsTrustSchema m.trust_schema
    pub attestations_valid : All (λ a. IsItem a.type a.uri a.digest) m.attestations
    pub provenance_valid : All (λ l. IsItem l.relation l.source_id l.source_digest) m.provenance

  -- `validateTrustManifest` reports no error exactly where every extension key is one, the
  -- contributor is an absolute URI, the manifest says something, its subject, schema, attestations
  -- and provenance are complete with digests that parse, and a signature, where there is one, is a
  -- complete signature object of the manifest type by the contributor, with a subject beside it.
  pub Enforces-validate_trust_manifest :
      (m : TrustManifest) (path : Bytes)
      → Enforces (validate_trust_manifest json times m path) (IsManifest m)
  unfolding validate_trust_manifest
  Enforces-validate_trust_manifest m path =
      Enforces-iff
        (
          λ (k, (c, (s, (g, (b, (t, (a, p))))))). record {
            extension_keys = k;
            contributor_uri = c;
            substantive = s;
            signed = g;
            subject_valid = b;
            schema_valid = t;
            attestations_valid = a;
            provenance_valid = p;
          },
          λ i. (
            i.extension_keys,
            (
              i.contributor_uri,
              (
                i.substantive,
                (
                  i.signed,
                  (i.subject_valid, (i.schema_valid, (i.attestations_valid, i.provenance_valid))),
                ),
              ),
            ),
          ),
        )
        (Enforces-then (Enforces-validate_extension_keys m.extensions _) (
          Enforces-then (Enforces-validate_contributor m.contributor _) (
            Enforces-then (Enforces-unless _ manifest_empty path (IsSubstantive-iff m)) (
              Enforces-then (Enforces-when_some m.signature λ s. Enforces-validate_signed m s path)
                (Enforces-then (Enforces-validate_subject m.subject _) (
                  Enforces-then (Enforces-validate_trust_schema m.trust_schema _) (
                    Enforces-then (Enforces-validate_attestations m.attestations path)
                      (Enforces-validate_provenance m.provenance path))))))))
