-- ===== src/Validate/Manifest/Subjects.antt =====
-- The rules for the parts of a trust manifest.
-- A digest that `ParseDigest` accepts.
use ai_catalog_go.Prelude.{
  ok, err, arith, append-nil, [], List, Option, not, false, true, Bool, inr, inl, refl, ℕ, All,
  is_empty-eq-false_iff, is_empty_iff, is_empty, Either, Bool-cases, ◌∙◌, ◌&&◌, ◌+◌, ◌∷◌, ◌↔◌, ◌⊎◌,
  ◌++◌, ◌≡◌, ◌≢◌,
}
use ai_catalog_go.Validate.Codes.{
  Code, provenance_member, attestation_member, trust_schema_member, subject_mismatch,
  subject_member, digest_invalid,
}
use ai_catalog_go.Text.{codes, text_eq_iff, text_eq, Bytes}
use ai_catalog_go.Validate.Manifest.{
  mismatch, is_error, validate_provenance, validate_attestations, validate_trust_schema,
  validate_subject_binding, subject_mismatches, validate_subject, validate_digest,
}
use ai_catalog_go.Catalog.{
  ProvenanceLink, Attestation, TrustManifest, TrustSchema, CatalogEntry, Subject,
}
use ai_catalog_go.Validate.Report.{◌>>◌, error_if, add_error, for_each}
use ai_catalog_go.Trust.Digest.{DigestError, parse_digest, ParsedDigest}
use ai_catalog_go.Validate.Report.Enforces.{
  Enforces-error, Enforces-then, Enforces-pass, present_iff, Enforces-iff, Enforces-when_some,
  Enforces-unless, Enforces-for_each, IfSome, Enforces-present, IfPresent, Enforces,
}
use ai_catalog_go.Trust.Digest.Laws.{parse_digest_iff, IsDigest}
use ai_catalog_go.Validate.Signature.Rule.{Enforces-require}

abbrev pub IsDigestText : Bytes → Type 0
IsDigestText value = (d : ParsedDigest) × IsDigest value d

digest_iff : (value : Bytes) → (is_error (parse_digest value) ≡ false) ↔ IsDigestText value
digest_iff value = (read (parse_digest value) refl, λ (d, i). rw ((parse_digest_iff value d).1 i))
  where
    read :
        (r : Either DigestError ParsedDigest)
        → parse_digest value ≡ r
        → is_error r ≡ false
        → IsDigestText value
    read (err e) same h = cc
    read (ok d) same h = (d, (parse_digest_iff value d).0 same)

pub Enforces-validate_digest :
    (value path : Bytes) → Enforces (validate_digest value path) (IfPresent IsDigestText value)
unfolding validate_digest
Enforces-validate_digest value path =
    Enforces-present value
      λ _. Enforces-unless (is_error (parse_digest value)) digest_invalid path (digest_iff value)

-- A subject that is complete.
pub record IsSubject (s : Subject) : Type 0 where
  pub some_identifier : s.identifier ≢ []
  pub some_type : s.type ≢ []
  pub some_digest : s.digest ≢ []
  pub digest : IsDigestText s.digest

pub Enforces-validate_subject :
    (subject : Option Subject) (path : Bytes)
    → Enforces (validate_subject subject path) (IfSome IsSubject subject)
unfolding validate_subject
Enforces-validate_subject subject path = Enforces-when_some subject λ s.
    Enforces-iff
      (
        λ ((identifier, (type, (digest, _))), d). record {
          some_identifier = identifier;
          some_type = type;
          some_digest = digest;
          digest = (present_iff IsDigestText s.digest digest).0 d;
        },
        λ i. ((i.some_identifier, (i.some_type, (i.some_digest, tt))), inr i.digest),
      )
      (Enforces-then (Enforces-require subject_member _ path)
        (Enforces-validate_digest s.digest (path ++ codes ".digest")))

-- The subject restates the entry: members that both give agree, and so do the versions.
pub record Restates (e : CatalogEntry) (s : Subject) : Type 0 where
  pub identifier : (s.identifier ≡ []) ⊎ (s.identifier ≡ e.identifier)
  pub type : (s.type ≡ []) ⊎ ((e.type ≡ []) ⊎ (s.type ≡ e.type))
  pub digest : (s.digest ≡ []) ⊎ ((e.digest ≡ []) ⊎ (s.digest ≡ e.digest))
  pub version : s.version ≡ e.version

mismatch_iff :
    (b : Bool) (member : Bytes) (rest : List Bytes)
    → (mismatch b member ++ rest ≡ []) ↔ ((b ≡ false) × (rest ≡ []))
mismatch_iff true member rest = (λ h. cc, λ (h, _). cc)
mismatch_iff false member rest = (λ h. (refl, h), λ (_, h). h)

two_given_iff :
    (s e : Bytes)
    → ((not (is_empty s) && not (is_empty e) && not (text_eq s e)) ≡ false)
      ↔ ((s ≡ []) ⊎ ((e ≡ []) ⊎ (s ≡ e)))
two_given_iff s e = (
  λ h. elim (Bool-cases (is_empty s)) [
    | inl t ↦ inl ((is_empty_iff s).0 t)
    | inr t ↦ inr (elim (Bool-cases (is_empty e)) [
      | inl u ↦ inl ((is_empty_iff e).0 u)
      | inr u ↦ inr ((text_eq_iff s e).0 (ground arith))
    ])
  ],
  elim [
    | inl t ↦ ground (arith, (is_empty_iff s).1 t)
    | inr (inl t) ↦ ground (arith, (is_empty_iff e).1 t)
    | inr (inr t) ↦ ground (arith, (text_eq_iff s e).1 t)
  ],
)

one_given_iff :
    (s e : Bytes) → ((not (is_empty s) && not (text_eq s e)) ≡ false) ↔ ((s ≡ []) ⊎ (s ≡ e))
one_given_iff s e = (
  λ h. elim (Bool-cases (is_empty s)) [
    | inl t ↦ inl ((is_empty_iff s).0 t)
    | inr t ↦ inr ((text_eq_iff s e).0 (ground arith))
  ],
  elim [
    | inl t ↦ ground (arith, (is_empty_iff s).1 t)
    | inr t ↦ ground (arith, (text_eq_iff s e).1 t)
  ],
)

text_ne_iff : (s t : Bytes) → (not (text_eq s t) ≡ false) ↔ (s ≡ t)
text_ne_iff s t =
    (λ h. (text_eq_iff s t).0 (ground arith), λ e. ground (arith, (text_eq_iff s t).1 e))

-- The subject disagrees nowhere exactly where it restates the entry.
pub subject_mismatches-eq-nil_iff :
    (e : CatalogEntry) (s : Subject) → (subject_mismatches e s ≡ []) ↔ Restates e s
unfolding subject_mismatches
subject_mismatches-eq-nil_iff e s = (
  λ h.
      let (i, h₁) = (mismatch_iff _ _ _).0 h in
      let (t, h₂) = (mismatch_iff _ _ _).0 h₁ in
      let (d, h₃) = (mismatch_iff _ _ _).0 h₂ in
      let (v, _) = (mismatch_iff _ _ []).0 (append-nil _ ∙ h₃) in
      record {
        identifier = (one_given_iff s.identifier e.identifier).0 i;
        type = (two_given_iff s.type e.type).0 t;
        digest = (two_given_iff s.digest e.digest).0 d;
        version = (text_ne_iff s.version e.version).0 v;
      },
  λ r. rw (
    (one_given_iff s.identifier e.identifier).1 r.identifier,
    (two_given_iff s.type e.type).1 r.type,
    (two_given_iff s.digest e.digest).1 r.digest,
    (text_ne_iff s.version e.version).1 r.version,
  ),
)

-- A loop that reports every member of a list: no error exactly for the empty list.
Enforces-report_all :
    (code : Code) (path : Bytes → Bytes) (i : ℕ) (ms : List Bytes)
    → Enforces (for_each (λ _ m. add_error code (path m)) i ms) (ms ≡ [])
unfolding for_each
Enforces-report_all code path i [] = Enforces-iff (λ _. refl, λ _. tt) Enforces-pass
Enforces-report_all code path i (m ∷ ms) =
    Enforces-iff (λ (x, _). absurd x, λ h. cc)
      (Enforces-then (Enforces-error code (path m)) (Enforces-report_all code path (i + 1) ms))

pub Enforces-validate_subject_binding :
    (e : CatalogEntry) (m : TrustManifest) (path : Bytes)
    → Enforces (validate_subject_binding e m path) (IfSome (Restates e) m.subject)
unfolding validate_subject_binding
Enforces-validate_subject_binding e m path = Enforces-when_some m.subject λ s.
    Enforces-iff (subject_mismatches-eq-nil_iff e s) (
      Enforces-report_all subject_mismatch (λ member. path ++ (codes ".subject." ++ member)) 0
        (subject_mismatches e s))

pub record IsTrustSchema (s : TrustSchema) : Type 0 where
  pub some_identifier : s.identifier ≢ []
  pub some_version : s.version ≢ []

pub Enforces-validate_trust_schema :
    (schema : Option TrustSchema) (path : Bytes)
    → Enforces (validate_trust_schema schema path) (IfSome IsTrustSchema schema)
unfolding validate_trust_schema
Enforces-validate_trust_schema schema path = Enforces-when_some schema λ s.
    Enforces-iff
      (
        λ (i, v). record { some_identifier = i; some_version = v },
        λ i. (i.some_identifier, i.some_version),
      )
      (Enforces-then
        (Enforces-unless _ trust_schema_member (path ++ codes ".identifier")
          (is_empty-eq-false_iff s.identifier))
        (Enforces-unless _ trust_schema_member (path ++ codes ".version")
          (is_empty-eq-false_iff s.version)))

-- An attestation or a provenance link: two members that are there, and a digest that parses if given.
pub record IsItem (first second digest : Bytes) : Type 0 where
  pub some_first : first ≢ []
  pub some_second : second ≢ []
  pub digest_valid : IfPresent IsDigestText digest

Enforces-IsItem :
    (code : Code) (first second digest p q r : Bytes)
    → Enforces
        (error_if (is_empty first) code p
          >> (error_if (is_empty second) code q >> validate_digest digest r))
        (IsItem first second digest)
Enforces-IsItem code first second digest p q r =
    Enforces-iff
      (
        λ (f, (s, d)). record { some_first = f; some_second = s; digest_valid = d },
        λ i. (i.some_first, (i.some_second, i.digest_valid)),
      )
      (Enforces-then (Enforces-unless _ code p (is_empty-eq-false_iff first)) (
        Enforces-then (Enforces-unless _ code q (is_empty-eq-false_iff second))
          (Enforces-validate_digest digest r)))

pub Enforces-validate_attestations :
    (attestations : List Attestation) (path : Bytes)
    → Enforces
        (validate_attestations attestations path)
        (All (λ a. IsItem a.type a.uri a.digest) attestations)
unfolding validate_attestations
Enforces-validate_attestations attestations path =
    Enforces-for_each 0 attestations
      λ i a. Enforces-IsItem attestation_member a.type a.uri a.digest _ _ _

pub Enforces-validate_provenance :
    (provenance : List ProvenanceLink) (path : Bytes)
    → Enforces
        (validate_provenance provenance path)
        (All (λ l. IsItem l.relation l.source_id l.source_digest) provenance)
unfolding validate_provenance
Enforces-validate_provenance provenance path =
    Enforces-for_each 0 provenance
      λ i l. Enforces-IsItem provenance_member l.relation l.source_id l.source_digest _ _ _
