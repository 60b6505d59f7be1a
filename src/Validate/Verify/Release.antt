-- ===== src/Validate/Verify/Release.antt =====
-- Which releases a manifest covers.
use ai_catalog_go.Prelude.{
  arith, [], some, none, Option, false, inr, inl, sym, refl, is_empty-eq-false_iff, is_empty_iff,
  is_empty, Bool-cases, ◌||◌, ◌↔◌, ◌≡◌, ◌≢◌,
}
use ai_catalog_go.Validate.Verify.{unverifiable, release, release_subject, failed, verified}
use ai_catalog_go.Catalog.{Signature, TrustManifest, CatalogEntry, Subject}
use ai_catalog_go.Validate.Manifest.Subjects.{subject_mismatches-eq-nil_iff, Restates}
use ai_catalog_go.Validate.Manifest.{subject_mismatches}
use ai_catalog_go.Text.{text_eq_iff, text_eq}
use mathlib.Core.Option.{some-injective}
use mathlib.Core.Path.{subst}
use ai_catalog_go.Validate.Verify.Artifact.Fetching.{failed_iff}

pub record IsNamed (s : Subject) : Type 0 where
  pub identifier : s.identifier ≢ []
  pub type : s.type ≢ []
  pub digest : s.digest ≢ []

-- The signer is the contributor, and the subject is complete and restates the entry, whose digest
-- is given.
pub record Releases (entry : CatalogEntry) (manifest : TrustManifest) (signature : Signature)
    : Type 0 where
  pub same_signer : signature.signer ≡ manifest.contributor
  pub digest : entry.digest ≢ []
  pub subject : Subject
  pub given : manifest.subject ≡ some subject
  pub named : IsNamed subject
  pub restates : Restates entry subject

IsNamed-iff :
    (s : Subject)
    → ((is_empty s.identifier || is_empty s.type || is_empty s.digest) ≡ false) ↔ IsNamed s
IsNamed-iff s =
    let (i, i') = is_empty-eq-false_iff s.identifier in
    let (t, t') = is_empty-eq-false_iff s.type in
    let (d, d') = is_empty-eq-false_iff s.digest in
    (
      λ h. record {
        identifier = i (ground arith);
        type = t (ground arith);
        digest = d (ground arith);
      },
      λ n. let a = i' n.identifier in let b = t' n.type in let c = d' n.digest in ground arith,
    )

release_subject_iff :
    (entry : CatalogEntry) (o : Option Subject)
    → (release_subject entry o ≡ verified)
      ↔ ((s : Subject) × (o ≡ some s) × IsNamed s × Restates entry s)
unfolding release_subject
release_subject_iff entry none = (λ h. cc, λ (s, e, n, r). cc)
release_subject_iff entry (some s) = (
  λ h. elim (Bool-cases (is_empty s.identifier || is_empty s.type || is_empty s.digest)) [
    | inl t ↦ let k : failed ≡ verified = rw t at h in cc
    | inr t ↦ elim (Bool-cases (is_empty (subject_mismatches entry s))) [
      | inl u ↦ (
        s,
        refl,
        (IsNamed-iff s).0 t,
        (subject_mismatches-eq-nil_iff entry s).0 ((is_empty_iff _).0 u),
      )
      | inr u ↦ let k : failed ≡ verified = rw (t, u) at h in cc
    ]
  ],
  λ (d, e, n, r).
      let same = some-injective _ _ (sym e) in
      let n' = (IsNamed-iff s).1 (subst IsNamed same n) in
      let r' =
        (is_empty_iff _).1
          ((subject_mismatches-eq-nil_iff entry s).1 (subst (Restates entry) same r)) in
      rw (n', r') refl,
)

-- `release` verifies exactly the releases that a manifest covers.
pub release_iff :
    (entry : CatalogEntry) (manifest : TrustManifest) (signature : Signature)
    → (release entry manifest signature ≡ verified) ↔ Releases entry manifest signature
unfolding release
release_iff entry manifest signature = (
  λ h. elim (Bool-cases (text_eq signature.signer manifest.contributor)) [
    | inl t ↦ elim (Bool-cases (is_empty entry.digest)) [
      | inl u ↦ let k : failed ≡ verified = rw (t, u) at h in cc
      | inr u ↦
          let k : release_subject entry manifest.subject ≡ verified = rw (t, u) at h in
          let (s, given, named, restates) = (release_subject_iff entry manifest.subject).0 k in
          record {
            same_signer = (text_eq_iff signature.signer manifest.contributor).0 t;
            digest = (is_empty-eq-false_iff entry.digest).0 u;
            subject = s;
            given = given;
            named = named;
            restates = restates;
          }
    ]
    | inr t ↦ let k : failed ≡ verified = rw t at h in cc
  ],
  λ r.
      rw
        (
          (text_eq_iff signature.signer manifest.contributor).1 r.same_signer,
          (is_empty-eq-false_iff entry.digest).1 r.digest,
        )
        ((release_subject_iff entry manifest.subject).1 (r.subject, r.given, r.named, r.restates)),
)

release_subject-ne-unverifiable :
    (entry : CatalogEntry) (o : Option Subject) → release_subject entry o ≢ unverifiable
unfolding release_subject
release_subject-ne-unverifiable entry none e = cc
release_subject-ne-unverifiable entry (some s) e =
    elim (Bool-cases (is_empty s.identifier || is_empty s.type || is_empty s.digest)) [
      | inl t ↦ let k : failed ≡ unverifiable = rw t at e in cc
      | inr t ↦ elim (Bool-cases (is_empty (subject_mismatches entry s))) [
        | inl u ↦ let k : verified ≡ unverifiable = rw (t, u) at e in cc
        | inr u ↦ let k : failed ≡ unverifiable = rw (t, u) at e in cc
      ]
    ]

release-ne-unverifiable :
    (entry : CatalogEntry) (manifest : TrustManifest) (signature : Signature)
    → release entry manifest signature ≢ unverifiable
unfolding release
release-ne-unverifiable entry manifest signature e =
    elim (Bool-cases (text_eq signature.signer manifest.contributor)) [
      | inl t ↦ elim (Bool-cases (is_empty entry.digest)) [
        | inl u ↦ let k : failed ≡ unverifiable = rw (t, u) at e in cc
        | inr u ↦
            let k : release_subject entry manifest.subject ≡ unverifiable = rw (t, u) at e in
            release_subject-ne-unverifiable entry manifest.subject k
      ]
      | inr t ↦ let k : failed ≡ unverifiable = rw t at e in cc
    ]

-- `release` fails for every other release, and never leaves it open.
pub release-failed_iff :
    (entry : CatalogEntry) (manifest : TrustManifest) (signature : Signature)
    → (release entry manifest signature ≡ failed) ↔ (¬ Releases entry manifest signature)
release-failed_iff entry manifest signature =
    let (to, from) = failed_iff (release entry manifest signature) in
    let (rel, rel') = release_iff entry manifest signature in
    (
      λ e r. (to e).0 (rel' r),
      λ n. from (λ e. n (rel e), release-ne-unverifiable entry manifest signature),
    )
