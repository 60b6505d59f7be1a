-- ===== src/Validate/Verify/Document/Endorsed.antt =====
-- Which entries their publisher endorses.
use ai_catalog_go.Validate.Verify.Release.{Releases, release_iff}
use ai_catalog_go.Prelude.{
  ◌||◌, ◌+◌, arith, [], List, some, none, Option, true, Bool, inr, inl, ap, sym, refl, ℕ, any,
  Bool-cases, ◌&&◌, ◌∷◌, ◌↔◌, ◌⊎◌, ◌≡◌,
}
use ai_catalog_go.Validate.Verify.{
  release, RawEntry, Log, Fetch, accepted, is_verified, Services, ManifestTrust, Status,
  unverifiable, failed, verified,
}
use ai_catalog_go.Validate.Verify.Document.{
  base, verify_entry, check_if_accepted, rest_bytes, verify_signed, head_bytes, verify_manifests,
  Options,
}
use ai_catalog_go.Catalog.{Signature, TrustManifest, CatalogEntry}
use ai_catalog_go.Text.{Bytes}
use ai_catalog_go.Identity.{did, publisher}
use ai_catalog_go.Identity.Labels.{IsPublisher}
use ai_catalog_go.Validate.Profile.Rule.{is_publisher_iff}
use ai_catalog_go.Validate.Verify.Signer.Verdict.{IsSigned, check_signature_iff}
use ai_catalog_go.Validate.Signature.{manifest_jws_type}
use ai_catalog_go.Validate.Verify.Release.{release_iff, Releases}
use ai_catalog_go.Validate.Verify.Signer.{check_signature}
use ai_catalog_go.Validate.Verify.Artifact.Content.{check_artifact_iff, HasArtifact}
use mathlib.Core.Option.{some-injective}
use mathlib.Core.Path.{subst}
use ai_catalog_go.Validate.Verify.Artifact.{check_artifact}

is_verified_iff : (o : Option Status) → (is_verified o ≡ true) ↔ (o ≡ some verified)
is_verified_iff none = (λ e. cc, λ e. cc)
is_verified_iff (some verified) = (λ e. refl, λ e. refl)
is_verified_iff (some failed) = (λ e. cc, λ e. cc)
is_verified_iff (some unverifiable) = (λ e. cc, λ e. cc)

abbrev pub accepted_by_publisher : ManifestTrust → Bool
accepted_by_publisher m = m.publisher && accepted m

pub some_accepted :
    (ms : List ManifestTrust) → any accepted_by_publisher ms ≡ true → any accepted ms ≡ true
some_accepted [] e = cc
some_accepted (m ∷ ms) e = elim (Bool-cases (accepted_by_publisher m)) [
  | inl t ↦ ground arith
  | inr t ↦ let rest = some_accepted ms (ground arith) in ground arith
]

pub or_iff :
    {P Q : Type 0} {a b : Bool} → (a ≡ true) ↔ P → (b ≡ true) ↔ Q → ((a || b) ≡ true) ↔ (P ⊎ Q)
or_iff {a = a} (p, p') (q, q') = (
  λ h. elim (Bool-cases a) [ inl t ↦ inl (p t) | inr t ↦ inr (q (ground arith)) ],
  elim [ inl x ↦ let t = p' x in ground arith | inr y ↦ let t = q' y in ground arith ],
)

module _ {Url Key : Type 0} (services : Services Url Key) (fetch : Fetch) (options : Options) where
  -- A signature on a manifest's bytes that verifies, is the publisher's, and covers the release.
  pub record IsEndorsement (entry : CatalogEntry) (manifest : TrustManifest) (raw : Bytes)
      (log : Log) (s : Signature) : Type 0 where
    pub by_publisher :
        (p : Bytes) × (publisher entry.identifier ≡ some p) × IsPublisher p × (s.signer ≡ did p)
    pub signed : IsSigned services options.now fetch s manifest_jws_type raw log
    pub releases : Releases entry manifest s

  abbrev pub Endorses : CatalogEntry → TrustManifest → Bytes → Log → Type 0
  Endorses entry m raw log =
      (s : Signature) × (m.signature ≡ some s) × IsEndorsement entry m raw log s

  -- Some manifest endorses the entry, with the bytes at its place and the requests made before it.
  abbrev pub HasEndorsement : CatalogEntry → ℕ → List TrustManifest → List Bytes → Log → Type 0
  HasEndorsement entry i [] raws log = ⊥
  HasEndorsement entry i (m ∷ ms) raws log =
      Endorses entry m (head_bytes raws) log
      ⊎ HasEndorsement entry (i + 1) ms (rest_bytes raws)
          (verify_signed services fetch options entry i m (head_bytes raws) m.signature log).1

  signed_iff :
      (entry : CatalogEntry) (i : ℕ) (m : TrustManifest) (raw : Bytes) (o : Option Signature)
      (log : Log)
      → (accepted_by_publisher (verify_signed services fetch options entry i m raw o log).0 ≡ true)
        ↔ ((s : Signature) × (o ≡ some s) × IsEndorsement entry m raw log s)
  signed_iff entry i m raw none log = (λ e. cc, λ (s, e, x). cc)
  signed_iff entry i m raw (some s) log =
      let (who, who') = is_publisher_iff entry s.signer in
      let ((sig, sig'), _) =
        check_signature_iff services options.now fetch s manifest_jws_type raw log in
      let (rel, rel') = release_iff entry m s in
      let status = (check_signature services options.now fetch s manifest_jws_type raw log).0 in
      let (vs, vs') = is_verified_iff (some status) in
      let (vr, vr') = is_verified_iff (some (release entry m s)) in
      (
        λ e. (
          s,
          refl,
          record {
            by_publisher = who (ground arith);
            signed = sig (some-injective _ _ (vs (ground arith)));
            releases = rel (some-injective _ _ (vr (ground arith)));
          },
        ),
        λ (t, e, x).
            let y = subst (IsEndorsement entry m raw log) (some-injective _ _ (sym e)) x in
            let a = who' y.by_publisher in
            let b = vs' (ap some (sig' y.signed)) in
            let c = vr' (ap some (rel' y.releases)) in ground arith,
      )

  pub manifests_iff :
      (entry : CatalogEntry) (i : ℕ) (ms : List TrustManifest) (raws : List Bytes) (log : Log)
      → (any accepted_by_publisher (verify_manifests services fetch options entry i ms raws log).0
          ≡ true)
        ↔ HasEndorsement entry i ms raws log
  unfolding verify_manifests
  manifests_iff entry i [] raws log = (λ e. cc, λ x. absurd x)
  manifests_iff entry i (m ∷ ms) raws log =
      let log' =
        (verify_signed services fetch options entry i m (head_bytes raws) m.signature log).1 in
      let (one, one') = signed_iff entry i m (head_bytes raws) m.signature log in
      let (rest, rest') = manifests_iff entry (i + 1) ms (rest_bytes raws) log' in
      or_iff (one, one') (rest, rest')

  -- An entry that its publisher endorses: a manifest endorses it, and its artifact has the digest.
  abbrev pub IsEndorsed : ℕ → CatalogEntry → RawEntry → Log → Type 0
  IsEndorsed i entry raw log =
      HasEndorsement entry 0 entry.trust_manifests raw.trust_manifests log
      × HasArtifact services fetch (base services fetch options) entry raw.content
          (verify_manifests services fetch options entry 0 entry.trust_manifests raw.trust_manifests
            log).1

  artifact_iff :
      (entry : CatalogEntry) (content : Bytes) (ms : List ManifestTrust) (log : Log)
      → any accepted ms ≡ true
      → (is_verified (check_if_accepted services fetch options entry content ms log).0 ≡ true)
        ↔ HasArtifact services fetch (base services fetch options) entry content log
  artifact_iff entry content ms log e =
      let ((to, from), _) =
        check_artifact_iff services fetch (base services fetch options) entry content log in
      let status =
        (check_artifact services fetch (base services fetch options) entry content log).0 in
      let (v, v') = is_verified_iff (some status) in
      rw e (λ h. to (some-injective _ _ (v h)), λ a. v' (ap some (from a)))

  -- `entry` reports that the publisher endorses an entry exactly where a signature of the publisher
  -- verifies on the bytes of a manifest and covers the release, and the artifact has the digest.
  pub verify_entry-IsEndorsed_iff :
      (i : ℕ) (entry : CatalogEntry) (raw : RawEntry) (log : Log)
      → ((verify_entry services fetch options i entry raw log).0.publisher_endorsed ≡ true)
        ↔ IsEndorsed i entry raw log
  unfolding verify_entry
  verify_entry-IsEndorsed_iff i entry raw log =
      let (ms, log') =
        verify_manifests services fetch options entry 0 entry.trust_manifests raw.trust_manifests
          log in
      let (some_one, some_one') =
        manifests_iff entry 0 entry.trust_manifests raw.trust_manifests log in
      (
        λ h.
            let a : any accepted_by_publisher ms ≡ true = ground arith in
            let (v, _) = artifact_iff entry raw.content ms log' (some_accepted ms a) in
            (some_one a, v (ground arith)),
        λ (e, content_of).
            let a : any accepted_by_publisher ms ≡ true = some_one' e in
            let (_, v') = artifact_iff entry raw.content ms log' (some_accepted ms a) in
            let b = v' content_of in ground arith,
      )
