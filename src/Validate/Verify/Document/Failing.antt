-- ===== src/Validate/Verify/Document/Failing.antt =====
-- Which entries fail for their publisher.
use ai_catalog_go.Prelude.{
  arith, [], List, some, none, Option, true, Bool, ap, sym, refl, ℕ, any, ◌&&◌, ◌+◌, ◌∷◌, ◌↔◌, ◌⊎◌,
  ◌≡◌,
}
use ai_catalog_go.Validate.Verify.{
  release, accepted, Log, RawEntry, Fetch, manifest_failed, is_failed, Services, ManifestTrust,
  Status, unverifiable, failed, verified,
}
use ai_catalog_go.Validate.Verify.Document.{
  check_if_accepted, base, rest_bytes, verify_signed, head_bytes, verify_entry, verify_manifests,
  Options,
}
use ai_catalog_go.Catalog.{TrustManifest, Signature, CatalogEntry}
use ai_catalog_go.Text.{Bytes}
use ai_catalog_go.Identity.{did, publisher}
use ai_catalog_go.Validate.Verify.Signer.{check_signature}
use ai_catalog_go.Validate.Verify.Artifact.Content.{HasArtifact}
use ai_catalog_go.Validate.Verify.Document.Endorsed.{
  some_accepted, accepted_by_publisher, or_iff, manifests_iff, HasEndorsement,
}
use ai_catalog_go.Identity.Labels.{IsPublisher}
use ai_catalog_go.Validate.Verify.Signer.Verdict.{check_signature_iff, CannotTell, IsSigned}
use ai_catalog_go.Validate.Profile.Rule.{is_publisher_iff}
use ai_catalog_go.Validate.Signature.{manifest_jws_type}
use ai_catalog_go.Validate.Verify.Artifact.Fetching.{
  failed_iff, check_artifact-failed_iff, CannotFetch,
}
use ai_catalog_go.Validate.Verify.Release.{release-failed_iff, Releases}
use ai_catalog_go.Validate.Verify.Artifact.{check_artifact}
use mathlib.Core.Option.{some-injective}
use mathlib.Core.Path.{subst}

is_failed_iff : (o : Option Status) → (is_failed o ≡ true) ↔ (o ≡ some failed)
is_failed_iff none = (λ e. cc, λ e. cc)
is_failed_iff (some verified) = (λ e. cc, λ e. cc)
is_failed_iff (some failed) = (λ e. refl, λ e. refl)
is_failed_iff (some unverifiable) = (λ e. cc, λ e. cc)

abbrev failed_for_publisher : ManifestTrust → Bool
failed_for_publisher m = m.publisher && manifest_failed m

module _ {Url Key : Type 0} (services : Services Url Key) (fetch : Fetch) (options : Options) where
  -- A signature of the publisher that does not verify although it could be checked, or that does not
  -- cover the release.
  pub record IsRefutation (entry : CatalogEntry) (manifest : TrustManifest) (raw : Bytes)
      (log : Log) (s : Signature) : Type 0 where
    pub by_publisher :
        (p : Bytes) × (publisher entry.identifier ≡ some p) × IsPublisher p × (s.signer ≡ did p)
    pub fails :
        ((¬ IsSigned services options.now fetch s manifest_jws_type raw log)
          × (¬ CannotTell services options.now fetch s manifest_jws_type raw log))
        ⊎ (¬ Releases entry manifest s)

  -- Some manifest is refuted, with the bytes at its place and the requests made before it.
  abbrev pub HasRefutation : CatalogEntry → ℕ → List TrustManifest → List Bytes → Log → Type 0
  HasRefutation entry i [] raws log = ⊥
  HasRefutation entry i (m ∷ ms) raws log =
      ((s : Signature) × (m.signature ≡ some s) × IsRefutation entry m (head_bytes raws) log s)
      ⊎ HasRefutation entry (i + 1) ms (rest_bytes raws)
          (verify_signed services fetch options entry i m (head_bytes raws) m.signature log).1

  check_signature-failed_iff :
      (s : Signature) (typ document : Bytes) (log : Log)
      → ((check_signature services options.now fetch s typ document log).0 ≡ failed) ↔ (
          (¬ IsSigned services options.now fetch s typ document log)
          × (¬ CannotTell services options.now fetch s typ document log))
  check_signature-failed_iff s typ document log =
      let (to, from) =
        failed_iff (check_signature services options.now fetch s typ document log).0 in
      let ((v, v'), (u, u')) = check_signature_iff services options.now fetch s typ document log in
      (
        λ e. let (n, m) = to e in (λ a. n (v' a), λ c. m (u' c)),
        λ (n, m). from (λ e. n (v e), λ e. m (u e)),
      )

  refuted_iff :
      (entry : CatalogEntry) (i : ℕ) (m : TrustManifest) (raw : Bytes) (o : Option Signature)
      (log : Log)
      → (failed_for_publisher (verify_signed services fetch options entry i m raw o log).0 ≡ true)
        ↔ ((s : Signature) × (o ≡ some s) × IsRefutation entry m raw log s)
  refuted_iff entry i m raw none log = (λ e. cc, λ (s, e, x). cc)
  refuted_iff entry i m raw (some s) log =
      let (who, who') = is_publisher_iff entry s.signer in
      let (sig, sig') = check_signature-failed_iff s manifest_jws_type raw log in
      let (rel, rel') = release-failed_iff entry m s in
      let status = (check_signature services options.now fetch s manifest_jws_type raw log).0 in
      let (vs, vs') = is_failed_iff (some status) in
      let (vr, vr') = is_failed_iff (some (release entry m s)) in
      let (wrong, wrong') =
        or_iff (λ e. sig (some-injective _ _ (vs e)), λ x. vs' (ap some (sig' x)))
          (λ e. rel (some-injective _ _ (vr e)), λ x. vr' (ap some (rel' x))) in
      (
        λ e. (s, refl, record { by_publisher = who (ground arith); fails = wrong (ground arith) }),
        λ (t, e, x).
            let y = subst (IsRefutation entry m raw log) (some-injective _ _ (sym e)) x in
            let a = who' y.by_publisher in let b = wrong' y.fails in ground arith,
      )

  refutations_iff :
      (entry : CatalogEntry) (i : ℕ) (ms : List TrustManifest) (raws : List Bytes) (log : Log)
      → (any failed_for_publisher (verify_manifests services fetch options entry i ms raws log).0
          ≡ true)
        ↔ HasRefutation entry i ms raws log
  unfolding verify_manifests
  refutations_iff entry i [] raws log = (λ e. cc, λ x. absurd x)
  refutations_iff entry i (m ∷ ms) raws log =
      let log' =
        (verify_signed services fetch options entry i m (head_bytes raws) m.signature log).1 in
      or_iff (refuted_iff entry i m (head_bytes raws) m.signature log)
        (refutations_iff entry (i + 1) ms (rest_bytes raws) log')

  -- The artifact is fetched, or there inline, and has not the digest.
  abbrev pub ArtifactFails : CatalogEntry → Bytes → Log → Type 0
  ArtifactFails entry content log =
      (¬ HasArtifact services fetch (base services fetch options) entry content log)
      × (¬ CannotFetch services fetch (base services fetch options) entry content log)

  -- An entry that fails for its publisher: a manifest is refuted, or one endorses the entry and the
  -- artifact has not the digest.
  abbrev pub FailsForPublisher : ℕ → CatalogEntry → RawEntry → Log → Type 0
  FailsForPublisher i entry raw log =
      HasRefutation entry 0 entry.trust_manifests raw.trust_manifests log
      ⊎ (HasEndorsement services fetch options entry 0 entry.trust_manifests raw.trust_manifests log
          × ArtifactFails entry raw.content
              (verify_manifests services fetch options entry 0 entry.trust_manifests
                raw.trust_manifests log).1)

  ArtifactFails-iff :
      (entry : CatalogEntry) (content : Bytes) (ms : List ManifestTrust) (log : Log)
      → any accepted ms ≡ true
      → (is_failed (check_if_accepted services fetch options entry content ms log).0 ≡ true)
        ↔ ArtifactFails entry content log
  ArtifactFails-iff entry content ms log e =
      let (to, from) =
        check_artifact-failed_iff services fetch (base services fetch options) entry content log in
      let status =
        (check_artifact services fetch (base services fetch options) entry content log).0 in
      let (v, v') = is_failed_iff (some status) in
      rw e (λ h. to (some-injective _ _ (v h)), λ a. v' (ap some (from a)))

  -- `publisher_failed` is set exactly for the entries that fail for their publisher.
  pub verify_entry-failed_iff :
      (i : ℕ) (entry : CatalogEntry) (raw : RawEntry) (log : Log)
      → ((verify_entry services fetch options i entry raw log).0.publisher_failed ≡ true)
        ↔ FailsForPublisher i entry raw log
  unfolding verify_entry
  verify_entry-failed_iff i entry raw log =
      let (ms, log') =
        verify_manifests services fetch options entry 0 entry.trust_manifests raw.trust_manifests
          log in
      let (end, end') =
        manifests_iff services fetch options entry 0 entry.trust_manifests raw.trust_manifests
          log in
      or_iff (refutations_iff entry 0 entry.trust_manifests raw.trust_manifests log) (
        λ h.
            let a : any accepted_by_publisher ms ≡ true = ground arith in
            let (v, _) = ArtifactFails-iff entry raw.content ms log' (some_accepted ms a) in
            (end a, v (ground arith)),
        λ (e, content_fails).
            let a : any accepted_by_publisher ms ≡ true = end' e in
            let (_, v') = ArtifactFails-iff entry raw.content ms log' (some_accepted ms a) in
            let b = v' content_fails in ground arith,
      )
