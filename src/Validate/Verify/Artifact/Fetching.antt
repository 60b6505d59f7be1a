-- ===== src/Validate/Verify/Artifact/Fetching.antt =====
-- Which artifacts cannot be fetched, and which fail.
use ai_catalog_go.Prelude.{
  [], some, none, Option, false, true, inr, inl, sym, refl, is_empty-eq-false_iff, is_empty_iff,
  is_empty, Bool-cases, ◌∙◌, ◌↔◌, ◌⊎◌, ◌≡◌, ◌≢◌,
}
use ai_catalog_go.Validate.Verify.{Log, Fetch, Services, Status, unverifiable, failed, verified}
use ai_catalog_go.Catalog.{CatalogEntry}
use ai_catalog_go.Text.{text_eq, text_eq_iff, codes, Bytes}
use ai_catalog_go.Validate.Verify.Artifact.{
  check_artifact, check_location, check_canonical, check_fetched, resolve_location,
}
use ai_catalog_go.Validate.Verify.Artifact.Content.{
  check_artifact_iff, HasArtifact, check_content_iff,
}
use ai_catalog_go.Trust.Canonical.{canonicalize}
use mathlib.Core.Option.{some-injective}
use mathlib.Core.Path.{subst}

pub failed_iff : (s : Status) → (s ≡ failed) ↔ ((s ≢ verified) × (s ≢ unverifiable))
failed_iff verified = (λ e. (λ f. cc, λ f. cc), λ (n, m). absurd (n refl))
failed_iff failed = (λ _. (λ f. cc, λ f. cc), λ _. refl)
failed_iff unverifiable = (λ e. (λ f. cc, λ f. cc), λ (n, m). absurd (m refl))

module _ {Url Key : Type 0} (services : Services Url Key) (fetch : Fetch) (base : Option Url)
    (entry : CatalogEntry) (content : Bytes) (log : Log) where
  open services use {jcs, scheme, url_text}

  -- The address of an entry with no inline data is not of https, or the fetch of it fails.
  abbrev pub CannotFetch : Type 0
  CannotFetch =
      (content ≡ [])
      × ((l : Url) × (resolve_location services base entry.url ≡ some l)
          × (scheme l ≢ codes "https" ⊎ (fetch log (url_text l) ≡ none)))

  fetched-unverifiable_iff :
      (o : Option Bytes) → (check_fetched services entry.digest o ≡ unverifiable) ↔ (o ≡ none)
  fetched-unverifiable_iff none = (λ _. refl, λ _. refl)
  fetched-unverifiable_iff (some c) =
      (λ e. absurd ((check_content_iff services entry.digest c).1 e), λ e. cc)

  canonical-ne-unverifiable :
      (o : Option Bytes) → check_canonical services entry.digest o ≢ unverifiable
  canonical-ne-unverifiable none e = cc
  canonical-ne-unverifiable (some c) e = (check_content_iff services entry.digest c).1 e

  abbrev Unreachable : Option Url → Type 0
  Unreachable o =
      (l : Url) × (o ≡ some l) × (scheme l ≢ codes "https" ⊎ (fetch log (url_text l) ≡ none))

  location-unverifiable_iff :
      (o : Option Url)
      → ((check_location services fetch base entry.digest o log).0 ≡ unverifiable) ↔ Unreachable o
  location-unverifiable_iff none = (λ e. cc, λ (l, e, x). cc)
  location-unverifiable_iff (some l) =
      let (https, https') = text_eq_iff (scheme l) (codes "https") in
      elim (Bool-cases (text_eq (scheme l) (codes "https"))) [
        | inl t ↦
            let (to, from) = fetched-unverifiable_iff (fetch log (url_text l)) in
            rw t (
              λ e. (l, refl, inr (to e)),
              λ (k, e, x).
                  let same = some-injective _ _ (sym e) in
                  from (
                    still (https t) (
                      subst (λ u. scheme u ≢ codes "https" ⊎ (fetch log (url_text u) ≡ none)) same
                        x)),
            )
        | inr t ↦ rw t (
          λ e. (l, refl, inl (λ h. let k = https' h in let k' : false ≡ true = sym t ∙ k in cc)),
          λ x. refl,
        )
      ]
    where
      still :
          scheme l ≡ codes "https"
          → scheme l ≢ codes "https" ⊎ (fetch log (url_text l) ≡ none)
          → fetch log (url_text l) ≡ none
      still h (inl n) = absurd (n h)
      still h (inr e) = e

  unverifiable_iff :
      ((check_artifact services fetch base entry content log).0 ≡ unverifiable) ↔ CannotFetch
  unfolding check_artifact
  unverifiable_iff =
      let (to, from) = location-unverifiable_iff (resolve_location services base entry.url) in
      elim (Bool-cases (is_empty content)) [
        | inl t ↦
            let gone = (is_empty_iff content).0 t in rw t (λ e. (gone, to e), λ (_, x). from x)
        | inr t ↦ rw t (
          λ e. absurd (canonical-ne-unverifiable (canonicalize jcs content) e),
          λ (gone, _). absurd ((is_empty-eq-false_iff content).0 t gone),
        )
      ]

  -- An artifact fails exactly where it does not match the digest although nothing kept it from being
  -- fetched.
  pub check_artifact-failed_iff :
      ((check_artifact services fetch base entry content log).0 ≡ failed)
      ↔ (¬ HasArtifact services fetch base entry content log × ¬ CannotFetch)
  check_artifact-failed_iff =
      let (to, from) = failed_iff (check_artifact services fetch base entry content log).0 in
      let ((v, v'), _) = check_artifact_iff services fetch base entry content log in
      let (u, u') = unverifiable_iff in
      (
        λ e. let (n, m) = to e in (λ a. n (v' a), λ c. m (u' c)),
        λ (n, m). from (λ e. n (v e), λ e. m (u e)),
      )
