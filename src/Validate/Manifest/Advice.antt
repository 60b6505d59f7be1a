-- ===== src/Validate/Manifest/Advice.antt =====
-- The advice about the signature of a trust manifest.
use ai_catalog_go.Prelude.{
  arith, some, none, Option, not, false, refl, ℕ, ◌||◌, ◌<◌, ◌≤◌, ◌↔◌, ◌++◌, ◌≡◌,
}
use ai_catalog_go.Validate.Codes.{signature_not_yet_valid, signature_expired}
use ai_catalog_go.Catalog.Version.{Times}
use ai_catalog_go.Catalog.{TrustManifest, Signature}
use ai_catalog_go.Validate.Signature.{signature_current, over, future}
use ai_catalog_go.Json.{Json}
use ai_catalog_go.Text.{codes, text_eq_iff, text_eq, Bytes}
use ai_catalog_go.Validate.Profile.{did_web_profile}
use ai_catalog_go.Jws.{parse, detached, Header}
use ai_catalog_go.Validate.Manifest.{check_manifest_profile}
use ai_catalog_go.Validate.Report.Advises.{
  Advises-skip, Advises-unless, Advises-then, Advises-when_some, Advises-iff, Advises,
}
use ai_catalog_go.Jws.Forms.{detached_iff, IsDetached}
use ai_catalog_go.Validate.Report.Enforces.{IfSome}
use ai_catalog_go.Jws.Parsing.{parse_iff, IsHeader}
use mathlib.Core.Path.{subst}
use ai_catalog_go.Validate.Profile.Rule.{Advises-check_signer_profile, FollowsProfile}
use mathlib.Core.Option.{some-injective}

module _ (times : Times) where
  -- At the clock's time the signature is issued and has not expired, where the instants are known.
  pub record IsCurrent (now : ℕ) (s : Signature) : Type 0 where
    pub issued : (t : ℕ) → times.parse s.issued_at ≡ some t → t ≤ now
    pub not_expired : (t : ℕ) → times.parse s.expires_at ≡ some t → now < t

  future_iff :
      (now : ℕ) (o : Option ℕ) → (future times now o ≡ false) ↔ ((t : ℕ) → o ≡ some t → t ≤ now)
  future_iff now none = (λ h t e. cc, λ _. refl)
  future_iff now (some u) = (λ h t e. ground arith, λ f. ground (arith, f u refl))

  over_iff :
      (now : ℕ) (o : Option ℕ) → (over times now o ≡ false) ↔ ((t : ℕ) → o ≡ some t → now < t)
  over_iff now none = (λ h t e. cc, λ _. refl)
  over_iff now (some u) = (λ h t e. ground arith, λ f. ground (arith, f u refl))

  -- `signatureCurrent` adds no warning exactly where the clock is not before the instant of issue
  -- and before the instant of expiry, as far as these are read.
  pub Advises-signature_current :
      (now : ℕ) (s : Signature) (path : Bytes)
      → Advises (signature_current times now s path) (IsCurrent now s)
  unfolding signature_current
  Advises-signature_current now s path =
      Advises-iff (λ (i, e). record { issued = i; not_expired = e }, λ c. (c.issued, c.not_expired))
        (Advises-then
          (Advises-unless (future times now (times.parse s.issued_at)) signature_not_yet_valid
            (path ++ codes ".issuedAt") (future_iff now (times.parse s.issued_at)))
          (Advises-unless (over times now (times.parse s.expires_at)) signature_expired
            (path ++ codes ".expiresAt") (over_iff now (times.parse s.expires_at))))

  module _ (json : Json) where
    -- What is advised of a signature that says it follows the did:web profile.
    abbrev pub FollowsAdvice : ℕ → Signature → Type 0
    FollowsAdvice now s =
        (s.profile ≡ did_web_profile) × IsDetached s.jws
        → (h : Header) → IsHeader json s.jws h
        → FollowsProfile s h × IsCurrent now s

    skip_iff :
        (s : Signature)
        → ((not (text_eq s.profile did_web_profile) || not (detached s.jws)) ≡ false)
          ↔ ((s.profile ≡ did_web_profile) × IsDetached s.jws)
    skip_iff s = (
      λ h. (
        (text_eq_iff s.profile did_web_profile).0 (ground arith),
        (detached_iff s.jws).0 (ground arith),
      ),
      λ (p, d).
          ground (arith, (text_eq_iff s.profile did_web_profile).1 p, (detached_iff s.jws).1 d),
    )

    if_some_iff :
        (P : Header → Type 0) (o : Option Header) → IfSome P o ↔ ((h : Header) → o ≡ some h → P h)
    if_some_iff P none = (λ _ h e. cc, λ _. tt)
    if_some_iff P (some g) = (λ p h e. subst P (some-injective _ _ e) p, λ f. f g refl)

    -- `checkManifestProfile` adds no warning exactly where the manifest has no signature, or its
    -- signature claims another profile, is not detached or has no header that parses, or follows
    -- the did:web profile with its header and is current at the clock's time.
    pub Advises-check_manifest_profile :
        (now : ℕ) (m : TrustManifest) (path : Bytes)
        → Advises
            (check_manifest_profile json times now m path)
            (IfSome (FollowsAdvice now) m.signature)
    unfolding check_manifest_profile
    Advises-check_manifest_profile now m path = Advises-when_some m.signature λ s.
        let (to, from) =
          if_some_iff (λ h. FollowsProfile s h × IsCurrent now s) (parse json s.jws) in
        Advises-iff
          (
            λ f q h i. to (f q) h ((parse_iff json s.jws h).1 i),
            λ f q. from (λ h e. f q h ((parse_iff json s.jws h).0 e)),
          )
          (Advises-skip (not (text_eq s.profile did_web_profile) || not (detached s.jws))
            (skip_iff s)
            λ _. Advises-when_some (parse json s.jws) λ h.
              Advises-then (Advises-check_signer_profile s h (path ++ codes ".signature"))
                (Advises-signature_current now s (path ++ codes ".signature")))
