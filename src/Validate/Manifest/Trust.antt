-- ===== src/Validate/Manifest/Trust.antt =====
-- Which entries pass `validateEntryTrust`: the manifests with the entry that carries them.
-- Advice: a check that adds no error, in a branch or on the value of a pointer.
use ai_catalog_go.Prelude.{
  arith, [], List, some, none, Option, not, false, true, Bool, inr, inl, ℕ, any-eq-false_iff, All,
  any, is_empty-eq-false_iff, is_empty, is_some, Bool-cases, if◌then◌else◌, ◌&&◌, ◌||◌, ◌↔◌, ◌⊎◌,
  ◌++◌, ◌≡◌, ◌≢◌,
}
use ai_catalog_go.Validate.Codes.{
  profile_header, profile_key_id, profile_algorithm, profile_signer, signature_not_yet_valid,
  signature_expired, entry_digest,
}
use ai_catalog_go.Validate.Report.{Check, when_some}
use ai_catalog_go.Json.{Json}
use ai_catalog_go.Validate.Report.Enforces.{
  Enforces-unless, Enforces-for_each, Enforces-warn_if, Enforces-then, IfSome, Enforces-iff,
  IfPresent, Enforces-pass, Enforces,
}
use ai_catalog_go.Catalog.Version.{Times}
use ai_catalog_go.Validate.Signature.{over, instant, future, signature_current}
use ai_catalog_go.Validate.Profile.{
  selects_fragment, profile_algorithm_name, key_source_members, did_web_profile,
  check_signer_profile,
}
use ai_catalog_go.Validate.Manifest.{
  validate_entry_trust, validate_manifest, check_manifest_profile,
}
use ai_catalog_go.Catalog.{Signature, TrustManifest, CatalogEntry}
use ai_catalog_go.Text.{codes, text_eq, Bytes}
use ai_catalog_go.Validate.Manifest.Rule.{Enforces-validate_trust_manifest, IsManifest}
use ai_catalog_go.Jws.{has, forbidden, parse, detached, Header}
use ai_catalog_go.Validate.Manifest.Subjects.{
  Enforces-validate_subject_binding, Enforces-validate_digest, Restates, IsDigestText,
}
use ai_catalog_go.Identity.{root_did_web}

Enforces-advice_when_some {ℓ} :
    {A : Type ℓ} {f : A → Check} (o : Option A)
    → ((a : A) → Enforces (f a) Unit)
    → Enforces (when_some o f) Unit
unfolding when_some
Enforces-advice_when_some none e = Enforces-pass
Enforces-advice_when_some (some a) e = e a

Enforces-advice_if :
    {f g : Check} (b : Bool)
    → Enforces f Unit
    → Enforces g Unit
    → Enforces (if b then f else g) Unit
Enforces-advice_if true e k = e
Enforces-advice_if false e k = k

module _ (json : Json) (times : Times) where
  Enforces-signature_current :
      (now : ℕ) (s : Signature) (path : Bytes) → Enforces (signature_current times now s path) Unit
  unfolding signature_current
  Enforces-signature_current now s path =
      Enforces-iff (λ _. tt, λ _. (tt, tt))
        (Enforces-then
          (Enforces-warn_if (future times now (instant times s.issued_at)) signature_not_yet_valid
            (path ++ codes ".issuedAt"))
          (Enforces-warn_if (over times now (instant times s.expires_at)) signature_expired
            (path ++ codes ".expiresAt")))

  Enforces-check_signer_profile :
      (s : Signature) (h : Header) (path : Bytes) → Enforces (check_signer_profile s h path) Unit
  unfolding check_signer_profile
  Enforces-check_signer_profile s h path =
      Enforces-iff (λ _. tt, λ _. (tt, (tt, (tt, (tt, (tt, (tt, (tt, tt))))))))
        (Enforces-then
          (Enforces-warn_if (not (root_did_web s.signer)) profile_signer (path ++ codes ".signer"))
          (Enforces-then
            (Enforces-warn_if
              (not (text_eq h.algorithm profile_algorithm_name) && not (forbidden h.algorithm))
              profile_algorithm (path ++ codes ".jws"))
            (Enforces-then
              (Enforces-warn_if (not (selects_fragment s.signer h.key_id)) profile_key_id
                (path ++ codes ".jws"))
              (Enforces-for_each 0 key_source_members
                λ i m. Enforces-warn_if (has h m) profile_header (path ++ codes ".jws")))))

  -- The did:web profile of a manifest's signature is advice: it adds no error.
  Enforces-check_manifest_profile :
      (now : ℕ) (m : TrustManifest) (path : Bytes)
      → Enforces (check_manifest_profile json times now m path) Unit
  unfolding check_manifest_profile
  Enforces-check_manifest_profile now m path = Enforces-advice_when_some m.signature λ s.
      Enforces-advice_if (not (text_eq s.profile did_web_profile) || not (detached s.jws))
        Enforces-pass
        (Enforces-advice_when_some (parse json s.jws) λ h.
          Enforces-iff (λ _. tt, λ _. (tt, tt))
            (Enforces-then (Enforces-check_signer_profile s h _)
              (Enforces-signature_current now s _)))

  -- A manifest and what it says of its entry.
  abbrev pub IsManifestOf : CatalogEntry → TrustManifest → Type 0
  IsManifestOf entry m = IsManifest json times m × IfSome (Restates entry) m.subject

  Enforces-validate_manifest :
      (now : ℕ) (entry : CatalogEntry) (m : TrustManifest) (path : Bytes)
      → Enforces (validate_manifest json times now entry m path) (IsManifestOf entry m)
  unfolding validate_manifest
  Enforces-validate_manifest now entry m path =
      Enforces-iff (λ (i, (r, _)). (i, r), λ (i, r). (i, (r, tt)))
        (Enforces-then (Enforces-validate_trust_manifest json times m path) (
          Enforces-then (Enforces-validate_subject_binding entry m path)
            (Enforces-check_manifest_profile now m path)))

  -- The rules for the trust members of an entry.
  pub record IsTrusted (entry : CatalogEntry) : Type 0 where
    pub digest_valid : IfPresent IsDigestText entry.digest
    pub manifests_valid : All (IsManifestOf entry) entry.trust_manifests
    pub signed_digest :
        entry.digest ≢ [] ⊎ All (λ m. is_some m.signature ≡ false) entry.trust_manifests

  signed_digest_iff :
      (ms : List TrustManifest) (digest : Bytes)
      → ((any (λ m. is_some m.signature) ms && is_empty digest) ≡ false)
        ↔ (digest ≢ [] ⊎ All (λ m. is_some m.signature ≡ false) ms)
  signed_digest_iff ms digest =
      let signed : TrustManifest → Bool = λ m. is_some m.signature in
      let (to, from) = any-eq-false_iff signed (λ m. ((λ h. h), (λ h. h))) ms in
      (
        λ h. elim (Bool-cases (is_empty digest)) [
          | inl t ↦ inr (to (ground arith))
          | inr t ↦ inl ((is_empty-eq-false_iff digest).0 t)
        ],
        elim [
          | inl n ↦ ground (arith, (is_empty-eq-false_iff digest).1 n)
          | inr a ↦ ground (arith, from a)
        ],
      )

  -- `validateEntryTrust` reports no error exactly where the digest of the entry parses if it is
  -- given, every trust manifest satisfies the rules and restates the entry, and the digest is given
  -- where a manifest carries a signature.
  pub Enforces-validate_entry_trust :
      (now : ℕ) (entry : CatalogEntry) (path : Bytes)
      → Enforces (validate_entry_trust json times now entry path) (IsTrusted entry)
  unfolding validate_entry_trust
  Enforces-validate_entry_trust now entry path =
      Enforces-iff
        (
          λ (d, (m, s)). record { digest_valid = d; manifests_valid = m; signed_digest = s },
          λ i. (i.digest_valid, (i.manifests_valid, i.signed_digest)),
        )
        (Enforces-then (Enforces-validate_digest entry.digest _) (
          Enforces-then
            (Enforces-for_each 0 entry.trust_manifests
              λ i m. Enforces-validate_manifest now entry m _)
            (Enforces-unless _ entry_digest (path ++ codes ".digest")
              (signed_digest_iff entry.trust_manifests entry.digest))))
