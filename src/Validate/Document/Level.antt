-- ===== src/Validate/Document/Level.antt =====
-- The conformance level of a result.
use ai_catalog_go.Prelude.{
  arith, [], some, none, Option, not, false, inr, inl, refl, ℕ, is_empty_iff, is_empty, is_some,
  Bool-cases, ◌||◌, ◌↔◌, ◌≡◌, ◌≢◌,
}
use ai_catalog_go.Validate.Document.{
  empty_validator, validate_catalog, validate, level, trusted, discoverable,
}
use ai_catalog_go.Catalog.{AiCatalog, HostInfo}
use ai_catalog_go.Json.{Json}
use ai_catalog_go.Validate.Report.{Validator}
use ai_catalog_go.Catalog.Version.{Times}
use ai_catalog_go.Validate.Document.Walk.{Conforms}
use ai_catalog_go.Text.{codes}
use ai_catalog_go.Validate.Document.Conforming.{validate-IsValid_iff}

host_iff : (o : Option HostInfo) → (not (is_some o) ≡ false) ↔ (o ≢ none)
host_iff none = (λ h. cc, λ n. absurd (n refl))
host_iff (some h) = (λ _ e. cc, λ _. refl)

-- The levels that `level` reports.
level_iff :
    (v : Validator) (c : AiCatalog)
    → ((level v c ≡ discoverable) ↔ ((v.errors ≡ []) × (c.host ≢ none))) × (level v c ≢ trusted)
unfolding level
level_iff v c = elim (Bool-cases (not (is_empty v.errors) || not (is_some c.host))) [
  | inl t ↦ rw t (
    (
      λ h. absurd (cc),
      λ (e, h).
          let e' = (is_empty_iff v.errors).1 e in
          let h' = (host_iff c.host).1 h in absurd (ground arith),
    ),
    λ h. cc,
  )
  | inr t ↦ rw t (
    (
      λ _. ((is_empty_iff v.errors).0 (ground arith), (host_iff c.host).0 (ground arith)),
      λ _. refl,
    ),
    λ h. cc,
  )
]

module _ (json : Json) (times : Times) (now max_depth : ℕ) where
  -- `Validate` reports the level Discoverable exactly for a document that is valid and has a host,
  -- and never the level Trusted.
  pub validate-level_iff :
      (c : AiCatalog)
      → (((validate json times now max_depth c).conformance_level ≡ discoverable)
          ↔ (Conforms json times max_depth c 0 × (c.host ≢ none)))
        × ((validate json times now max_depth c).conformance_level ≢ trusted)
  unfolding validate
  validate-level_iff c =
      let v =
        validate_catalog json times now max_depth max_depth c (codes "catalog") 0 empty_validator in
      let ((to, from), never) = level_iff v c in
      let (sound, complete) = validate-IsValid_iff json times now max_depth c in
      (
        (
          λ h. (sound ((is_empty_iff v.errors).1 (to h).0), (to h).1),
          λ (p, h). from ((is_empty_iff v.errors).0 (complete p), h),
        ),
        never,
      )
