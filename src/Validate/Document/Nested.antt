-- ===== src/Validate/Document/Nested.antt =====
-- A nested entry: what its three tests say of the catalog that stands in it.
use ai_catalog_go.Prelude.{
  arith, [], some, none, Option, not, false, true, Bool, inr, inl, sym, refl, ℕ,
  is_empty-eq-false_iff, is_empty_iff, is_empty, Bool-cases, leb, if◌then◌else◌, ◌∙◌, ◌+◌, ◌<◌, ◌↔◌,
  ◌⊎◌, ◌++◌, ◌≡◌, ◌≢◌,
}
use ai_catalog_go.Validate.Codes.{nested_invalid, nested_depth}
use ai_catalog_go.Json.{Json}
use ai_catalog_go.Catalog.Version.{Times}
use ai_catalog_go.Catalog.{is_nested_catalog, CatalogEntry, AiCatalog}
use ai_catalog_go.Validate.Document.{visit_parsed, validate_nested_catalog, Visit}
use ai_catalog_go.Validate.Document.Walk.{NestsWell, Conforms}
use ai_catalog_go.Text.{codes, Bytes}
use ai_catalog_go.Validate.Report.Enforces.{
  Enforces-pass, Enforces-present, Enforces-error, Enforces-iff, IfPresent, Enforces,
}
use mathlib.Core.Path.{subst}
use ai_catalog_go.Validate.Report.{pass, add_error}
use mathlib.Core.Option.{some-injective}

module _ (json : Json) (times : Times) (now max_depth : ℕ) where
  -- What a catalog at a depth must satisfy, said of the catalogs it holds.
  abbrev pub Passes : ℕ → AiCatalog → Type 0
  Passes depth c = Conforms json times max_depth c depth

  -- The rule for a nested entry, with the catalog that it holds.
  abbrev pub NestedPasses : ℕ → CatalogEntry → Type 0
  NestedPasses depth e =
      NestsWell json max_depth depth e
      × ((c : AiCatalog)
          → is_nested_catalog e ≡ true
          → e.content ≢ []
          → json.catalog e.content ≡ some c
          → Passes (depth + 1) c)

  -- A visit that judges the catalogs below a depth rightly.
  abbrev pub Visits : Visit → ℕ → Type 0
  Visits visit depth =
      depth < max_depth
      → (c : AiCatalog) (path : Bytes) → Enforces (visit c path (depth + 1)) (Passes (depth + 1) c)

  abbrev Parsed : ℕ → Option AiCatalog → Type 0
  Parsed depth o = (c : AiCatalog) × (o ≡ some c) × Passes (depth + 1) c

  Enforces-visit_parsed :
      (visit : Visit) (o : Option AiCatalog) (path : Bytes) (depth : ℕ)
      → Visits visit depth
      → depth < max_depth
      → Enforces (visit_parsed visit o path depth) (Parsed depth o)
  Enforces-visit_parsed visit none path depth w h =
      Enforces-iff (λ x. absurd x, λ (c, e, p). cc) (Enforces-error nested_invalid path)
  Enforces-visit_parsed visit (some n) path depth w h =
      Enforces-iff
        (λ p. (n, refl, p), λ (c, e, p). subst (Passes (depth + 1)) (sym (some-injective _ _ e)) p)
        (w h n path)

  -- A nested entry, by its three tests.
  abbrev Tests : ℕ → CatalogEntry → Type 0
  Tests depth e =
      (is_nested_catalog e ≡ false)
      ⊎ ((is_nested_catalog e ≡ true)
          × ((depth < max_depth) × IfPresent (λ raw. Parsed depth (json.catalog raw)) e.content))

  Tests-iff : (depth : ℕ) (e : CatalogEntry) → Tests depth e ↔ NestedPasses depth e
  Tests-iff depth e = (
    elim [
      | inl not_is ↦ ((λ is. cc), λ c is given parsed. cc)
      | inr (is, (shallow, inl none_given)) ↦
          ((λ _. (shallow, inl none_given)), λ c _ given parsed. absurd (given none_given))
      | inr (is, (shallow, inr (n, parsed, passes))) ↦ (
        (λ _. (shallow, inr (n, parsed))),
        λ c _ given parsed'.
            subst (Passes (depth + 1)) (some-injective _ _ (sym parsed ∙ parsed')) passes,
      )
    ],
    λ (well, inner). elim (Bool-cases (is_nested_catalog e)) [
      | inr not_is ↦ inl not_is
      | inl is ↦ inr (is, ((well is).0, present is (well is).1 inner))
    ],
  )
    where
      present :
          is_nested_catalog e ≡ true
          → IfPresent (λ raw. (c : AiCatalog) × (json.catalog raw ≡ some c)) e.content
          → ((c : AiCatalog)
              → is_nested_catalog e ≡ true
              → e.content ≢ []
              → json.catalog e.content ≡ some c
              → Passes (depth + 1) c)
          → IfPresent (λ raw. Parsed depth (json.catalog raw)) e.content
      present is (inl none_given) inner = inl none_given
      present is (inr (c, parsed)) inner = elim (Bool-cases (is_empty e.content)) [
        | inl t ↦ inl ((is_empty_iff e.content).0 t)
        | inr t ↦ inr (c, parsed, inner c is ((is_empty-eq-false_iff e.content).0 t) parsed)
      ]

  pub Enforces-validate_nested_catalog :
      (visit : Visit) (e : CatalogEntry) (path : Bytes) (depth : ℕ)
      → Visits visit depth
      → Enforces
          (validate_nested_catalog json times now max_depth visit e path depth)
          (NestedPasses depth e)
  unfolding validate_nested_catalog
  Enforces-validate_nested_catalog visit e path depth w =
      Enforces-iff (Tests-iff depth e) (by_nested (is_nested_catalog e) refl)
    where
      deep :
          (b : Bool)
          → leb max_depth depth ≡ b
          → Enforces
              (if b
                then add_error nested_depth path
                else if is_empty e.content
                then pass
                else visit_parsed visit (json.catalog e.content) (path ++ codes ".data") depth)
              ((depth < max_depth) × IfPresent (λ raw. Parsed depth (json.catalog raw)) e.content)
      deep true h =
          Enforces-iff (λ x. absurd x, λ (shallow, _). ground arith)
            (Enforces-error nested_depth path)
      deep false h =
          let shallow : depth < max_depth = ground arith in
          Enforces-iff (λ p. (shallow, p), λ (_, p). p)
            (Enforces-present e.content
              λ _. Enforces-visit_parsed visit (json.catalog e.content) _ depth w shallow)

      by_nested :
          (b : Bool)
          → is_nested_catalog e ≡ b
          → Enforces
              (if not b
                then pass
                else if leb max_depth depth
                then add_error nested_depth path
                else if is_empty e.content
                then pass
                else visit_parsed visit (json.catalog e.content) (path ++ codes ".data") depth)
              (Tests depth e)
      by_nested false not_is = Enforces-iff (λ _. inl not_is, λ _. tt) Enforces-pass
      by_nested true is =
          Enforces-iff
            (
              λ (s, p). inr (is, (s, p)),
              elim [ inl not_is ↦ absurd (cc) | inr (_, (s, p)) ↦ (s, p) ],
            )
            (deep (leb max_depth depth) refl)
