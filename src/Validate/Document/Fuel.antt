-- ===== src/Validate/Document/Fuel.antt =====
-- How much fuel the walk over nested catalogs needs.
use ai_catalog_go.Prelude.{
  arith, [], List, some, none, Option, inr, inl, refl, suc, zero, ℕ, Bool-cases, leb, ◌+◌, ◌<◌, ◌≤◌,
  ◌∷◌, ◌++◌, ◌≡◌,
}
use ai_catalog_go.Validate.Report.{pass, indexed, Check, for_each}
use ai_catalog_go.Json.{Json}
use ai_catalog_go.Catalog.Version.{Times}
use ai_catalog_go.Validate.Document.{
  visit_parsed, validate_catalog, validate_level, validate_entry, validate_nested_catalog, Visit,
}
use ai_catalog_go.Catalog.{CatalogEntry, AiCatalog}
use ai_catalog_go.Text.{codes, Bytes}

for_each-same {ℓ} :
    {A : Type ℓ} (f g : ℕ → A → Check) (i : ℕ) (xs : List A)
    → ((i : ℕ) (x : A) → f i x ≡ g i x)
    → for_each f i xs ≡ for_each g i xs
unfolding for_each
for_each-same f g i [] same = refl
for_each-same f g i (x ∷ xs) same = rw (same i x, for_each-same f g (i + 1) xs same)

module _ (json : Json) (times : Times) (now max_depth : ℕ) where
  -- Two visits that agree on the catalogs below a depth that is not the last.
  abbrev Agree : Visit → Visit → ℕ → Type 0
  Agree visit visit' depth =
      depth < max_depth
      → (c : AiCatalog) (path : Bytes) → visit c path (depth + 1) ≡ visit' c path (depth + 1)

  visit_parsed-same :
      (visit visit' : Visit) (o : Option AiCatalog) (path : Bytes) (depth : ℕ)
      → Agree visit visit' depth
      → depth < max_depth
      → visit_parsed visit o path depth ≡ visit_parsed visit' o path depth
  visit_parsed-same visit visit' none path depth agree h = refl
  visit_parsed-same visit visit' (some n) path depth agree h = agree h n path

  validate_nested_catalog-same :
      (visit visit' : Visit) (e : CatalogEntry) (path : Bytes) (depth : ℕ)
      → Agree visit visit' depth
      → validate_nested_catalog json times now max_depth visit e path depth
        ≡ validate_nested_catalog json times now max_depth visit' e path depth
  unfolding validate_nested_catalog
  validate_nested_catalog-same visit visit' e path depth agree =
      elim (Bool-cases (leb max_depth depth)) [
        | inl h ↦ rw h refl
        | inr h ↦
            let same =
              visit_parsed-same visit visit' (json.catalog e.content) (path ++ codes ".data") depth
                agree (ground arith) in
            rw same
      ]

  validate_entry-same :
      (visit visit' : Visit) (e : CatalogEntry) (path : Bytes) (depth : ℕ)
      → Agree visit visit' depth
      → validate_entry json times now max_depth visit e path depth
        ≡ validate_entry json times now max_depth visit' e path depth
  unfolding validate_entry
  validate_entry-same visit visit' e path depth agree =
      rw (validate_nested_catalog-same visit visit' e path depth agree)

  validate_level-same :
      (visit visit' : Visit) (c : AiCatalog) (path : Bytes) (depth : ℕ)
      → Agree visit visit' depth
      → validate_level json times now max_depth visit c path depth
        ≡ validate_level json times now max_depth visit' c path depth
  unfolding validate_level
  validate_level-same visit visit' c path depth agree =
      let same =
        for_each-same
          (λ i e.
            validate_entry json times now max_depth visit e (indexed path (codes ".entries") i)
              depth)
          (λ i e.
            validate_entry json times now max_depth visit' e (indexed path (codes ".entries") i)
              depth)
          0 c.entries λ i e. validate_entry-same visit visit' e _ depth agree in
      rw same

  -- Fuel for the depths that are left is enough: with any two amounts of fuel that reach the maximal
  -- depth, `validateCatalog` reports the same errors and the same warnings, in the same order.
  pub validate_catalog-enough :
      (fuel fuel' : ℕ) (c : AiCatalog) (path : Bytes) (depth : ℕ)
      → max_depth ≤ fuel + depth
      → max_depth ≤ fuel' + depth
      → validate_catalog json times now max_depth fuel c path depth
        ≡ validate_catalog json times now max_depth fuel' c path depth
  unfolding validate_catalog
  validate_catalog-enough zero zero c path depth h h' = refl
  validate_catalog-enough zero (suc fuel') c path depth h h' =
      validate_level-same (λ _ _ _. pass) (validate_catalog json times now max_depth fuel') c path
        depth λ shallow. absurd (omega arith)
  validate_catalog-enough (suc fuel) zero c path depth h h' =
      validate_level-same (validate_catalog json times now max_depth fuel) (λ _ _ _. pass) c path
        depth λ shallow. absurd (omega arith)
  validate_catalog-enough (suc fuel) (suc fuel') c path depth h h' =
      validate_level-same (validate_catalog json times now max_depth fuel)
        (validate_catalog json times now max_depth fuel') c path depth
        λ shallow n path'.
          validate_catalog-enough fuel fuel' n path' (depth + 1) (omega arith) (omega arith)
