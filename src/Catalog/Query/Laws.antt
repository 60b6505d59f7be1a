-- ===== src/Catalog/Query/Laws.antt =====
-- What the queries return, described with no loop.
-- The first entry of a list with a property.
use ai_catalog_go.Prelude.{
  arith, [], List, some, none, Option, false, true, Bool, inr, inl, ap, refl, Some, All, select,
  Bool-cases, ◌∷◌, ◌↔◌, ◌++◌, ◌≡◌, ◌≢◌,
}
use ai_catalog_go.Catalog.Models.{Publisher, AiCatalog, CatalogEntry}
use ai_catalog_go.Catalog.Query.{
  get_by_publisher, published_by, get_by_tag, find_first, get_by_type, get_by_id,
}
use ai_catalog_go.Text.{contains_iff, contains, text_eq_iff, text_eq, Bytes}

pub record First (P : CatalogEntry → Type 0) (es : List CatalogEntry) (e : CatalogEntry)
    : Type 0 where
  pub before : List CatalogEntry
  pub after : List CatalogEntry
  pub split : es ≡ before ++ (e ∷ after)
  pub skipped : All (λ x. ¬ P x) before
  pub found : P e

-- The entries of a list with a property, in their order.
pub data Selects (P : CatalogEntry → Type 0) : List CatalogEntry → List CatalogEntry → Type 0 where
  done : Selects P [] []
  keep :
      {e : CatalogEntry} {es rs : List CatalogEntry}
      → P e
      → Selects P es rs
      → Selects P (e ∷ es) (e ∷ rs)
  skip :
      {e : CatalogEntry} {es rs : List CatalogEntry}
      → ¬ P e
      → Selects P es rs
      → Selects P (e ∷ es) rs

module _ {P : CatalogEntry → Type 0} (p : CatalogEntry → Bool)
    (e_iff : (e : CatalogEntry) → (p e ≡ true) ↔ P e) where
  refuted : (e : CatalogEntry) → p e ≡ false → ¬ P e
  refuted e h x = let h' = (e_iff e).1 x in cc

  pub select-Selects : (es : List CatalogEntry) → Selects P es (select p es)
  select-Selects [] = done
  select-Selects (e ∷ es) = elim (Bool-cases (p e)) [
    | inl h ↦ rw h (keep ((e_iff e).0 h) (select-Selects es))
    | inr h ↦ rw h (skip (refuted e h) (select-Selects es))
  ]

  pub select-eq-nil_iff : (es : List CatalogEntry) → (select p es ≡ []) ↔ All (λ x. ¬ P x) es
  select-eq-nil_iff [] = (λ _. tt, λ _. refl)
  select-eq-nil_iff (e ∷ es) = elim (Bool-cases (p e)) [
    | inl t ↦ (λ h. absurd (ground arith), λ (h, hs). absurd (h ((e_iff e).0 t)))
    | inr t ↦ (
      λ h. (refuted e t, (select-eq-nil_iff es).0 (ground arith)),
      λ (h, hs). rw t ((select-eq-nil_iff es).1 hs),
    )
  ]

  find_first_sound :
      (es : List CatalogEntry) (r : CatalogEntry) → find_first p es ≡ some r → First P es r
  unfolding find_first
  find_first_sound [] r h = cc
  find_first_sound (e ∷ es) r h = elim (Bool-cases (p e)) [
    | inl t ↦
        let same : e ≡ r = ground arith in
        record {
          before = [];
          after = es;
          split = cc;
          skipped = tt;
          found = rw same at ((e_iff e).0 t);
        }
    | inr t ↦
        let f = find_first_sound es r (ground arith) in
        record {
          before = e ∷ f.before;
          after = f.after;
          split = ap (λ l. e ∷ l) f.split;
          skipped = (refuted e t, f.skipped);
          found = f.found;
        }
  ]

  find_first_behind :
      (before after : List CatalogEntry) (r : CatalogEntry)
      → All (λ x. ¬ P x) before
      → P r
      → find_first p (before ++ (r ∷ after)) ≡ some r
  unfolding find_first
  find_first_behind [] after r h x = rw ((e_iff r).1 x)
  find_first_behind (e ∷ es) after r (h, hs) x = elim (Bool-cases (p e)) [
    | inl t ↦ absurd (h ((e_iff e).0 t))
    | inr t ↦ rw t (find_first_behind es after r hs x)
  ]

  pub find_first_iff :
      (es : List CatalogEntry) (r : CatalogEntry) → (find_first p es ≡ some r) ↔ First P es r
  find_first_iff es r = (
    find_first_sound es r,
    λ f. rw f.split (find_first_behind f.before f.after r f.skipped f.found),
  )

  pub find_first-eq-none_iff :
      (es : List CatalogEntry) → (find_first p es ≡ none) ↔ All (λ x. ¬ P x) es
  unfolding find_first
  find_first-eq-none_iff [] = (λ _. tt, λ _. refl)
  find_first-eq-none_iff (e ∷ es) = elim (Bool-cases (p e)) [
    | inl t ↦ (λ h. absurd (ground arith), λ (h, hs). absurd (h ((e_iff e).0 t)))
    | inr t ↦ (
      λ h. (refuted e t, (find_first-eq-none_iff es).0 (ground arith)),
      λ (h, hs). rw t ((find_first-eq-none_iff es).1 hs),
    )
  ]

-- `GetByID` returns the first entry with the identifier, and nothing exactly when no entry has it.
pub get_by_id_iff :
    (c : AiCatalog) (id : Bytes) (e : CatalogEntry)
    → ((get_by_id c id ≡ some e) ↔ First (λ x. x.identifier ≡ id) c.entries e)
      × ((get_by_id c id ≡ none) ↔ All (λ x. x.identifier ≢ id) c.entries)
unfolding get_by_id
get_by_id_iff c id e = (
  find_first_iff (λ x. text_eq x.identifier id) (λ x. text_eq_iff x.identifier id) c.entries e,
  find_first-eq-none_iff (λ x. text_eq x.identifier id) (λ x. text_eq_iff x.identifier id)
      c.entries,
)

published_by_iff :
    (id : Bytes) (o : Option Publisher)
    → (published_by id o ≡ true) ↔ ((p : Publisher) × (o ≡ some p) × (p.identifier ≡ id))
published_by_iff id none = (λ h. cc, λ (p, e, f). cc)
published_by_iff id (some p) = (
  λ h. (p, refl, (text_eq_iff p.identifier id).0 h),
  λ (q, e, f). let same : p ≡ q = cc in rw same ((text_eq_iff q.identifier id).1 f),
)

-- `GetByType`, `GetByTag` and `GetByPublisher` return the entries of the media type, the entries
-- that list the tag, and the entries with a publisher of that identifier, in document order.
pub get_by_Selects :
    (c : AiCatalog) (key : Bytes)
    → Selects (λ e. e.type ≡ key) c.entries (get_by_type c key)
      × Selects (λ e. Some (λ t. t ≡ key) e.tags) c.entries (get_by_tag c key)
      × Selects
          (λ e. (p : Publisher) × (e.publisher ≡ some p) × (p.identifier ≡ key))
          c.entries
          (get_by_publisher c key)
unfolding get_by_type get_by_tag get_by_publisher
get_by_Selects c key = (
  select-Selects (λ e. text_eq e.type key) (λ e. text_eq_iff e.type key) c.entries,
  select-Selects (λ e. contains e.tags key) (λ e. contains_iff e.tags key) c.entries,
  select-Selects (λ e. published_by key e.publisher) (λ e. published_by_iff key e.publisher)
      c.entries,
)
