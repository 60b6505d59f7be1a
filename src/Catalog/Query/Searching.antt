-- ===== src/Catalog/Query/Searching.antt =====
-- The two searches, described by the fields that they read.
-- `q` occurs in `s`.
use ai_catalog_go.Prelude.{
  select, arith, [], List, some, Option, true, Bool, inr, inl, refl, any_iff, Some, any, Bool-cases,
  if◌then◌else◌, ◌||◌, ◌∷◌, ◌↔◌, ◌⊎◌, ◌++◌, ◌≡◌,
}
use ai_catalog_go.Text.{Bytes}
use ai_catalog_go.Catalog.Query.{
  entry_matches_regex, entry_matches_substring, search_by_regex, search_entries, contains_text,
  has_prefix,
}
use ai_catalog_go.Catalog.Models.{AiCatalog, CatalogEntry}
use ai_catalog_go.Catalog.Query.Laws.{select-Selects, Selects}

abbrev pub Occurs : Bytes → Bytes → Type 0
Occurs q s = (pre : Bytes) × (post : Bytes) × (s ≡ pre ++ (q ++ post))

has_prefix_iff : (s q : Bytes) → (has_prefix s q ≡ true) ↔ ((post : Bytes) × (s ≡ q ++ post))
unfolding has_prefix
has_prefix_iff s [] = (λ _. (s, refl), λ _. refl)
has_prefix_iff [] (d ∷ q) = (λ h. cc, λ (post, e). cc)
has_prefix_iff (c ∷ s) (d ∷ q) = (
  λ h.
      let (post, e) = (has_prefix_iff s q).0 (ground arith) in
      let same : c ≡ d = ground arith in (post, cc),
  λ (post, e). let h = (has_prefix_iff s q).1 (post, cc) in let same : c ≡ d = cc in ground arith,
)

contains_text_sound : (s q : Bytes) → contains_text s q ≡ true → Occurs q s
unfolding contains_text
contains_text_sound [] [] h = ([], [], refl)
contains_text_sound [] (d ∷ q) h = cc
contains_text_sound (c ∷ s) q h = elim (Bool-cases (has_prefix (c ∷ s) q)) [
  | inl t ↦ let (post, e) = (has_prefix_iff (c ∷ s) q).0 t in ([], post, e)
  | inr t ↦ let (pre, post, e) = contains_text_sound s q (ground arith) in (c ∷ pre, post, cc)
]

contains_text_behind : (pre q post : Bytes) → contains_text (pre ++ (q ++ post)) q ≡ true
unfolding contains_text
contains_text_behind [] [] [] = refl
contains_text_behind [] [] (c ∷ post) = unfold has_prefix in refl
contains_text_behind [] (d ∷ q) post =
    rw ((has_prefix_iff (d ∷ (q ++ post)) (d ∷ q)).1 (post, refl))
contains_text_behind (c ∷ pre) q post = ground (arith, contains_text_behind pre q post)

pub contains_text_iff : (s q : Bytes) → (contains_text s q ≡ true) ↔ Occurs q s
contains_text_iff s q =
    (contains_text_sound s q, λ (pre, post, e). rw e (contains_text_behind pre q post))

-- A test holds of the identifier, the display name, the description or a tag.
abbrev pub Searchable : (Bytes → Type 0) → CatalogEntry → Type 0
Searchable P e = P e.identifier ⊎ (P e.display_name ⊎ (P e.description ⊎ Some P e.tags))

-- Both searches read the four fields in this order.
module _ {P : Bytes → Type 0} (t : Bytes → Bool) (t_iff : (s : Bytes) → (t s ≡ true) ↔ P s) where
  four_fields : Bytes → Bytes → Bytes → List Bytes → Bool
  four_fields i d s tags = if t i || t d || t s then true else any t tags

  pub four_fields_iff :
      (i d s : Bytes) (tags : List Bytes)
      → ((if t i || t d || t s then true else any t tags) ≡ true)
        ↔ (P i ⊎ (P d ⊎ (P s ⊎ Some P tags)))
  four_fields_iff i d s tags = (
    λ h. elim (Bool-cases (t i)) [
      | inl x ↦ inl ((t_iff i).0 x)
      | inr x ↦ inr (elim (Bool-cases (t d)) [
        | inl y ↦ inl ((t_iff d).0 y)
        | inr y ↦ inr (elim (Bool-cases (t s)) [
          | inl z ↦ inl ((t_iff s).0 z)
          | inr z ↦ inr ((any_iff t t_iff tags).0 (ground arith))
        ])
      ])
    ],
    elim [
      | inl x ↦ ground (arith, (t_iff i).1 x)
      | inr (inl x) ↦ ground (arith, (t_iff d).1 x)
      | inr (inr (inl x)) ↦ ground (arith, (t_iff s).1 x)
      | inr (inr (inr x)) ↦ ground (arith, (any_iff t t_iff tags).1 x)
    ],
  )

-- `Search` returns, in document order, the entries one of whose searchable fields contains the
-- query when both are lowered.
pub search_entries_lem :
    (lower : Bytes → Bytes) (c : AiCatalog) (query : Bytes)
    → Selects
        (Searchable (λ s. Occurs (lower query) (lower s)))
        c.entries
        (search_entries lower c query)
unfolding search_entries entry_matches_substring
search_entries_lem lower c query =
    select-Selects (λ e. entry_matches_substring lower e (lower query))
      (λ e.
        four_fields_iff (λ s. contains_text (lower s) (lower query))
          (λ s. contains_text_iff (lower s) (lower query)) e.identifier e.display_name e.description
          e.tags)
      c.entries

-- Where the pattern compiles to `re`, `SearchByRegex` returns the entries one of whose searchable
-- fields `re` matches, in document order.
pub search_by_regex_lem :
    (compile : Bytes → Option (Bytes → Bool)) (c : AiCatalog) (pattern : Bytes) (re : Bytes → Bool)
    → compile pattern ≡ some re
    → (rs : List CatalogEntry) × (search_by_regex compile c pattern ≡ some rs)
      × Selects (Searchable (λ s. re s ≡ true)) c.entries rs
unfolding search_by_regex entry_matches_regex
search_by_regex_lem compile c pattern re h = (
  select (λ e. entry_matches_regex e re) c.entries,
  rw (h, search_by_regex),
  select-Selects (λ e. entry_matches_regex e re)
      (λ e.
        four_fields_iff re (λ s. (λ x. x, λ x. x)) e.identifier e.display_name e.description e.tags)
      c.entries,
)
