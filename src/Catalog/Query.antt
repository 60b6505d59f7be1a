-- ===== src/Catalog/Query.antt =====
-- catalog/catalog.go: the queries. `strings.ToLower` and the engine of `regexp` are parameters.
-- A result is the entry itself, where the code returns a pointer into the document.
pub mod Laws
pub mod Searching
mod Tests
use ai_catalog_go.Prelude.{
  [], List, some, none, Option, false, true, Bool, select, any, is_empty, if◌then◌else◌, ◌==◌, ◌&&◌,
  ◌||◌, ◌∷◌,
}
use ai_catalog_go.Catalog.Models.{Publisher, AiCatalog, CatalogEntry}
use ai_catalog_go.Text.{contains, Bytes, text_eq}

-- the loop of `GetByID` and of `GetByIDAndVersion`
unfoldable pub find_first : (CatalogEntry → Bool) → List CatalogEntry → Option CatalogEntry
find_first p [] = none
find_first p (e ∷ es) = let rest = find_first p es in if p e then some e else rest

unfoldable pub get_by_id : AiCatalog → Bytes → Option CatalogEntry
unfolding find_first text_eq
get_by_id c id = find_first (λ e. text_eq e.identifier id) c.entries

unfoldable pub get_by_type : AiCatalog → Bytes → List CatalogEntry
unfolding text_eq
get_by_type c media_type = select (λ e. text_eq e.type media_type) c.entries

unfoldable pub get_by_tag : AiCatalog → Bytes → List CatalogEntry
unfolding text_eq contains
get_by_tag c tag = select (λ e. contains e.tags tag) c.entries

abbrev published_by : Bytes → Option Publisher → Bool
published_by id none = false
published_by id (some p) = text_eq p.identifier id

unfoldable pub get_by_publisher : AiCatalog → Bytes → List CatalogEntry
unfolding text_eq
get_by_publisher c id = select (λ e. published_by id e.publisher) c.entries

-- `strings.Contains`
unfoldable pub has_prefix : Bytes → Bytes → Bool
has_prefix s [] = true
has_prefix [] (d ∷ p) = false
has_prefix (c ∷ s) (d ∷ p) = c == d && has_prefix s p

unfoldable pub contains_text : Bytes → Bytes → Bool
contains_text [] q = is_empty q
contains_text (c ∷ s) q = has_prefix (c ∷ s) q || contains_text s q

module _ (lower : Bytes → Bytes) where
  unfoldable pub entry_matches_substring : CatalogEntry → Bytes → Bool
  unfolding contains_text has_prefix
  entry_matches_substring e lowered =
      if contains_text (lower e.identifier) lowered
        || contains_text (lower e.display_name) lowered
        || contains_text (lower e.description) lowered
      then true
      else any (λ tag. contains_text (lower tag) lowered) e.tags

  unfoldable pub search_entries : AiCatalog → Bytes → List CatalogEntry
  unfolding entry_matches_substring
  search_entries c query =
      let lowered = lower query in select (λ e. entry_matches_substring e lowered) c.entries

unfoldable pub entry_matches_regex : CatalogEntry → (Bytes → Bool) → Bool
entry_matches_regex e match_string =
    if match_string e.identifier || match_string e.display_name || match_string e.description
    then true
    else any match_string e.tags

-- `compile` is `regexp.Compile`, with the test that the compiled expression makes.
unfoldable pub search_by_regex :
    (Bytes → Option (Bytes → Bool)) → AiCatalog → Bytes → Option (List CatalogEntry)
unfolding entry_matches_regex
search_by_regex compile c pattern = elim (compile pattern) [
  | none ↦ none
  | some re ↦ some (select (λ e. entry_matches_regex e re) c.entries)
]
