-- ===== src/Catalog/Query/Tests.antt =====
-- The queries at a concrete catalog.
use ai_catalog_go.Prelude.{
  [], List, some, none, Option, true, Bool, refl, Some, All, ◌∷◌, ◌↔◌, ◌⊎◌, ◌≡◌, ◌≢◌,
}
use ai_catalog_go.Text.{lower_byte, ascii_lower, codes, Bytes}
use ai_catalog_go.Catalog.Query.{
  search_entries, get_by_publisher, get_by_tag, search_by_regex, contains_text, get_by_type,
  get_by_id,
}
use ai_catalog_go.Catalog.Entry.{resolve_display_name}
use ai_catalog_go.Catalog.Query.Laws.{get_by_Selects, get_by_id_iff, First, Selects}
use ai_catalog_go.Catalog.Models.{Publisher, CatalogEntry}
use ai_catalog_go.Catalog.Samples.{weather_2, finance, sample, weather}
use ai_catalog_go.Catalog.Query.Searching.{
  search_entries_lem, search_by_regex_lem, Occurs, Searchable,
}
use ai_catalog_go.Catalog.Entry.Segment.{resolve_display_name_lem, LastSegment}

abbrev weather_id : Bytes
weather_id = codes "urn:air:acme.com:weather"

query_tests :
    (get_by_id sample weather_id ≡ some weather)
    × (get_by_id sample (codes "x") ≡ none)
    × (get_by_type sample (codes "application/a2a-agent-card+json") ≡ finance ∷ [])
    × (get_by_tag sample (codes "mcp") ≡ weather ∷ weather_2 ∷ [])
    × (get_by_publisher sample (codes "did:web:acme.com") ≡ weather ∷ weather_2 ∷ [])
    × (search_entries ascii_lower sample (codes "FORE") ≡ weather ∷ weather_2 ∷ [])
unfolding get_by_id get_by_type get_by_tag get_by_publisher search_entries ascii_lower lower_byte
query_tests = (refl, refl, refl, refl, refl, refl)

resolved : resolve_display_name weather ≡ codes "weather"
unfolding resolve_display_name
resolved = refl

get_by_id_iff_example :
    ((get_by_id sample weather_id ≡ some weather)
      ↔ First (λ x. x.identifier ≡ weather_id) sample.entries weather)
    × ((get_by_id sample weather_id ≡ none) ↔ All (λ x. x.identifier ≢ weather_id) sample.entries)
get_by_id_iff_example = get_by_id_iff sample weather_id weather

get_by_Selects_example :
    Selects (λ e. e.type ≡ codes "mcp") sample.entries (get_by_type sample (codes "mcp"))
    × Selects
        (λ e. Some (λ t. t ≡ codes "mcp") e.tags)
        sample.entries
        (get_by_tag sample (codes "mcp"))
    × Selects
        (λ e. (p : Publisher) × (e.publisher ≡ some p) × (p.identifier ≡ codes "mcp"))
        sample.entries
        (get_by_publisher sample (codes "mcp"))
get_by_Selects_example = get_by_Selects sample (codes "mcp")

search_entries_example :
    Selects
      (Searchable (λ s. Occurs (ascii_lower (codes "FORE")) (ascii_lower s)))
      sample.entries
      (search_entries ascii_lower sample (codes "FORE"))
search_entries_example = search_entries_lem ascii_lower sample (codes "FORE")

abbrev compile_any : Bytes → Option (Bytes → Bool)
compile_any pattern = some (λ s. contains_text s pattern)

search_by_regex_example :
    (rs : List CatalogEntry) × (search_by_regex compile_any sample (codes "weather") ≡ some rs)
    × Selects (Searchable (λ s. contains_text s (codes "weather") ≡ true)) sample.entries rs
search_by_regex_example =
    search_by_regex_lem compile_any sample (codes "weather")
      (λ s. contains_text s (codes "weather")) refl

resolve_display_name_example :
    ((weather.display_name ≢ []) × (resolve_display_name weather ≡ weather.display_name))
    ⊎ ((weather.display_name ≡ []) × LastSegment (resolve_display_name weather) weather.identifier)
resolve_display_name_example = resolve_display_name_lem weather
