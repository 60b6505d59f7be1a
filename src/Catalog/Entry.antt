-- ===== src/Catalog/Entry.antt =====
-- catalog/entry.go, and the media type that marks a nested catalog.
pub mod Segment
use ai_catalog_go.Prelude.{
  [], some, none, Option, not, Bool, ℕ, is_empty, if◌then◌else◌, ◌==◌, ◌||◌, ◌∷◌,
}
use ai_catalog_go.Text.{codes, text_eq, Bytes}
use ai_catalog_go.Catalog.Models.{CatalogEntry}

abbrev pub media_type_catalog : Bytes
media_type_catalog = codes "application/ai-catalog+json"

unfoldable pub is_nested_catalog : CatalogEntry → Bool
unfolding text_eq
is_nested_catalog e = text_eq e.type media_type_catalog

-- What stands behind the last byte of a set, as `strings.LastIndexAny` finds it.
unfoldable pub behind_last : (ℕ → Bool) → Bytes → Option Bytes
behind_last stop [] = none
behind_last stop (c ∷ s) = elim (behind_last stop s) [
  | some t ↦ some t
  | none ↦ if stop c then some s else none
]

abbrev pub is_separator : ℕ → Bool
is_separator c = c == b':' || c == b'/'

unfoldable pub resolve_display_name : CatalogEntry → Bytes
unfolding behind_last
resolve_display_name e =
    if not (is_empty e.display_name)
    then e.display_name
    else elim (behind_last is_separator e.identifier) [ some t ↦ t | none ↦ e.identifier ]
