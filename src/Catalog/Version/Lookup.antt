-- ===== src/Catalog/Version/Lookup.antt =====
-- Looking up versions of an entry.
use ai_catalog_go.Prelude.{arith, some, none, true, Bool, All, ◌&&◌, ◌↔◌, ◌≡◌}
use ai_catalog_go.Text.{text_eq_iff, text_eq, Bytes}
use ai_catalog_go.Catalog.Version.{get_by_id_and_version, versions}
use ai_catalog_go.Catalog.Models.{CatalogEntry, AiCatalog}
use ai_catalog_go.Catalog.Query.Laws.{
  find_first-eq-none_iff, find_first_iff, select-Selects, First, Selects,
}

same_both_iff : (a b c d : Bytes) → ((text_eq a b && text_eq c d) ≡ true) ↔ ((a ≡ b) × (c ≡ d))
same_both_iff a b c d = (
  λ h. ((text_eq_iff a b).0 (ground arith), (text_eq_iff c d).0 (ground arith)),
  λ (e, f). ground (arith, (text_eq_iff a b).1 e, (text_eq_iff c d).1 f),
)

-- `Versions` returns the entries with the identifier in document order, and `GetByIDAndVersion` the
-- first of them with the version, or nothing exactly when none has it.
pub get_by_id_and_version_iff :
    (c : AiCatalog) (id version : Bytes) (e : CatalogEntry)
    → Selects (λ x. x.identifier ≡ id) c.entries (versions c id)
      × ((get_by_id_and_version c id version ≡ some e)
          ↔ First (λ x. (x.identifier ≡ id) × (x.version ≡ version)) c.entries e)
      × ((get_by_id_and_version c id version ≡ none)
          ↔ All (λ x. ¬ ((x.identifier ≡ id) × (x.version ≡ version))) c.entries)
unfolding versions get_by_id_and_version
get_by_id_and_version_iff c id version e =
    let same : CatalogEntry → Bool = λ x. text_eq x.identifier id && text_eq x.version version in
    (
      select-Selects (λ x. text_eq x.identifier id) (λ x. text_eq_iff x.identifier id) c.entries,
      find_first_iff same (λ x. same_both_iff x.identifier id x.version version) c.entries e,
      find_first-eq-none_iff same (λ x. same_both_iff x.identifier id x.version version) c.entries,
    )
