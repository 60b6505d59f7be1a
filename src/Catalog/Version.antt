-- ===== src/Catalog/Version.antt =====
-- catalog/version.go. golang.org/x/mod/semver and `time.Parse` are parameters.
pub mod Latest
pub mod Order
pub mod Preference
pub mod Greatest
pub mod Lookup
mod Tests
use ai_catalog_go.Prelude.{
  [], List, some, none, Option, not, false, true, Bool, ℕ, select, is_empty, ltb, if◌then◌else◌,
  ◌==◌, ◌&&◌, ◌||◌, ◌∷◌,
}
use ai_catalog_go.Catalog.Query.{find_first}
use ai_catalog_go.Text.{Bytes, text_eq}
use ai_catalog_go.Catalog.Models.{AiCatalog, CatalogEntry}

unfoldable pub get_by_id_and_version : AiCatalog → Bytes → Bytes → Option CatalogEntry
unfolding find_first text_eq
get_by_id_and_version c id version =
    find_first (λ e. text_eq e.identifier id && text_eq e.version version) c.entries

unfoldable pub versions : AiCatalog → Bytes → List CatalogEntry
unfolding text_eq
versions c id = select (λ e. text_eq e.identifier id) c.entries

-- The sign of `semver.Compare`.
pub data Sign : Type 0 where
  less equal greater : Sign

pub record Semver : Type 0 where
  pub is_valid : Bytes → Bool
  pub compare : Bytes → Bytes → Sign

-- `time.Parse(time.RFC3339, …)`: an instant as a number that grows with time, and Go's zero time.
pub record Times : Type 0 where
  pub parse : Bytes → Option ℕ
  pub zero_time : ℕ

abbrev pub trim_v : Bytes → Bytes
trim_v [] = []
trim_v (c ∷ s) = let rest = trim_v s in if c == b'v' || c == b'V' then rest else c ∷ s

abbrev pub is_greater : Sign → Bool
is_greater greater = true
is_greater _ = false

abbrev pub is_equal : Sign → Bool
is_equal equal = true
is_equal _ = false

module _ (semver : Semver) (times : Times) where
  unfoldable pub semver_key : Bytes → Option Bytes
  semver_key version =
      if is_empty version
      then none
      else let key = b'v' ∷ trim_v version in if not (semver.is_valid key) then none else some key

  unfoldable pub updated_at : CatalogEntry → ℕ
  updated_at e = elim (times.parse e.updated_at) [ none ↦ times.zero_time | some t ↦ t ]

  -- `updatedAt(e).After(updatedAt(best))`
  unfoldable pub updated_after : CatalogEntry → CatalogEntry → Bool
  unfolding updated_at
  updated_after e best = ltb (updated_at best) (updated_at e)

  abbrev Best : Type 0
  Best = Option (CatalogEntry × Bytes)

  -- the switch in the first loop
  better : CatalogEntry → Bytes → Best → Best
  better e key none = some (e, key)
  better e key (some (best, best_sv)) =
      if is_greater (semver.compare key best_sv)
        || is_equal (semver.compare key best_sv) && updated_after e best
      then some (e, key)
      else some (best, best_sv)

  best_version : List CatalogEntry → Best → Best
  best_version [] best = best
  best_version (e ∷ es) best =
      best_version es (elim (semver_key e.version) [ none ↦ best | some key ↦ better e key best ])

  -- the second loop
  newest : CatalogEntry → List CatalogEntry → CatalogEntry
  newest best [] = best
  newest best (e ∷ es) = newest (if updated_after e best then e else best) es

  pub choose : List CatalogEntry → Option CatalogEntry
  choose [] = none
  choose (e ∷ es) = elim (best_version (e ∷ es) none) [
    | some (best, key) ↦ some best
    | none ↦ some (newest e es)
  ]

  unfoldable pub get_latest : AiCatalog → Bytes → Option CatalogEntry
  unfolding choose best_version newest better semver_key updated_after versions
  get_latest c id = choose (versions c id)
