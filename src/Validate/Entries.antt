-- ===== src/Validate/Entries.antt =====
-- validate/validate.go: `validateEntryUniqueness` and `checkVersionedEntry`. The three maps are the
-- lists of their keys.
pub mod Unique
use ai_catalog_go.Prelude.{
  [], List, not, false, Bool, ℕ, is_empty, if◌then◌else◌, ◌&&◌, ◌||◌, ◌+◌, ◌∷◌, ◌++◌,
}
use ai_catalog_go.Validate.Codes.{entry_version, entry_duplicate}
use ai_catalog_go.Text.{codes, contains, text_eq, Bytes}
use ai_catalog_go.Catalog.{CatalogEntry}
use ai_catalog_go.Validate.Report.{indexed, ◌>>◌, pass, error_if, Check}

pub record Seen : Type 0 where
  pub versioned : List (Bytes × Bytes)
  pub unversioned : List Bytes
  pub versioned_ids : List Bytes

abbrev pub nothing_seen : Seen
nothing_seen = record { versioned = []; unversioned = []; versioned_ids = [] }

unfoldable pub contains_pair : List (Bytes × Bytes) → Bytes → Bytes → Bool
unfolding text_eq
contains_pair [] id version = false
contains_pair ((i, v) ∷ ps) id version =
    text_eq i id && text_eq v version || contains_pair ps id version

unfoldable pub check_versioned_entry : Seen → CatalogEntry → Bytes → Check
unfolding contains contains_pair
check_versioned_entry seen entry path = do
  error_if (contains seen.unversioned entry.identifier) entry_version (path ++ codes ".identifier")
  error_if (contains_pair seen.versioned entry.identifier entry.version) entry_duplicate path

-- one round of the loop: what it reports, and what the maps hold after it
unfoldable pub check_entry : Seen → CatalogEntry → Bytes → Check
unfolding check_versioned_entry
check_entry seen entry path =
    if not (is_empty entry.version)
    then check_versioned_entry seen entry path
    else error_if
        (contains seen.unversioned entry.identifier || contains seen.versioned_ids entry.identifier)
        entry_duplicate path

unfoldable pub remember : CatalogEntry → Seen → Seen
remember entry seen =
    if not (is_empty entry.version)
    then record seen {
      versioned = (entry.identifier, entry.version) ∷ seen.versioned;
      versioned_ids = entry.identifier ∷ seen.versioned_ids;
    }
    else record seen { unversioned = entry.identifier ∷ seen.unversioned }

unfoldable pub check_entries : Bytes → Seen → ℕ → List CatalogEntry → Check
unfolding check_entry remember
check_entries path seen i [] = pass
check_entries path seen i (e ∷ es) = do
  check_entry seen e (indexed path (codes ".entries") i)
  check_entries path (remember e seen) (i + 1) es

unfoldable pub validate_entry_uniqueness : List CatalogEntry → Bytes → Check
unfolding check_entries
validate_entry_uniqueness entries path = check_entries path nothing_seen 0 entries
