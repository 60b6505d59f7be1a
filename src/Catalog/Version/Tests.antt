-- ===== src/Catalog/Version/Tests.antt =====
-- `GetLatest` at a concrete catalog, with stand-ins for the semantic versions and the clock.
use ai_catalog_go.Prelude.{
  arith, [], some, none, not, refl, ℕ, All, is_empty, length, ltb, if◌then◌else◌, ◌==◌, ◌∷◌, ◌↔◌,
  ◌≡◌, ◌≢◌,
}
use ai_catalog_go.Catalog.Version.{
  get_by_id_and_version, versions, get_latest, Times, Semver, Sign, greater, equal, less,
}
use ai_catalog_go.Text.{text_eq, codes, Bytes}
use ai_catalog_go.Catalog.Version.Greatest.{IsLatest, get_latest-First, SemverLaws}
use ai_catalog_go.Catalog.Models.{CatalogEntry}
use ai_catalog_go.Catalog.Samples.{weather_2, sample}
use ai_catalog_go.Catalog.Query.Laws.{First, Selects}
use ai_catalog_go.Catalog.Version.Lookup.{get_by_id_and_version_iff}

abbrev first_digit : Bytes → ℕ
first_digit [] = 0
first_digit (c ∷ []) = 0
first_digit (c ∷ d ∷ s) = d

abbrev sign_of : ℕ → ℕ → Sign
sign_of a b = if ltb a b then less else if a == b then equal else greater

-- Versions compared by their first digit.
abbrev by_major : Semver
by_major = record {
  is_valid = λ s. not (is_empty s);
  compare = λ a b. sign_of (first_digit a) (first_digit b);
}

by_major_flip : (a b : Bytes) → (by_major.compare a b ≡ greater) ↔ (by_major.compare b a ≡ less)
by_major_flip a b = (λ h. ground arith, λ h. ground arith)

by_major_trans :
    (a b c : Bytes)
    → by_major.compare a b ≡ greater
    → by_major.compare b c ≢ less
    → by_major.compare a c ≡ greater
by_major_trans a b c h k = ground arith

by_major_equal :
    (a b c : Bytes) → by_major.compare a b ≡ equal → by_major.compare a c ≡ by_major.compare b c
by_major_equal a b c h = ground arith

by_major_laws : SemverLaws by_major
by_major_laws = record {
  flip = by_major_flip;
  trans_greater = by_major_trans;
  trans_equal = by_major_equal;
}

abbrev by_length : Times
by_length = record { parse = λ s. some (length s); zero_time = 0 }

abbrev weather_id : Bytes
weather_id = codes "urn:air:acme.com:weather"

latest_test : get_latest by_major by_length sample weather_id ≡ some weather_2
unfolding get_latest text_eq
latest_test = refl

some_version : versions sample weather_id ≢ []
unfolding versions
some_version h = cc

get_latest-First_example :
    (r : CatalogEntry) × (get_latest by_major by_length sample weather_id ≡ some r)
    × IsLatest by_major by_length (versions sample weather_id) r
get_latest-First_example =
    get_latest-First by_major by_length sample weather_id by_major_laws some_version

get_by_id_and_version_iff_example :
    Selects (λ x. x.identifier ≡ weather_id) sample.entries (versions sample weather_id)
    × ((get_by_id_and_version sample weather_id (codes "2.0.0") ≡ some weather_2)
        ↔ First
            (λ x. (x.identifier ≡ weather_id) × (x.version ≡ codes "2.0.0"))
            sample.entries
            weather_2)
    × ((get_by_id_and_version sample weather_id (codes "2.0.0") ≡ none)
        ↔ All (λ x. ¬ ((x.identifier ≡ weather_id) × (x.version ≡ codes "2.0.0"))) sample.entries)
get_by_id_and_version_iff_example =
    get_by_id_and_version_iff sample weather_id (codes "2.0.0") weather_2
