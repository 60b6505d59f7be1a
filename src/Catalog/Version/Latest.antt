-- ===== src/Catalog/Version/Latest.antt =====
-- One order on entries, and that both loops of `GetLatest` keep the greatest entry in it.
use ai_catalog_go.Prelude.{
  ap, Bool-cases, ◌∙◌, ◌⊎◌, inr, inl, refl, Option-cases, ◌≡◌, [], List, some, none, Option, false,
  true, Bool, if◌then◌else◌, ◌&&◌, ◌||◌, ◌∷◌,
}
use ai_catalog_go.Catalog.Version.{
  choose, newest, better, best_version, updated_after, is_equal, semver_key, is_greater, Times,
  Semver,
}
use ai_catalog_go.Text.{Bytes}
use ai_catalog_go.Catalog.Models.{CatalogEntry}

module _ (semver : Semver) (times : Times) where
  -- Whether `a` is a later version than `b`: a valid semantic version is later than none, two are
  -- compared by precedence and then by the time of update, and two entries without one by time.
  unfoldable pub later_keys : Option Bytes → Option Bytes → CatalogEntry → CatalogEntry → Bool
  later_keys (some k) (some l) a b =
      is_greater (semver.compare k l)
      || is_equal (semver.compare k l) && updated_after semver times a b
  later_keys (some k) none a b = true
  later_keys none (some l) a b = false
  later_keys none none a b = updated_after semver times a b

  unfoldable pub later : CatalogEntry → CatalogEntry → Bool
  unfolding later_keys
  later a b = later_keys (semver_key semver times a.version) (semver_key semver times b.version) a b

  -- The greatest entry so far.
  unfoldable pub greatest : CatalogEntry → List CatalogEntry → CatalogEntry
  greatest best [] = best
  greatest best (e ∷ es) = greatest (if later e best then e else best) es

  -- Two entries with valid versions are compared as the first loop compares them.
  better-later :
      (b e : CatalogEntry) (k l : Bytes)
      → semver_key semver times b.version ≡ some k
      → semver_key semver times e.version ≡ some l
      → better semver times e l (some (b, k)) ≡ (if later e b then some (e, l) else some (b, k))
  unfolding better later
  better-later b e k l h valid = rw (h, valid)

  -- With a valid version in hand the first loop keeps the greatest.
  best_version-greatest :
      (b : CatalogEntry) (k : Bytes) (es : List CatalogEntry)
      → semver_key semver times b.version ≡ some k
      → (l : Bytes) × (best_version semver times es (some (b, k)) ≡ some (greatest b es, l))
  unfolding best_version greatest
  best_version-greatest b k [] h = (k, refl)
  best_version-greatest b k (e ∷ es) h = elim (Option-cases (semver_key semver times e.version)) [
    | inl missing ↦
        let keep : later e b ≡ false = unfold later in rw (missing, h) in
        rw (missing, keep) (best_version-greatest b k es h)
    | inr (l, valid) ↦ elim (Bool-cases (later e b)) [
      | inl wins ↦
          let step : better semver times e l (some (b, k)) ≡ some (e, l) =
            better-later b e k l h valid ∙ rw wins in
          rw (valid, step, wins) (best_version-greatest e l es valid)
      | inr stays ↦
          let step : better semver times e l (some (b, k)) ≡ some (b, k) =
            better-later b e k l h valid ∙ rw stays in
          rw (valid, step, stays) (best_version-greatest b k es h)
    ]
  ]

  -- What the first loop has found so far, when nothing before had a valid version.
  abbrev Found : CatalogEntry → List CatalogEntry → Type 0
  Found b es =
      ((l : Bytes) × (best_version semver times es none ≡ some (greatest b es, l)))
      ⊎ ((best_version semver times es none ≡ none) × (newest semver times b es ≡ greatest b es))

  best_version-none :
      (b : CatalogEntry) (es : List CatalogEntry)
      → semver_key semver times b.version ≡ none
      → Found b es
  unfolding best_version greatest newest better
  best_version-none b [] h = inr (refl, refl)
  best_version-none b (e ∷ es) h = elim (Option-cases (semver_key semver times e.version)) [
    | inl missing ↦
        let same : later e b ≡ updated_after semver times e b = unfold later in rw (missing, h) in
        elim (Bool-cases (updated_after semver times e b)) [
          | inl wins ↦ rw (missing, same, wins) (best_version-none e es missing)
          | inr stays ↦ rw (missing, same, stays) (best_version-none b es h)
        ]
    | inr (l, valid) ↦
        let wins : later e b ≡ true = unfold later in rw (valid, h) in
        inl (rw (valid, wins) (best_version-greatest e l es valid))
  ]

  pub choose-greatest :
      (e : CatalogEntry) (es : List CatalogEntry)
      → choose semver times (e ∷ es) ≡ some (greatest e es)
  unfolding choose
  choose-greatest e es = elim (Option-cases (semver_key semver times e.version)) [
    | inl missing ↦
        let start : best_version semver times (e ∷ es) none ≡ best_version semver times es none =
          unfold best_version in rw missing in
        elim (best_version-none e es missing) [
          | inl (l, found) ↦ rw (start, found, choose)
          | inr (none_found, same) ↦ rw (start, none_found, choose) (ap some same)
        ]
    | inr (l, valid) ↦
        let (k, found) = best_version-greatest e l es valid in
        let first : best_version semver times (e ∷ es) none ≡ some (greatest e es, k) =
          unfold best_version better in (rw valid found) in
        rw (first, choose)
  ]
