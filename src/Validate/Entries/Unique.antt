-- ===== src/Validate/Entries/Unique.antt =====
-- Which lists of entries pass.
-- Two entries may share an identifier only with two versions, both given and different.
use ai_catalog_go.Prelude.{
  sym, ℕ, any-eq-false_iff, All-pair, ◌∙◌, ◌+◌, arith, not, inr, inl, is_empty-eq-false_iff,
  Bool-cases, if◌then◌else◌, ◌++◌, [], List, false, Bool, All, any, is_empty, ◌&&◌, ◌||◌, ◌∷◌, ◌↔◌,
  ◌⊎◌, ◌≡◌, ◌≢◌,
}
use ai_catalog_go.Catalog.{CatalogEntry}
use ai_catalog_go.Validate.Entries.{
  validate_entry_uniqueness, check_entries, contains_pair, check_versioned_entry, remember,
  nothing_seen, Seen, check_entry,
}
use ai_catalog_go.Text.{codes, contains, text_eq_iff, Bytes, text_eq}
use ai_catalog_go.Validate.Report.Enforces.{
  Enforces-pass, Enforces-then, Enforces-iff, Enforces-error_if, Enforces,
}
use ai_catalog_go.Validate.Codes.{entry_version, entry_duplicate}
use ai_catalog_go.Validate.Report.{indexed}

abbrev pub Compatible : CatalogEntry → CatalogEntry → Type 0
Compatible d e =
    d.identifier ≢ e.identifier ⊎ ((d.version ≢ []) × (e.version ≢ []) × (d.version ≢ e.version))

abbrev pub Unique : List CatalogEntry → Type 0
Unique [] = Unit
Unique (e ∷ es) = All (Compatible e) es × Unique es

-- What the maps hold after the entries of a list, the last one first.
seen_of : List CatalogEntry → Seen
seen_of [] = nothing_seen
seen_of (d ∷ ds) = remember d (seen_of ds)

-- The checks of one entry against one that came before it.
clash : CatalogEntry → CatalogEntry → Bool
clash e d =
    text_eq d.identifier e.identifier
    && (is_empty d.version || is_empty e.version || text_eq d.version e.version)

clash_iff : (e d : CatalogEntry) → (clash e d ≡ false) ↔ Compatible d e
unfolding clash
clash_iff e d = (
  λ h. elim (Bool-cases (text_eq d.identifier e.identifier)) [
    | inl t ↦ inr (
      (is_empty-eq-false_iff d.version).0 (ground arith),
      (is_empty-eq-false_iff e.version).0 (ground arith),
      λ same. let t' = (text_eq_iff d.version e.version).1 same in ground arith,
    )
    | inr t ↦ inl (λ same. let t' = (text_eq_iff d.identifier e.identifier).1 same in cc)
  ],
  elim [
    | inl apart ↦ ground (arith, text_eq_iff d.identifier e.identifier)
    | inr (p, q, r) ↦ ground (
      arith,
      (is_empty-eq-false_iff d.version).1 p,
      (is_empty-eq-false_iff e.version).1 q,
      text_eq_iff d.version e.version,
    )
  ],
)

-- Whether an entry is refused, from the maps.
refused : Seen → CatalogEntry → Bool
refused seen e =
    if not (is_empty e.version)
    then contains seen.unversioned e.identifier
      || contains_pair seen.versioned e.identifier e.version
    else contains seen.unversioned e.identifier || contains seen.versioned_ids e.identifier

refused-any :
    (ds : List CatalogEntry) (e : CatalogEntry) → refused (seen_of ds) e ≡ any (clash e) ds
unfolding refused seen_of contains contains_pair clash remember
refused-any [] e = ground arith
refused-any (d ∷ ds) e = ground (arith, refused-any ds e)

-- No error for an entry exactly where no earlier one clashes with it.
Enforces-check_entry :
    (ds : List CatalogEntry) (e : CatalogEntry) (path : Bytes)
    → Enforces (check_entry (seen_of ds) e path) (refused (seen_of ds) e ≡ false)
unfolding check_entry check_versioned_entry refused
Enforces-check_entry ds e path = elim (Bool-cases (is_empty e.version)) [
  | inl t ↦ rw t (Enforces-error_if _ entry_duplicate path)
  | inr t ↦ rw t (
      Enforces-iff (λ h. ground arith, λ h. ground arith)
        (Enforces-then (Enforces-error_if _ entry_version (path ++ codes ".identifier"))
          (Enforces-error_if _ entry_duplicate path)))
]

Enforces-first :
    (ds : List CatalogEntry) (e : CatalogEntry) (path : Bytes)
    → Enforces (check_entry (seen_of ds) e path) (All (λ d. Compatible d e) ds)
Enforces-first ds e path =
    let (to, from) = any-eq-false_iff (clash e) (clash_iff e) ds in
    Enforces-iff (λ h. to (sym (refused-any ds e) ∙ h), λ h. refused-any ds e ∙ from h)
      (Enforces-check_entry ds e path)

Enforces-check_entries :
    (path : Bytes) (ds : List CatalogEntry) (i : ℕ) (es : List CatalogEntry)
    → Enforces
        (check_entries path (seen_of ds) i es)
        (All (λ e. All (λ d. Compatible d e) ds) es × Unique es)
unfolding check_entries seen_of
Enforces-check_entries path ds i [] = Enforces-iff (λ _. (tt, tt), λ _. tt) Enforces-pass
Enforces-check_entries path ds i (e ∷ es) =
    Enforces-iff
      (
        λ (first, (rest, unique)).
            let (now, old) = (All-pair _ _ es).0 rest in ((first, old), (now, unique)),
        λ ((first, old), (now, unique)). (first, ((All-pair _ _ es).1 (now, old), unique)),
      )
      (Enforces-then (Enforces-first ds e (indexed path (codes ".entries") i))
        (Enforces-check_entries path (e ∷ ds) (i + 1) es))

-- `validateEntryUniqueness` reports no error exactly where any two entries differ in their
-- identifiers, or both have a version and the versions differ.
pub Enforces-validate_entry_uniqueness :
    (entries : List CatalogEntry) (path : Bytes)
    → Enforces (validate_entry_uniqueness entries path) (Unique entries)
unfolding validate_entry_uniqueness seen_of
Enforces-validate_entry_uniqueness entries path =
    Enforces-iff (λ (_, u). u, λ u. (all_none entries, u))
      (Enforces-check_entries path [] 0 entries)
  where
    all_none : (es : List CatalogEntry) → All (λ e. All (λ d. Compatible d e) []) es
    all_none [] = tt
    all_none (e ∷ es) = (tt, all_none es)
