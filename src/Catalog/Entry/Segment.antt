-- ===== src/Catalog/Entry/Segment.antt =====
-- The display name that an entry without one is given.
use ai_catalog_go.Prelude.{
  arith, [], some, none, Option, inr, inl, ap, refl, ℕ, All, is_empty-eq-false_iff, is_empty_iff,
  is_empty, Bool-cases, if◌then◌else◌, ◌∷◌, ◌⊎◌, ◌++◌, ◌≡◌, ◌≢◌,
}
use ai_catalog_go.Text.{Bytes}
use ai_catalog_go.Catalog.Entry.{is_separator, resolve_display_name, behind_last}
use ai_catalog_go.Catalog.Models.{CatalogEntry}

abbrev pub NoSeparator : Bytes → Type 0
NoSeparator = All (λ c. (c ≢ b':') × (c ≢ b'/'))

-- `t` is the last segment of `s`: all of it, or what stands behind a colon or a slash.
abbrev pub LastSegment : Bytes → Bytes → Type 0
LastSegment t s =
    NoSeparator t
    × ((s ≡ t) ⊎ ((pre : Bytes) × (c : ℕ) × ((c ≡ b':') ⊎ (c ≡ b'/')) × (s ≡ pre ++ (c ∷ t))))

-- What `behind_last` says of a text.
abbrev Behind : Option Bytes → Bytes → Type 0
Behind none s = NoSeparator s
Behind (some t) s =
    NoSeparator t × ((pre : Bytes) × (c : ℕ) × ((c ≡ b':') ⊎ (c ≡ b'/')) × (s ≡ pre ++ (c ∷ t)))

behind_last-Behind : (s : Bytes) → Behind (behind_last is_separator s) s
unfolding behind_last
behind_last-Behind [] = tt
behind_last-Behind (c ∷ s) = go (behind_last is_separator s) (behind_last-Behind s)
  where
    go :
        (o : Option Bytes)
        → Behind o s
        → Behind
            (elim o [ some t ↦ some t | none ↦ if is_separator c then some s else none ])
            (c ∷ s)
    go (some t) (h, (pre, d, sep, e)) = (h, (c ∷ pre, d, sep, ap (λ v. c ∷ v) e))
    go none h = elim (Bool-cases (is_separator c)) [
      | inl sep ↦ rw sep (h, ([], c, ground arith, refl))
      | inr other ↦ rw other (ground arith, h)
    ]

Behind-LastSegment :
    (o : Option Bytes) (s : Bytes) → Behind o s → LastSegment (elim o [ some t ↦ t | none ↦ s ]) s
Behind-LastSegment (some t) s (h, p) = (h, inr p)
Behind-LastSegment none s h = (h, inl refl)

-- The resolved name is the display name where there is one, and otherwise the last segment of the
-- identifier: what follows the final colon or slash, or all of it.
pub resolve_display_name_lem :
    (e : CatalogEntry)
    → ((e.display_name ≢ []) × (resolve_display_name e ≡ e.display_name))
      ⊎ ((e.display_name ≡ []) × LastSegment (resolve_display_name e) e.identifier)
unfolding resolve_display_name
resolve_display_name_lem e = elim (Bool-cases (is_empty e.display_name)) [
  | inl h ↦ inr (
    (is_empty_iff e.display_name).0 h,
    rw h (
        Behind-LastSegment (behind_last is_separator e.identifier) e.identifier
          (behind_last-Behind e.identifier)),
  )
  | inr h ↦ inl ((is_empty-eq-false_iff e.display_name).0 h, rw h)
]
