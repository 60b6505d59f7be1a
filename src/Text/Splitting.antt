-- ===== src/Text/Splitting.antt =====
-- What `strings.Split` at one byte returns.
use ai_catalog_go.Prelude.{
  ℕ, ◌≡◌, ◌≢◌, refl, List, [], ◌∷◌, ◌++◌, arith, All, ◌==◌, Bool-cases, inl, inr,
}
use ai_catalog_go.Text.{Bytes, Lacks, split, onto}

module _ (sep : ℕ) where
  -- Every part behind a separator, and the parts with a separator between them.
  abbrev pub separated : List Bytes → Bytes
  separated [] = []
  separated (p ∷ ps) = sep ∷ (p ++ separated ps)

  onto-ne-nil : (c : ℕ) (ps : List Bytes) → onto c ps ≢ []
  onto-ne-nil c [] h = cc
  onto-ne-nil c (p ∷ ps) h = cc

  pub split-ne-nil : (s : Bytes) → split s sep ≢ []
  unfolding split
  split-ne-nil [] = λ h. cc
  split-ne-nil (c ∷ s) = elim (Bool-cases (c == sep)) [
    | inl e ↦ rw e (λ h. cc)
    | inr e ↦ rw e (onto-ne-nil c (split s sep))
  ]

  separated-onto :
      (c : ℕ) (ps : List Bytes)
      → ps ≢ []
      → (s : Bytes) → separated ps ≡ sep ∷ s
      → separated (onto c ps) ≡ sep ∷ (c ∷ s)
  separated-onto c [] h s e = absurd (h refl)
  separated-onto c (p ∷ ps) h s e = cc

  -- The parts and the separators spell the text.
  pub separated-split : (s : Bytes) → separated (split s sep) ≡ sep ∷ s
  unfolding split
  separated-split [] = refl
  separated-split (c ∷ s) = elim (Bool-cases (c == sep)) [
    | inl e ↦ rw e (ground (arith, separated-split s))
    | inr e ↦ rw e (separated-onto c (split s sep) (split-ne-nil s) s (separated-split s))
  ]

  Lacks-onto :
      (c : ℕ) (ps : List Bytes) → c ≢ sep → All (Lacks sep) ps → All (Lacks sep) (onto c ps)
  Lacks-onto c [] h l = ((h, tt), tt)
  Lacks-onto c (p ∷ ps) h (l, ls) = ((h, l), ls)

  -- No part holds the separator.
  pub split-Lacks : (s : Bytes) → All (Lacks sep) (split s sep)
  unfolding split
  split-Lacks [] = (tt, tt)
  split-Lacks (c ∷ s) = elim (Bool-cases (c == sep)) [
    | inl e ↦ rw e (tt, split-Lacks s)
    | inr e ↦ rw e (Lacks-onto c (split s sep) (ground arith) (split-Lacks s))
  ]

  -- Parts that do not hold the separator come back from the text that they spell.
  pub split_at : (p s : Bytes) → Lacks sep p → split (p ++ (sep ∷ s)) sep ≡ p ∷ split s sep
  unfolding split
  split_at [] s h = ground arith
  split_at (c ∷ p) s (h, hs) = elim (Bool-cases (c == sep)) [
    | inl e ↦ absurd (h (ground arith))
    | inr e ↦ rw (e, split_at p s hs)
  ]

  pub split_lacking : (p : Bytes) → Lacks sep p → split p sep ≡ p ∷ []
  unfolding split
  split_lacking [] h = refl
  split_lacking (c ∷ p) (h, hs) = elim (Bool-cases (c == sep)) [
    | inl e ↦ absurd (h (ground arith))
    | inr e ↦ rw (e, split_lacking p hs)
  ]
