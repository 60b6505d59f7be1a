-- ===== src/Trust/Canonical/Members.antt =====
-- The members of an object without some of them.
use ai_catalog_go.Prelude.{
  [], List, some, none, false, true, inr, inl, ap, refl, All, Bool-cases, ◌∙◌, ◌∷◌, ◌≡◌, ◌≢◌,
}
use ai_catalog_go.Trust.Canonical.{
  set_member, has_member, additional_signatures_member, drop_member, signature_member,
}
use ai_catalog_go.Text.{text_eq_iff, Bytes, text_eq}
use ai_catalog_go.Jws.{find_member}
use ai_catalog_go.Jws.Parsing.{DistinctNames}
use mathlib.Core.Option.{some-injective}
use mathlib.Core.Path.{subst}

pub distinct_names : text_eq additional_signatures_member signature_member ≡ false
unfolding text_eq
distinct_names = refl

pub find-drop :
    (ms : List (Bytes × Bytes))
    → find_member signature_member (drop_member additional_signatures_member ms)
      ≡ find_member signature_member ms
unfolding find_member drop_member
find-drop [] = refl
find-drop ((k, v) ∷ ms) = elim (Bool-cases (text_eq k additional_signatures_member)) [
  | inl t ↦
      let same = (text_eq_iff k additional_signatures_member).0 t in
      let other : text_eq k signature_member ≡ false =
        ap (λ n. text_eq n signature_member) same ∙ distinct_names in
      rw (t, other) (find-drop ms)
  | inr t ↦ rw (t, find-drop ms) refl
]

module _ (name : Bytes) where
  pub drop-absent :
      (ms : List (Bytes × Bytes)) → has_member name ms ≡ false → drop_member name ms ≡ ms
  unfolding find_member drop_member
  drop-absent [] h = refl
  drop-absent ((k, v) ∷ ms) h = elim (Bool-cases (text_eq k name)) [
    | inl t ↦ let k' : true ≡ false = rw t at h in cc
    | inr t ↦ rw (t, drop-absent ms (rw t at h)) refl
  ]

  pub set-absent :
      (w : Bytes) (ms : List (Bytes × Bytes))
      → find_member name ms ≡ none
      → set_member name w ms ≡ ms
  unfolding find_member set_member
  set-absent w [] h = refl
  set-absent w ((k, v) ∷ ms) h = elim (Bool-cases (text_eq k name)) [
    | inl t ↦ let k' : some v ≡ none = rw t at h in cc
    | inr t ↦ rw (t, set-absent w ms (rw t at h)) refl
  ]

  pub find-absent :
      (ms : List (Bytes × Bytes)) → All (λ m. m.0 ≢ name) ms → find_member name ms ≡ none
  unfolding find_member
  find-absent [] h = refl
  find-absent ((k, v) ∷ ms) (n, h) = elim (Bool-cases (text_eq k name)) [
    | inl t ↦ absurd (n ((text_eq_iff k name).0 t))
    | inr t ↦ rw (t, find-absent ms h) refl
  ]

  pub set-find :
      (v : Bytes) (ms : List (Bytes × Bytes))
      → DistinctNames ms
      → find_member name ms ≡ some v
      → set_member name v ms ≡ ms
  unfolding find_member set_member
  set-find v [] d h = refl
  set-find v ((k, w) ∷ ms) (fresh, d) h = elim (Bool-cases (text_eq k name)) [
    | inl t ↦
        let here : w ≡ v = some-injective _ _ (rw t at h) in
        let same = (text_eq_iff k name).0 t in
        let absent = find-absent ms (subst (λ n. All (λ m. m.0 ≢ n) ms) same fresh) in
        rw (t, set-absent v ms absent, here) refl
    | inr t ↦ rw (t, set-find v ms d (rw t at h)) refl
  ]

pub drop-DistinctNames :
    (name : Bytes) (ms : List (Bytes × Bytes))
    → DistinctNames ms
    → DistinctNames (drop_member name ms)
unfolding drop_member
drop-DistinctNames name [] d = tt
drop-DistinctNames name ((k, v) ∷ ms) (fresh, d) = elim (Bool-cases (text_eq k name)) [
  | inl t ↦ rw t (drop-DistinctNames name ms d)
  | inr t ↦ rw t (all_kept ms fresh, drop-DistinctNames name ms d)
]
  where
    all_kept :
        (ns : List (Bytes × Bytes))
        → All (λ m. m.0 ≢ k) ns
        → All (λ m. m.0 ≢ k) (drop_member name ns)
    all_kept [] a = tt
    all_kept ((l, w) ∷ ns) (n, a) = elim (Bool-cases (text_eq l name)) [
      | inl t ↦ rw t (all_kept ns a)
      | inr t ↦ rw t (n, all_kept ns a)
    ]
