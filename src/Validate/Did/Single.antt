-- ===== src/Validate/Did/Single.antt =====
-- Exactly one method of a list.
-- A reference, or the identifier of a method, that stands for the key.
use ai_catalog_go.Prelude.{
  [], List, false, true, Bool, inr, inl, ap, refl, All, select, Bool-cases, ◌∷◌, ◌↔◌, ◌++◌, ◌≡◌,
}
use ai_catalog_go.Text.{text_eq_iff, Bytes}
use ai_catalog_go.Validate.Did.{refers, resolve_reference, VerificationMethod}
use mathlib.Core.Path.{subst}

abbrev pub Refers : Bytes → Bytes → Bytes → Type 0
Refers signer kid reference = resolve_reference signer reference ≡ kid

-- One member of the list satisfies a predicate.
pub record OnlyOne (P : VerificationMethod → Type 0) (ms : List VerificationMethod)
    (m : VerificationMethod) : Type 0 where
  pub before : List VerificationMethod
  pub after : List VerificationMethod
  pub split : ms ≡ before ++ (m ∷ after)
  pub holds : P m
  pub none_before : All (λ x. ¬ P x) before
  pub none_after : All (λ x. ¬ P x) after

pub Refers-iff :
    (signer kid reference : Bytes)
    → (refers signer kid reference ≡ true) ↔ Refers signer kid reference
Refers-iff signer kid reference = text_eq_iff (resolve_reference signer reference) kid

module _ {P : VerificationMethod → Type 0} (p : VerificationMethod → Bool)
    (p_iff : (m : VerificationMethod) → (p m ≡ true) ↔ P m) where
  refuted : (m : VerificationMethod) → p m ≡ false → ¬ P m
  refuted m h x = let h' = (p_iff m).1 x in cc

  select-nil : (ms : List VerificationMethod) → select p ms ≡ [] → All (λ x. ¬ P x) ms
  select-nil [] h = tt
  select-nil (m ∷ ms) h = elim (Bool-cases (p m)) [
    | inl t ↦ let k : m ∷ select p ms ≡ [] = rw t at h in cc
    | inr t ↦ (refuted m t, select-nil ms (rw t at h))
  ]

  nil-select : (ms : List VerificationMethod) → All (λ x. ¬ P x) ms → select p ms ≡ []
  nil-select [] h = refl
  nil-select (m ∷ ms) (n, h) = elim (Bool-cases (p m)) [
    | inl t ↦ absurd (n ((p_iff m).0 t))
    | inr t ↦ rw t (nil-select ms h)
  ]

  OnlyOne-sound :
      (ms : List VerificationMethod) (m : VerificationMethod)
      → select p ms ≡ m ∷ []
      → OnlyOne P ms m
  OnlyOne-sound [] m h = cc
  OnlyOne-sound (x ∷ ms) m h = elim (Bool-cases (p x)) [
    | inl t ↦
        let h' : x ∷ select p ms ≡ m ∷ [] = rw t at h in
        let same : x ≡ m = cc in
        record {
          before = [];
          after = ms;
          split = ap (λ y. y ∷ ms) same;
          holds = subst P same ((p_iff x).0 t);
          none_before = tt;
          none_after = select-nil ms (cc);
        }
    | inr t ↦
        let i = OnlyOne-sound ms m (rw t at h) in
        record {
          before = x ∷ i.before;
          after = i.after;
          split = ap (λ l. x ∷ l) i.split;
          holds = i.holds;
          none_before = (refuted x t, i.none_before);
          none_after = i.none_after;
        }
  ]

  one-select :
      (before after : List VerificationMethod) (m : VerificationMethod)
      → P m
      → All (λ x. ¬ P x) before
      → All (λ x. ¬ P x) after
      → select p (before ++ (m ∷ after)) ≡ m ∷ []
  one-select [] after m h a b = rw ((p_iff m).1 h, nil-select after b) refl
  one-select (x ∷ before) after m h (n, a) b = elim (Bool-cases (p x)) [
    | inl t ↦ absurd (n ((p_iff x).0 t))
    | inr t ↦ rw t (one-select before after m h a b)
  ]

  pub OnlyOne-iff :
      (ms : List VerificationMethod) (m : VerificationMethod)
      → (select p ms ≡ m ∷ []) ↔ OnlyOne P ms m
  OnlyOne-iff ms m = (
    OnlyOne-sound ms m,
    λ i. rw i.split (one-select i.before i.after m i.holds i.none_before i.none_after),
  )

  pub select-append :
      (xs ys : List VerificationMethod) → select p (xs ++ ys) ≡ select p xs ++ select p ys
  select-append [] ys = refl
  select-append (x ∷ xs) ys = elim (Bool-cases (p x)) [
    | inl t ↦ rw (t, select-append xs ys) refl
    | inr t ↦ rw (t, select-append xs ys) refl
  ]

pub Refers-on :
    (signer kid : Bytes) (m : VerificationMethod)
    → (refers signer kid m.id ≡ true) ↔ Refers signer kid m.id
Refers-on signer kid m = Refers-iff signer kid m.id
