-- ===== src/Prelude/Lists.antt =====
-- Lists measured by native numbers, tests over lists, and predicates on all or some members.
use Prim.Native.Nat.{ℕ, zero, suc, ◌+◌}
use mathlib.Core.Path.{◌≡◌, refl}
use mathlib.Core.Logic.{◌≢◌, ◌↔◌, ◌⊎◌, inl, inr}
use mathlib.Core.Bool.{Bool, true, false, ◌&&◌, ◌||◌}
use mathlib.Core.List.{List, [], ◌∷◌, ◌++◌}
use native.Mathlib.Omega.{arith}
use ai_catalog_go.Prelude.Tests.{if◌then◌else◌, Bool-cases}

module _ {ℓ} {A : Type ℓ} where
  abbrev pub length : List A → ℕ
  length [] = 0
  length (x ∷ xs) = suc (length xs)

  abbrev pub take : ℕ → List A → List A
  take zero xs = []
  take (suc n) [] = []
  take (suc n) (x ∷ xs) = x ∷ take n xs

  abbrev pub drop : ℕ → List A → List A
  drop zero xs = xs
  drop (suc n) [] = []
  drop (suc n) (x ∷ xs) = drop n xs

  abbrev pub replicate : ℕ → A → List A
  replicate zero a = []
  replicate (suc n) a = a ∷ replicate n a

  abbrev pub is_empty : List A → Bool
  is_empty [] = true
  is_empty (x ∷ xs) = false

  pub is_empty_iff : (xs : List A) → (is_empty xs ≡ true) ↔ (xs ≡ [])
  is_empty_iff [] = (λ _. refl, λ _. refl)
  is_empty_iff (x ∷ xs) = (λ h. cc, λ h. cc)

  pub is_empty-eq-false_iff : (xs : List A) → (is_empty xs ≡ false) ↔ (xs ≢ [])
  is_empty-eq-false_iff [] = (λ h. cc, λ h. absurd (h refl))
  is_empty-eq-false_iff (x ∷ xs) = (λ _ h. cc, λ _. refl)

  pub length-append : (xs ys : List A) → length (xs ++ ys) ≡ length xs + length ys
  length-append [] ys = omega arith
  length-append (x ∷ xs) ys = omega (arith, length-append xs ys)

  pub concat-ne-nil : (xs : List A) (x : A) → xs ++ (x ∷ []) ≢ []
  concat-ne-nil [] x h = cc
  concat-ne-nil (y ∷ xs) x h = cc

module _ {ℓ} {A : Type ℓ} where
  abbrev pub any : (A → Bool) → List A → Bool
  any p [] = false
  any p (x ∷ xs) = p x || any p xs

  abbrev pub all : (A → Bool) → List A → Bool
  all p [] = true
  all p (x ∷ xs) = p x && all p xs

  -- The members that pass a test, in order: a loop that appends to its result.
  abbrev pub select : (A → Bool) → List A → List A
  select p [] = []
  select p (x ∷ xs) = let rest = select p xs in if p x then x ∷ rest else rest

module _ {ℓ} {A : Type ℓ} (P : A → Type 0) where
  abbrev pub All : List A → Type 0
  All [] = Unit
  All (x ∷ xs) = P x × All xs

  abbrev pub Some : List A → Type 0
  Some [] = ⊥
  Some (x ∷ xs) = P x ⊎ Some xs

  pub All-append : (xs ys : List A) → All xs → All ys → All (xs ++ ys)
  All-append [] ys _ hy = hy
  All-append (x ∷ xs) ys (px, hx) hy = (px, All-append xs ys hx hy)

module _ {ℓ} {A : Type ℓ} {P Q : A → Type 0} (f : (a : A) → P a → Q a) where
  pub All-map : (xs : List A) → All P xs → All Q xs
  All-map [] _ = tt
  All-map (x ∷ xs) (p, ps) = (f x p, All-map xs ps)

module _ {A : Type 0} (P Q : A → Type 0) where
  pub All-pair : (xs : List A) → All (λ x. P x × Q x) xs ↔ (All P xs × All Q xs)
  All-pair [] = (λ _. (tt, tt), λ _. tt)
  All-pair (x ∷ xs) = (
    λ ((p, q), h). let (ps, qs) = (All-pair xs).0 h in ((p, ps), (q, qs)),
    λ ((p, ps), (q, qs)). ((p, q), (All-pair xs).1 (ps, qs)),
  )

-- No member passes a test exactly where what its failure decides holds of all.
pub any-eq-false_iff :
    {A : Type 0} {P : A → Type 0} (t : A → Bool)
    → ((a : A) → (t a ≡ false) ↔ P a)
    → (xs : List A) → (any t xs ≡ false) ↔ All P xs
any-eq-false_iff t e [] = (λ _. tt, λ _. refl)
any-eq-false_iff t e (x ∷ xs) = (
  λ h. ((e x).0 (ground arith), (any-eq-false_iff t e xs).0 (ground arith)),
  λ (p, h). ground (arith, (e x).1 p, (any-eq-false_iff t e xs).1 h),
)

-- A test over a list holds exactly when what it decides holds of every, or of some, member.
module _ {ℓ} {A : Type ℓ} {P : A → Type 0} (t : A → Bool) (e : (a : A) → (t a ≡ true) ↔ P a) where
  pub all_iff : (xs : List A) → (all t xs ≡ true) ↔ All P xs
  all_iff [] = (λ _. tt, λ _. refl)
  all_iff (x ∷ xs) = (
    λ h. ((e x).0 (ground arith), (all_iff xs).0 (ground arith)),
    λ h. ground (arith, (e x).1 h.0, (all_iff xs).1 h.1),
  )

  pub any_iff : (xs : List A) → (any t xs ≡ true) ↔ Some P xs
  any_iff [] = (λ h. cc, λ h. absurd h)
  any_iff (x ∷ xs) = (
    λ h. elim (Bool-cases (t x)) [
      | inl p ↦ inl ((e x).0 p)
      | inr p ↦ inr ((any_iff xs).0 (ground arith))
    ],
    elim [ inl p ↦ ground (arith, (e x).1 p) | inr p ↦ ground (arith, (any_iff xs).1 p) ],
  )
