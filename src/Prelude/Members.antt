-- ===== src/Prelude/Members.antt =====
-- What holds of every element of a list holds of each member.
use ai_catalog_go.Prelude.Lists.{All}
use mathlib.Core.Path.{subst, sym, refl}
use mathlib.Core.List.{List, [], ◌∷◌, Memᴰ}
use mathlib.Core.List.Memᴰ
use mathlib.Core.Logic.{◌↔◌}

module _ {ℓ} {A : Type ℓ} (P : A → Type 0) where
  All-member : (xs : List A) (x : A) → Memᴰ x xs → All P xs → P x
  All-member [] x m a = absurd (Memᴰ.not-nil m)
  All-member (y ∷ ys) x (Memᴰ.head e) (p, ps) = subst P (sym e) p
  All-member (y ∷ ys) x (Memᴰ.tail m) (p, ps) = All-member ys x m ps

  All-members : (xs : List A) → ((x : A) → Memᴰ x xs → P x) → All P xs
  All-members [] f = tt
  All-members (x ∷ xs) f = (f x (Memᴰ.head refl), All-members xs (λ y m. f y (Memᴰ.tail m)))

  pub All-members_iff : (xs : List A) → All P xs ↔ ((x : A) → Memᴰ x xs → P x)
  All-members_iff xs = (λ a x m. All-member xs x m a, All-members xs)
