-- ===== src/Catalog/Version/Preference.antt =====
-- That the order in which `GetLatest` compares entries is the one described.
use ai_catalog_go.Prelude.{arith, some, none, Option, true, inr, inl, sym, refl, ◌∙◌, ◌↔◌, ◌⊎◌, ◌≡◌}
use ai_catalog_go.Catalog.Version.{Sign, semver_key, Times, Semver, greater, equal, less}
use ai_catalog_go.Catalog.Version.Latest.{later_keys, later}
use ai_catalog_go.Catalog.Version.Order.{
  no_key, semver_key_complete, semver_key_sound, updated_after_iff, IsVersion, IsLater, IsNewer,
  unversioned, same_version, greater_version, versioned,
}
use ai_catalog_go.Text.{Bytes}
use ai_catalog_go.Catalog.Models.{CatalogEntry}
use mathlib.Core.Option.{some-injective}
use mathlib.Core.Path.{subst}

module _ (semver : Semver) (times : Times) where
  key_same :
      (version k l : Bytes)
      → semver_key semver times version ≡ some k
      → IsVersion semver times version l
      → l ≡ k
  key_same version k l e i =
      some-injective _ _ (sym (semver_key_complete semver times version l i) ∙ e)

  -- The two tests at the same version, or without any.
  compared_iff :
      (k l : Bytes) (a b : CatalogEntry)
      → (later_keys semver times (some k) (some l) a b ≡ true) ↔ (
          (semver.compare k l ≡ greater)
          ⊎ ((semver.compare k l ≡ equal) × IsNewer semver times a b))
  unfolding later_keys
  compared_iff k l a b = of_sign (semver.compare k l) refl
    where
      of_sign :
          (s : Sign)
          → semver.compare k l ≡ s
          → (later_keys semver times (some k) (some l) a b ≡ true) ↔ (
              (semver.compare k l ≡ greater)
              ⊎ ((semver.compare k l ≡ equal) × IsNewer semver times a b))
      of_sign less e =
          rw e (λ h. absurd (ground arith), λ i. elim i [ inl g ↦ cc | inr (q, n) ↦ cc ])
      of_sign equal e = rw e (
        λ h. inr (refl, (updated_after_iff semver times a b).0 h),
        λ i. elim i [ inl g ↦ cc | inr (q, n) ↦ (updated_after_iff semver times a b).1 n ],
      )
      of_sign greater e = rw e (λ h. inl refl, λ i. refl)

  later_keys_iff :
      (o p : Option Bytes) (a b : CatalogEntry)
      → semver_key semver times a.version ≡ o
      → semver_key semver times b.version ≡ p
      → (later_keys semver times o p a b ≡ true) ↔ IsLater semver times a b
  unfolding later_keys
  later_keys_iff (some k) (some l) a b e f = (
    λ h. elim ((compared_iff k l a b).0 h) [
      | inl g ↦ greater_version k l v w g
      | inr (q, n) ↦ same_version k l v w q n
    ],
    λ i. (compared_iff k l a b).1 (compared i),
  )
    where
      v : IsVersion semver times a.version k
      v = semver_key_sound semver times a.version k e

      w : IsVersion semver times b.version l
      w = semver_key_sound semver times b.version l f

      compared :
          IsLater semver times a b
          → (semver.compare k l ≡ greater)
            ⊎ ((semver.compare k l ≡ equal) × IsNewer semver times a b)
      compared (versioned m x u) = absurd (u l w)
      compared (greater_version m n x y c) = inl (
          subst (λ z. semver.compare z l ≡ greater) (key_same a.version k m e x)
            (subst (λ z. semver.compare m z ≡ greater) (key_same b.version l n f y) c))
      compared (same_version m n x y c t) = inr (
        subst (λ z. semver.compare z l ≡ equal) (key_same a.version k m e x)
            (subst (λ z. semver.compare m z ≡ equal) (key_same b.version l n f y) c),
        t,
      )
      compared (unversioned u x n) = absurd (u k v)
  later_keys_iff (some k) none a b e f = (
    λ h.
        versioned k (semver_key_sound semver times a.version k e) (no_key semver times b.version f),
    λ i. refl,
  )
  later_keys_iff none (some l) a b e f = (λ h. absurd (ground arith), λ i. absurd (no_version i))
    where
      no_version : IsLater semver times a b → ⊥
      no_version (versioned k v u) = no_key semver times a.version e k v
      no_version (greater_version k l v w c) = no_key semver times a.version e k v
      no_version (same_version k l v w c n) = no_key semver times a.version e k v
      no_version (unversioned u v n) = v l (semver_key_sound semver times b.version l f)
  later_keys_iff none none a b e f = (
    λ h.
        unversioned (no_key semver times a.version e) (no_key semver times b.version f)
          ((updated_after_iff semver times a b).0 h),
    λ i. (updated_after_iff semver times a b).1 (newer i),
  )
    where
      newer : IsLater semver times a b → IsNewer semver times a b
      newer (versioned k v u) = absurd (no_key semver times a.version e k v)
      newer (greater_version k l v w c) = absurd (no_key semver times a.version e k v)
      newer (same_version k l v w c n) = n
      newer (unversioned u v n) = n

  -- The order of the code is the one described.
  pub later_iff : (a b : CatalogEntry) → (later semver times a b ≡ true) ↔ IsLater semver times a b
  unfolding later
  later_iff a b = later_keys_iff _ _ a b refl refl
