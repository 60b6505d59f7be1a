-- ===== src/Validate/Did/Given.antt =====
-- Which key a verification method gives.
use ai_catalog_go.Prelude.{
  arith, [], List, some, none, not, false, true, Bool, inr, inl, ap, refl, is_empty-eq-false_iff,
  is_empty, Bool-cases, if◌then◌else◌, ◌||◌, ◌∷◌, ◌↔◌, ◌≡◌, ◌≢◌,
}
use ai_catalog_go.Validate.Did.{VerificationMethod, method_key, only_method}
use ai_catalog_go.Text.{text_eq_iff, text_eq, codes, Bytes}
use mathlib.Core.Option.{some-injective}

pub only_method_iff :
    (ms : List VerificationMethod) (m : VerificationMethod)
    → (only_method ms ≡ some m) ↔ (ms ≡ m ∷ [])
unfolding only_method
only_method_iff [] m = (λ h. cc, λ h. cc)
only_method_iff (x ∷ []) m = (λ h. cc, λ h. cc)
only_method_iff (x ∷ y ∷ ms) m = (λ h. cc, λ h. cc)

guarded_iff :
    (a b : Bool) (k jwk : Bytes)
    → ((if not a then none else if b then none else some k) ≡ some jwk)
      ↔ ((a ≡ true) × ((b ≡ false) × (k ≡ jwk)))
guarded_iff false b k jwk = (λ h. cc, λ (h, _). cc)
guarded_iff true true k jwk = (λ h. cc, λ (_, (h, _)). cc)
guarded_iff true false k jwk = (λ h. (refl, (refl, some-injective _ _ h)), λ (_, (_, e)). ap some e)

-- A key that is given: the method is controlled by the signer and has a key.
abbrev pub GivesKey : Bytes → VerificationMethod → Bytes → Type 0
GivesKey signer m jwk =
    (m.controller ≡ signer)
    × (((m.public_key_jwk ≢ []) × (m.public_key_jwk ≢ codes "null")) × (m.public_key_jwk ≡ jwk))

pub GivesKey-iff :
    (signer : Bytes) (m : VerificationMethod) (jwk : Bytes)
    → (method_key signer m ≡ some jwk) ↔ GivesKey signer m jwk
unfolding method_key
GivesKey-iff signer m jwk =
    let k = m.public_key_jwk in
    let (to, from) =
      guarded_iff (text_eq m.controller signer) (is_empty k || text_eq k (codes "null")) k jwk in
    let (same, same') = text_eq_iff m.controller signer in
    let (there, there') = is_empty-eq-false_iff k in
    (
      λ h.
          let (a, (b, e)) = to h in
          (
            same a,
            (
              (
                there (ground arith),
                λ is_null. let t = (text_eq_iff k (codes "null")).1 is_null in ground arith,
              ),
              e,
            ),
          ),
      λ (a, ((n, o), e)).
          let some_key = there' n in let a' = same' a in from (a', (not_null k some_key o, e)),
    )
  where
    not_null :
        (k : Bytes)
        → is_empty k ≡ false
        → k ≢ codes "null"
        → (is_empty k || text_eq k (codes "null")) ≡ false
    not_null k given o = elim (Bool-cases (text_eq k (codes "null"))) [
      | inl t ↦ absurd (o ((text_eq_iff k (codes "null")).0 t))
      | inr t ↦ ground arith
    ]

pub or_false : (b : Bool) → (b || false) ≡ b
or_false true = refl
or_false false = refl

pub or_true : (b : Bool) → (b || true) ≡ true
or_true true = refl
or_true false = refl

pub or_assoc : (a b c : Bool) → ((a || b) || c) ≡ (a || (b || c))
or_assoc a b c = ground arith
