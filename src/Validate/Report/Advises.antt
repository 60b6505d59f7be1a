-- ===== src/Validate/Report/Advises.antt =====
-- A check advises against what a rule forbids: it adds no warning exactly where the rule holds.
use ai_catalog_go.Prelude.{
  [], List, some, none, Option, false, true, Bool, refl, ℕ, All, concat-ne-nil, if◌then◌else◌, ◌+◌,
  ◌∷◌, ◌↔◌, ◌≡◌,
}
use ai_catalog_go.Validate.Report.{
  warn_if, ◌>>◌, Validator, when_some, for_each, add_warning, pass, Check,
}
use ai_catalog_go.Validate.Codes.{Code}
use ai_catalog_go.Text.{Bytes}
use ai_catalog_go.Validate.Report.Enforces.{IfSome}

pub record Advises (c : Check) (P : Type 0) : Type 0 where
  pub sound : (v : Validator) → (c v).warnings ≡ [] → (v.warnings ≡ []) × P
  pub complete : (v : Validator) → v.warnings ≡ [] → P → (c v).warnings ≡ []

pub Advises-pass : Advises pass Unit
Advises-pass = record { sound = λ v h. (h, tt); complete = λ v h p. h }

pub Advises-iff : {c : Check} {P Q : Type 0} → P ↔ Q → Advises c P → Advises c Q
Advises-iff (to, from) e = record {
  sound = λ v h. let (old, p) = e.sound v h in (old, to p);
  complete = λ v h q. e.complete v h (from q);
}

pub Advises-then :
    {f g : Check} {P Q : Type 0} → Advises f P → Advises g Q → Advises (f >> g) (P × Q)
Advises-then {f} e k = record {
  sound = λ v h. let (mid, q) = k.sound (f v) h in let (old, p) = e.sound v mid in (old, (p, q));
  complete = λ v h r. k.complete (f v) (e.complete v h r.0) r.1;
}

Advises-warning : (code : Code) (path : Bytes) → Advises (add_warning code path) ⊥
unfolding add_warning
Advises-warning code path = record {
  sound = λ v h. absurd (concat-ne-nil v.warnings _ h);
  complete = λ v h p. absurd p;
}

-- A warning where a test passes, by what the test decides.
pub Advises-unless :
    {P : Type 0} (b : Bool) (code : Code) (path : Bytes)
    → (b ≡ false) ↔ P
    → Advises (warn_if b code path) P
Advises-unless true code path (to, from) =
    Advises-iff (λ x. absurd x, λ p. let h = from p in absurd (cc)) (Advises-warning code path)
Advises-unless false code path (to, from) = Advises-iff (λ _. to refl, λ _. tt) Advises-pass

pub Advises-for_each {ℓ} :
    {A : Type ℓ} {P : A → Type 0} {f : ℕ → A → Check} (i : ℕ) (xs : List A)
    → ((i : ℕ) (x : A) → Advises (f i x) (P x))
    → Advises (for_each f i xs) (All P xs)
unfolding for_each
Advises-for_each i [] e = Advises-pass
Advises-for_each i (x ∷ xs) e = Advises-then (e i x) (Advises-for_each (i + 1) xs e)

pub Advises-when_some {ℓ} :
    {A : Type ℓ} {P : A → Type 0} {f : A → Check} (o : Option A)
    → ((a : A) → Advises (f a) (P a))
    → Advises (when_some o f) (IfSome P o)
unfolding when_some
Advises-when_some none e = Advises-pass
Advises-when_some (some a) e = e a

-- A test that leaves the rule out.
pub Advises-skip :
    {P Q : Type 0} {f : Check} (b : Bool)
    → ((b ≡ false) ↔ Q)
    → (Q → Advises f P)
    → Advises (if b then pass else f) (Q → P)
Advises-skip true (to, from) e =
    Advises-iff (λ _ q. let h = from q in absurd (cc), λ _. tt) Advises-pass
Advises-skip false (to, from) e = Advises-iff (λ p _. p, λ g. g (to refl)) (e (to refl))
