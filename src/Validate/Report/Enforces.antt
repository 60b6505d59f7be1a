-- ===== src/Validate/Report/Enforces.antt =====
-- A check enforces a rule: it reports no error exactly where the rule holds. One lemma for each way
-- to build a check.
use ai_catalog_go.Prelude.{
  is_empty, ◌≢◌, [], List, some, none, Option, false, true, Bool, inr, inl, refl, ℕ, All,
  concat-ne-nil, if◌then◌else◌, ◌+◌, ◌∷◌, ◌↔◌, ◌⊎◌, ◌≡◌,
}
use ai_catalog_go.Validate.Report.{
  pass, warn_if, error_if, ◌>>◌, Validator, when_some, for_each, add_warning, add_error, Check,
}
use ai_catalog_go.Validate.Codes.{Code}
use ai_catalog_go.Text.{Bytes}

pub record Enforces (c : Check) (P : Type 0) : Type 0 where
  pub sound : (v : Validator) → (c v).errors ≡ [] → (v.errors ≡ []) × P
  pub complete : (v : Validator) → v.errors ≡ [] → P → (c v).errors ≡ []

pub Enforces-pass : Enforces pass Unit
Enforces-pass = record { sound = λ v h. (h, tt); complete = λ v h p. h }

pub Enforces-error : (code : Code) (path : Bytes) → Enforces (add_error code path) ⊥
unfolding add_error
Enforces-error code path = record {
  sound = λ v h. absurd (concat-ne-nil v.errors _ h);
  complete = λ v h p. absurd p;
}

pub Enforces-warning : (code : Code) (path : Bytes) → Enforces (add_warning code path) Unit
unfolding add_warning
Enforces-warning code path = record { sound = λ v h. (h, tt); complete = λ v h p. h }

module _ {c : Check} {P Q : Type 0} where
  -- The same check, its rule put in other words.
  pub Enforces-iff : P ↔ Q → Enforces c P → Enforces c Q
  Enforces-iff (to, from) e = record {
    sound = λ v h. let (old, p) = e.sound v h in (old, to p);
    complete = λ v h q. e.complete v h (from q);
  }

pub Enforces-then :
    {f g : Check} {P Q : Type 0} → Enforces f P → Enforces g Q → Enforces (f >> g) (P × Q)
Enforces-then {f} e k = record {
  sound = λ v h. let (mid, q) = k.sound (f v) h in let (old, p) = e.sound v mid in (old, (p, q));
  complete = λ v h r. k.complete (f v) (e.complete v h r.0) r.1;
}

pub Enforces-if :
    {f g : Check} {P Q : Type 0} (b : Bool)
    → Enforces f P
    → Enforces g Q
    → Enforces (if b then f else g) (((b ≡ true) × P) ⊎ ((b ≡ false) × Q))
Enforces-if true e k =
    Enforces-iff (λ p. inl (refl, p), elim [ inl (_, p) ↦ p | inr (h, _) ↦ cc ]) e
Enforces-if false e k =
    Enforces-iff (λ p. inr (refl, p), elim [ inl (h, _) ↦ cc | inr (_, p) ↦ p ]) k

pub Enforces-error_if :
    (b : Bool) (code : Code) (path : Bytes) → Enforces (error_if b code path) (b ≡ false)
Enforces-error_if true code path = Enforces-iff (λ x. absurd x, λ h. cc) (Enforces-error code path)
Enforces-error_if false code path = Enforces-iff (λ _. refl, λ _. tt) Enforces-pass

pub Enforces-warn_if : (b : Bool) (code : Code) (path : Bytes) → Enforces (warn_if b code path) Unit
Enforces-warn_if true code path = Enforces-warning code path
Enforces-warn_if false code path = Enforces-pass

-- An error where a test fails or passes, by what the test decides.
pub Enforces-unless :
    {P : Type 0} (b : Bool) (code : Code) (path : Bytes)
    → (b ≡ false) ↔ P
    → Enforces (error_if b code path) P
Enforces-unless b code path e = Enforces-iff e (Enforces-error_if b code path)

pub Enforces-for_each {ℓ} :
    {A : Type ℓ} {P : A → Type 0} {f : ℕ → A → Check} (i : ℕ) (xs : List A)
    → ((i : ℕ) (x : A) → Enforces (f i x) (P x))
    → Enforces (for_each f i xs) (All P xs)
unfolding for_each
Enforces-for_each i [] e = Enforces-pass
Enforces-for_each i (x ∷ xs) e = Enforces-then (e i x) (Enforces-for_each (i + 1) xs e)

-- What holds of the value of a pointer that is not nil.
abbrev pub IfSome {ℓ} : {A : Type ℓ} → (A → Type 0) → Option A → Type 0
IfSome P none = Unit
IfSome P (some a) = P a

pub Enforces-when_some {ℓ} :
    {A : Type ℓ} {P : A → Type 0} {f : A → Check} (o : Option A)
    → ((a : A) → Enforces (f a) (P a))
    → Enforces (when_some o f) (IfSome P o)
unfolding when_some
Enforces-when_some none e = Enforces-pass
Enforces-when_some (some a) e = e a

-- A rule for a text that may be absent.
abbrev pub IfPresent : (Bytes → Type 0) → Bytes → Type 0
IfPresent P s = (s ≡ []) ⊎ P s

pub Enforces-present :
    {P : Type 0} {f : Check} (s : Bytes)
    → (s ≢ [] → Enforces f P)
    → Enforces (if is_empty s then pass else f) ((s ≡ []) ⊎ P)
Enforces-present [] e = Enforces-iff (λ _. inl refl, λ _. tt) Enforces-pass
Enforces-present (c ∷ s) e =
    Enforces-iff (λ p. inr p, elim [ inl h ↦ absurd (cc) | inr p ↦ p ]) (e (λ h. cc))

-- A text that is there: the rule for a present one holds outright.
pub present_iff : (P : Bytes → Type 0) (s : Bytes) → s ≢ [] → IfPresent P s ↔ P s
present_iff P s n = (elim [ inl e ↦ absurd (n e) | inr p ↦ p ], λ p. inr p)
