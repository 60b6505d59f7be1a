-- ===== src/Validate/Report.antt =====
-- The validator of validate/validate.go: the diagnostics so far, and how a rule adds to them. A
-- method of the validator is a `Check`; statements in sequence are a `do` block.
pub mod Enforces
pub mod Advises
use ai_catalog_go.Prelude.{
  [], List, some, none, Option, Bool, suc, zero, ℕ, ltb, if◌then◌else◌, ◌/◌, ◌%◌, ◌+◌, ◌∷◌, ◌++◌,
}
use ai_catalog_go.Validate.Codes.{Code}
use ai_catalog_go.Text.{codes, Bytes}

pub record Diagnostic : Type 0 where
  pub code : Code
  pub path : Bytes

pub record Validator : Type 0 where
  pub errors : List Diagnostic
  pub warnings : List Diagnostic

abbrev pub Check : Type 0
Check = Validator → Validator

infixl 5 ◌>>◌
abbrev pub ◌>>◌ : Check → Check → Check
◌>>◌ f g v = g (f v)

-- a `return`, or an `if` with no statement left
abbrev pub pass : Check
pass v = v

unfoldable pub add_error : Code → Bytes → Check
add_error code path v = record v { errors = v.errors ++ (record { code = code; path = path } ∷ []) }

unfoldable pub add_warning : Code → Bytes → Check
add_warning code path v = record v {
  warnings = v.warnings ++ (record { code = code; path = path } ∷ []);
}

-- `if b { v.addError(code, path, …) }`, and the same for a warning
abbrev pub error_if : Bool → Code → Bytes → Check
error_if b code path = if b then add_error code path else pass

abbrev pub warn_if : Bool → Code → Bytes → Check
warn_if b code path = if b then add_warning code path else pass

-- `for i := range xs`
unfoldable pub for_each {ℓ} : {A : Type ℓ} → (ℕ → A → Check) → ℕ → List A → Check
for_each f i [] = pass
for_each f i (x ∷ xs) = f i x >> for_each f (i + 1) xs

-- a pointer that may be nil
unfoldable pub when_some {ℓ} : {A : Type ℓ} → Option A → (A → Check) → Check
when_some none f = pass
when_some (some a) f = f a

-- `%d`
decimal_from : ℕ → ℕ → Bytes
decimal_from zero n = []
decimal_from (suc fuel) n =
    let high = decimal_from fuel (n / 10) ++ ((b'0' + n % 10) ∷ []) in
    if ltb n 10 then (b'0' + n) ∷ [] else high

-- `fmt.Sprintf("%s.entries[%d]", path, i)` and its like
unfoldable pub indexed : Bytes → Bytes → ℕ → Bytes
unfolding decimal_from
indexed path member i = path ++ (member ++ (b'[' ∷ (decimal_from (i + 1) i ++ codes "]")))
