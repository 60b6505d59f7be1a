-- ===== src/Validate/SpecVersion/Rule.antt =====
-- Which versions of the specification pass.
-- Two numbers with a dot between them, as `Atoi` reads them, the first neither negative nor above 1.
use ai_catalog_go.Prelude.{
  arith, append-nil, [], List, some, none, Option, not, false, true, Bool, inr, inl, sym, refl, ℕ,
  All, is_empty, ltb, ◌&&◌, ◌≤◌, ◌∷◌, ◌↔◌, ◌⊎◌, ◌++◌, ◌≡◌,
}
use ai_catalog_go.Validate.Codes.{spec_version}
use ai_catalog_go.Text.{split, Lacks, Bytes}
use ai_catalog_go.Validate.SpecVersion.{
  max_supported_major, atoi, is_negative, validate_spec_version, check_parts, check_numbers,
}
use ai_catalog_go.Validate.Report.Enforces.{
  Enforces-error_if, Enforces-if, Enforces-error, Enforces-iff, Enforces,
}
use ai_catalog_go.Text.Splitting.{split-Lacks, split_lacking, separated-split, split_at, separated}
use mathlib.Core.Option.{some-injective}
use mathlib.Core.Path.{subst, subst₂}

pub record IsSpecVersion (version : Bytes) : Type 0 where
  pub major : Bytes
  pub minor : Bytes
  pub spelled : version ≡ major ++ (b'.' ∷ minor)
  pub major_lacks : Lacks b'.' major
  pub minor_lacks : Lacks b'.' minor
  pub major_value : Bool × ℕ
  pub minor_value : Bool × ℕ
  pub major_read : atoi major ≡ some major_value
  pub minor_read : atoi minor ≡ some minor_value
  pub supported : (major_value.1 ≡ 0) ⊎ ((major_value.0 ≡ false) × (major_value.1 ≤ 1))

abbrev Numbers : Option (Bool × ℕ) → Option (Bool × ℕ) → Type 0
Numbers major minor =
    (m : Bool × ℕ) × (n : Bool × ℕ) × (major ≡ some m)
    × (minor ≡ some n)
    × ((m.1 ≡ 0) ⊎ ((m.0 ≡ false) × (m.1 ≤ 1)))

supported_iff :
    (b : Bool) (n : ℕ)
    → (((is_negative (b, n) ≡ true) × ⊥)
        ⊎ ((is_negative (b, n) ≡ false) × ((not b && ltb max_supported_major n) ≡ false)))
      ↔ ((n ≡ 0) ⊎ ((b ≡ false) × (n ≤ 1)))
supported_iff b n = (λ h. ground arith, λ h. ground arith)

Enforces-check_numbers :
    (major minor : Option (Bool × ℕ)) (path : Bytes)
    → Enforces (check_numbers major minor path) (Numbers major minor)
unfolding check_numbers
Enforces-check_numbers none minor path =
    Enforces-iff (λ x. absurd x, λ (m, n, e, f, s). cc) (Enforces-error spec_version path)
Enforces-check_numbers (some m) none path =
    Enforces-iff (λ x. absurd x, λ (m, n, e, f, s). cc) (Enforces-error spec_version path)
Enforces-check_numbers (some (b, m)) (some n) path =
    let (to, from) = supported_iff b m in
    Enforces-iff
      (
        λ h. ((b, m), n, refl, refl, to h),
        λ (m', n', e, f, s).
            let same : m' ≡ (b, m) = some-injective _ _ (sym e) in
            from (subst (λ (x : Bool × ℕ). (x.1 ≡ 0) ⊎ ((x.0 ≡ false) × (x.1 ≤ 1))) same s),
      )
      (Enforces-if (is_negative (b, m)) (Enforces-error spec_version path)
        (Enforces-error_if (not b && ltb max_supported_major m) spec_version path))

abbrev Parts : List Bytes → Type 0
Parts ps =
    (major : Bytes) × (minor : Bytes) × (ps ≡ major ∷ minor ∷ [])
    × Numbers (atoi major) (atoi minor)

Enforces-check_parts : (ps : List Bytes) (path : Bytes) → Enforces (check_parts ps path) (Parts ps)
unfolding check_parts
Enforces-check_parts [] path =
    Enforces-iff (λ x. absurd x, λ (a, b, e, n). cc) (Enforces-error spec_version path)
Enforces-check_parts (x ∷ []) path =
    Enforces-iff (λ x. absurd x, λ (a, b, e, n). cc) (Enforces-error spec_version path)
Enforces-check_parts (x ∷ y ∷ z ∷ ps) path =
    Enforces-iff (λ x. absurd x, λ (a, b, e, n). cc) (Enforces-error spec_version path)
Enforces-check_parts (x ∷ y ∷ []) path =
    Enforces-iff
      (
        λ h. (x, y, refl, h),
        λ (a, b, e, n).
            let same_a : a ≡ x = cc in
            let same_b : b ≡ y = cc in subst₂ (λ s t. Numbers (atoi s) (atoi t)) same_a same_b n,
      )
      (Enforces-check_numbers (atoi x) (atoi y) path)

IsSpecVersion-of_Parts : (version : Bytes) → Parts (split version b'.') → IsSpecVersion version
IsSpecVersion-of_Parts version (a, b, e, (m, n, read_m, read_n, s)) =
    let spelled : separated b'.' (a ∷ b ∷ []) ≡ b'.' ∷ version =
      rw e at (separated-split b'.' version) in
    let lacking : All (Lacks b'.') (a ∷ b ∷ []) = rw e at (split-Lacks b'.' version) in
    record {
      major = a;
      minor = b;
      spelled = cc (append-nil b);
      major_lacks = lacking.0;
      minor_lacks = lacking.1.0;
      major_value = m;
      minor_value = n;
      major_read = read_m;
      minor_read = read_n;
      supported = s;
    }

Parts-of_IsSpecVersion : (version : Bytes) → IsSpecVersion version → Parts (split version b'.')
Parts-of_IsSpecVersion version i = (
  i.major,
  i.minor,
  rw (
    i.spelled,
    split_at b'.' i.major i.minor i.major_lacks,
    split_lacking b'.' i.minor i.minor_lacks,
  ),
  (i.major_value, i.minor_value, i.major_read, i.minor_read, i.supported),
)

IsSpecVersion-ne-nil : (version : Bytes) → IsSpecVersion version → is_empty version ≡ false
IsSpecVersion-ne-nil [] i = absurd (nil_of i.major i.minor i.spelled)
  where
    nil_of : (a b : Bytes) → ¬ ([] ≡ a ++ (b'.' ∷ b))
    nil_of [] b h = cc
    nil_of (c ∷ a) b h = cc
IsSpecVersion-ne-nil (c ∷ s) i = refl

-- `validateSpecVersion` reports no error exactly for two numbers with a dot between them that
-- `strconv.Atoi` reads, the major one neither negative nor above the supported 1.
pub Enforces-validate_spec_version :
    (version path : Bytes) → Enforces (validate_spec_version version path) (IsSpecVersion version)
unfolding validate_spec_version
Enforces-validate_spec_version version path =
    Enforces-iff
      (
        elim [ inl (_, x) ↦ absurd x | inr (_, p) ↦ IsSpecVersion-of_Parts version p ],
        λ i. inr (IsSpecVersion-ne-nil version i, Parts-of_IsSpecVersion version i),
      )
      (Enforces-if (is_empty version) (Enforces-error spec_version path)
        (Enforces-check_parts (split version b'.') path))
