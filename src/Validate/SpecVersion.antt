-- ===== src/Validate/SpecVersion.antt =====
-- validate/validate.go: `validateSpecVersion`.
pub mod Rule
use ai_catalog_go.Prelude.{
  [], List, some, none, Option, not, false, true, Bool, ℕ, is_empty, leb, ltb, if◌then◌else◌, ◌==◌,
  ◌&&◌, ◌*◌, ◌-◌, ◌+◌, ◌∷◌,
}
use ai_catalog_go.Text.{split, Bytes}
use ai_catalog_go.Validate.Report.{error_if, add_error, Check}
use Prim.Native.Nat.{◌^◌}
use ai_catalog_go.Validate.Codes.{spec_version}

-- `strconv.Atoi` on a 64-bit machine.
unfoldable pub digits_value : ℕ → Bytes → Option ℕ
digits_value n [] = some n
digits_value n (c ∷ s) =
    let rest = digits_value (n * 10 + (c - b'0')) s in
    if leb b'0' c && leb c b'9' then rest else none

unfoldable pub magnitude : Bytes → Option ℕ
unfolding digits_value
magnitude [] = none
magnitude (c ∷ s) = digits_value 0 (c ∷ s)

-- A number by its sign and its magnitude.
abbrev signed : Bool → Option ℕ → Option (Bool × ℕ)
signed negative none = none
signed negative (some n) =
    if leb n (if negative then 2 ^ 63 else 2 ^ 63 - 1) then some (negative, n) else none

unfoldable pub atoi : Bytes → Option (Bool × ℕ)
unfolding magnitude
atoi [] = none
atoi (c ∷ s) =
    if c == b'-'
    then signed true (magnitude s)
    else if c == b'+'
    then signed false (magnitude s)
    else signed false (magnitude (c ∷ s))

abbrev pub max_supported_major : ℕ
max_supported_major = 1

-- `major < 0`
abbrev is_negative : Bool × ℕ → Bool
is_negative (negative, n) = negative && ltb 0 n

-- the tests on the two numbers, in their order
unfoldable pub check_numbers : Option (Bool × ℕ) → Option (Bool × ℕ) → Bytes → Check
check_numbers none minor path = add_error spec_version path
check_numbers (some major) none path = add_error spec_version path
check_numbers (some major) (some minor) path =
    if is_negative major
    then add_error spec_version path
    else error_if (not major.0 && ltb max_supported_major major.1) spec_version path

unfoldable pub check_parts : List Bytes → Bytes → Check
unfolding atoi check_numbers
check_parts (major ∷ minor ∷ []) path = check_numbers (atoi major) (atoi minor) path
check_parts _ path = add_error spec_version path

unfoldable pub validate_spec_version : Bytes → Bytes → Check
unfolding check_parts split
validate_spec_version version path =
    if is_empty version then add_error spec_version path else check_parts (split version b'.') path
