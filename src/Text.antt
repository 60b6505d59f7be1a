-- ===== src/Text.antt =====
-- Go strings as lists of bytes, and what the code uses of the packages `strings` and `bytes` on
-- single-byte separators. A literal is written `codes "…"`.
pub mod Splitting
use Prim.Native.Char.{code}
use Prim.Native.String.{String}
use ai_catalog_go.Prelude.{
  ℕ, ◌+◌, ◌≡◌, refl, ◌≢◌, ◌↔◌, Bool, true, false, ◌&&◌, ◌||◌, Option, none, some, List, [], ◌∷◌,
  ◌++◌, arith, leb, ◌==◌, if◌then◌else◌, All, Some, inl, inr, Bool-cases, any, map,
}

abbrev pub Bytes : Type 0
Bytes = List ℕ

-- The code points of a literal, which are its bytes when it is ASCII.
abbrev pub codes : String → Bytes
codes String.[] = []
codes (String.◌∷◌ c s) = code c ∷ codes s

-- `s == t`
unfoldable pub text_eq : Bytes → Bytes → Bool
text_eq [] [] = true
text_eq [] (d ∷ t) = false
text_eq (c ∷ s) [] = false
text_eq (c ∷ s) (d ∷ t) = c == d && text_eq s t

pub text_eq_refl : (s : Bytes) → text_eq s s ≡ true
unfolding text_eq
text_eq_refl [] = refl
text_eq_refl (c ∷ s) = ground (arith, text_eq_refl s)

text_eq_sound : (s t : Bytes) → text_eq s t ≡ true → s ≡ t
unfolding text_eq
text_eq_sound [] [] h = refl
text_eq_sound [] (d ∷ t) h = cc
text_eq_sound (c ∷ s) [] h = cc
text_eq_sound (c ∷ s) (d ∷ t) h = ground (arith, text_eq_sound s t)

pub text_eq_iff : (s t : Bytes) → (text_eq s t ≡ true) ↔ (s ≡ t)
text_eq_iff s t = (text_eq_sound s t, λ e. rw e (text_eq_refl t))

-- `slices.Contains`
unfoldable pub contains : List Bytes → Bytes → Bool
contains [] s = false
contains (t ∷ ts) s = text_eq t s || contains ts s

pub contains_iff : (ts : List Bytes) (s : Bytes) → (contains ts s ≡ true) ↔ Some (λ t. t ≡ s) ts
unfolding contains
contains_iff [] s = (λ h. cc, λ h. absurd h)
contains_iff (t ∷ ts) s = (
  λ h. elim (Bool-cases (text_eq t s)) [
    | inl e ↦ inl (text_eq_sound t s e)
    | inr e ↦ inr ((contains_iff ts s).0 (ground arith))
  ],
  elim [
    | inl e ↦ ground (arith, (text_eq_iff t s).1 e)
    | inr m ↦ ground (arith, (contains_iff ts s).1 m)
  ],
)

-- `strings.ContainsAny` for a set of ASCII bytes, and `strings.Contains` for one byte
unfoldable pub contains_any : Bytes → Bytes → Bool
contains_any s set = any (λ c. any (λ d. c == d) set) s

-- `strings.CutPrefix`: the rest behind the prefix
unfoldable pub cut_prefix : Bytes → Bytes → Option Bytes
cut_prefix s [] = some s
cut_prefix [] (d ∷ p) = none
cut_prefix (c ∷ s) (d ∷ p) = let rest = cut_prefix s p in if c == d then rest else none

cut_prefix_sound : (s p r : Bytes) → cut_prefix s p ≡ some r → s ≡ p ++ r
unfolding cut_prefix
cut_prefix_sound s [] r h = ground arith
cut_prefix_sound [] (d ∷ p) r h = cc
cut_prefix_sound (c ∷ s) (d ∷ p) r h = ground (arith, cut_prefix_sound s p r)

cut_prefix_complete : (p r : Bytes) → cut_prefix (p ++ r) p ≡ some r
unfolding cut_prefix
cut_prefix_complete [] r = refl
cut_prefix_complete (d ∷ p) r = ground (arith, cut_prefix_complete p r)

-- `CutPrefix` succeeds exactly on the texts that begin with the prefix.
pub cut_prefix_iff : (s p r : Bytes) → (cut_prefix s p ≡ some r) ↔ (s ≡ p ++ r)
cut_prefix_iff s p r = (cut_prefix_sound s p r, λ e. rw e (cut_prefix_complete p r))

-- `strings.Cut` at one byte: what stands before it, what stands after it, and whether it is there
unfoldable pub cut : Bytes → ℕ → Bytes × Bytes × Bool
cut [] sep = ([], [], false)
cut (c ∷ s) sep =
    let rest = cut s sep in if c == sep then ([], s, true) else (c ∷ rest.0, rest.1, rest.2)

abbrev pub Lacks : ℕ → Bytes → Type 0
Lacks b = All (λ c. c ≢ b)

-- Where the separator is found the two parts and the separator spell the text, and the first
-- part does not hold it.
pub cut_found :
    (s : Bytes) (sep : ℕ)
    → (cut s sep).2 ≡ true
    → (s ≡ (cut s sep).0 ++ (sep ∷ (cut s sep).1)) × Lacks sep (cut s sep).0
unfolding cut
cut_found [] sep h = cc
cut_found (c ∷ s) sep h = ground (arith, cut_found s sep)

pub cut_not_found :
    (s : Bytes) (sep : ℕ) → (cut s sep).2 ≡ false → (s ≡ (cut s sep).0) × Lacks sep (cut s sep).0
unfolding cut
cut_not_found [] sep h = (refl, tt)
cut_not_found (c ∷ s) sep h = ground (arith, cut_not_found s sep)

pub cut_at : (s t : Bytes) (sep : ℕ) → Lacks sep s → cut (s ++ (sep ∷ t)) sep ≡ (s, t, true)
unfolding cut
cut_at [] t sep h = ground arith
cut_at (c ∷ s) t sep (h, hs) = ground (arith, cut_at s t sep hs)

pub cut_missing : (s : Bytes) (sep : ℕ) → Lacks sep s → cut s sep ≡ (s, [], false)
unfolding cut
cut_missing [] sep h = refl
cut_missing (c ∷ s) sep (h, hs) = ground (arith, cut_missing s sep hs)

-- `strings.Split` at one byte: the parts between the separators, always one at least
abbrev onto : ℕ → List Bytes → List Bytes
onto c [] = (c ∷ []) ∷ []
onto c (p ∷ ps) = (c ∷ p) ∷ ps

unfoldable pub split : Bytes → ℕ → List Bytes
split [] sep = [] ∷ []
split (c ∷ s) sep = let rest = split s sep in if c == sep then [] ∷ rest else onto c rest

-- `strings.ToLower` on a byte; on ASCII text this is the whole of it
unfoldable pub lower_byte : ℕ → ℕ
lower_byte c = if leb b'A' c && leb c b'Z' then c + 32 else c

unfoldable pub ascii_lower : Bytes → Bytes
ascii_lower = map lower_byte

-- `strings.EqualFold` against an ASCII text whose letters fold to ASCII only
unfoldable pub equal_fold : Bytes → Bytes → Bool
unfolding text_eq ascii_lower lower_byte
equal_fold s t = text_eq (ascii_lower s) (ascii_lower t)
