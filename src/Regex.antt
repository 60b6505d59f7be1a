-- ===== src/Regex.antt =====
-- The regular expressions that the code compiles with the package `regexp`, as data, and a
-- matcher. All of them are anchored at the start, and none counts or captures.
pub mod Matching
use ai_catalog_go.Prelude.{
  ℕ, ◌+◌, Bool, true, false, not, ◌&&◌, ◌||◌, List, [], ◌∷◌, ◌++◌, ◌≡◌, leb, if◌then◌else◌, any,
}
use ai_catalog_go.Text.{Bytes}

-- A class of bytes: spans of bytes, and whether the class is negated.
pub record ByteClass : Type 0 where
  pub negated : Bool
  pub spans : List (ℕ × ℕ)

unfoldable pub accepts : ByteClass → ℕ → Bool
accepts k c =
    let inside = any (λ (s : ℕ × ℕ). leb s.0 c && leb c s.1) k.spans in
    if k.negated then not inside else inside

pub data Regex : Type 0 where
  nothing empty : Regex
  byte : ByteClass → Regex
  seq : Regex → Regex → Regex
  either : Regex → Regex → Regex
  star : Regex → Regex

-- What it means for the whole of a text to match, with no search order in it.
pub data Matches : Regex → Bytes → Type 0 where
  empty_matches : Matches empty []
  byte_matches : {k : ByteClass} {c : ℕ} → accepts k c ≡ true → Matches (byte k) (c ∷ [])
  seq_matches :
      {r q : Regex} {s : Bytes} (t u : Bytes)
      → s ≡ t ++ u
      → Matches r t
      → Matches q u
      → Matches (seq r q) s
  left_matches : {r q : Regex} {s : Bytes} → Matches r s → Matches (either r q) s
  right_matches : {r q : Regex} {s : Bytes} → Matches q s → Matches (either r q) s
  star_done : {r : Regex} → Matches (star r) []
  star_more :
      {r : Regex} {s : Bytes} (t u : Bytes)
      → s ≡ t ++ u
      → Matches r t
      → Matches (star r) u
      → Matches (star r) s

-- Whether a regular expression matches the empty text.
unfoldable pub nullable : Regex → Bool
nullable nothing = false
nullable empty = true
nullable (byte k) = false
nullable (seq r q) = nullable r && nullable q
nullable (either r q) = nullable r || nullable q
nullable (star r) = true

-- What is left to match behind the byte `c`.
unfoldable pub derive : ℕ → Regex → Regex
derive c nothing = nothing
derive c empty = nothing
derive c (byte k) = if accepts k c then empty else nothing
derive c (seq r q) =
    let first = seq (derive c r) q in
    let second = derive c q in if nullable r then either first second else first
derive c (either r q) = either (derive c r) (derive c q)
derive c (star r) = seq (derive c r) (star r)

unfoldable pub match : Regex → Bytes → Bool
unfolding nullable derive accepts
match r [] = nullable r
match r (c ∷ s) = match (derive c r) s

-- Notation: `r+`, `r?`, and any text at all, which stands for a missing `$`.
abbrev pub plus : Regex → Regex
plus r = seq r (star r)

abbrev pub optional : Regex → Regex
optional r = either r empty

abbrev pub class : List (ℕ × ℕ) → Regex
class spans = byte (record { negated = false; spans = spans })

abbrev pub class_not : List (ℕ × ℕ) → Regex
class_not spans = byte (record { negated = true; spans = spans })

abbrev pub literal : Bytes → Regex
literal [] = empty
literal (c ∷ s) = seq (class ((c, c) ∷ [])) (literal s)

abbrev pub anything : Regex
anything = star (class_not [])
