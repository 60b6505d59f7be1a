-- ===== src/Discovery/Link.antt =====
-- discovery/link.go: the links of a Link header field (RFC 8288). The two loops over the unparsed
-- rest are recursion on fuel; both start with more fuel than the rest has bytes.
pub mod Values
pub mod Fuel
pub mod Links
pub mod Selection
mod Tests
use ai_catalog_go.Prelude.{
  map, [], List, some, none, Option, false, true, Bool, suc, zero, ℕ, any, is_empty, length,
  if◌then◌else◌, ◌==◌, ◌||◌, ◌+◌, ◌∷◌, ◌++◌,
}
use ai_catalog_go.Text.{cut, codes, cut_prefix, contains, text_eq, Bytes}

-- The functions of the package strings that read Unicode: `ToLower`, `TrimSpace` and `Fields`.
pub record Strings : Type 0 where
  pub lower : Bytes → Bytes
  pub trim_space : Bytes → Bytes
  pub fields : Bytes → List Bytes

pub record Link : Type 0 where
  pub target : Bytes
  pub rel : List Bytes

pub record LinkParam : Type 0 where
  pub name : Bytes
  pub value : Bytes

abbrev pub quote_byte : ℕ
quote_byte = 34

abbrev pub escape_byte : ℕ
escape_byte = 92

-- a blank or a tab
abbrev pub is_blank : ℕ → Bool
is_blank c = c == b' ' || c == 9

abbrev pub is_comma : ℕ → Bool
is_comma c = c == b','

-- `strings.TrimLeft` for a set of bytes
unfoldable pub trim_left : (ℕ → Bool) → Bytes → Bytes
trim_left p [] = []
trim_left p (c ∷ s) = let rest = trim_left p s in if p c then rest else c ∷ s

-- what stands before the first byte of a set, and the rest from that byte on
unfoldable pub take_until : (ℕ → Bool) → Bytes → Bytes × Bytes
take_until stop [] = ([], [])
take_until stop (c ∷ s) =
    let (before, rest) = take_until stop s in if stop c then ([], c ∷ s) else (c ∷ before, rest)

-- the loop over a quoted string; the flag says that the last byte was a backslash
unfoldable pub read_quoted : Bool → Bytes → Bytes × Bytes
read_quoted escaped [] = ([], [])
read_quoted true (c ∷ s) = let (v, r) = read_quoted false s in (c ∷ v, r)
read_quoted false (c ∷ s) =
    let (v, r) = read_quoted (c == escape_byte) s in
    if c == quote_byte then ([], s) else if c == escape_byte then (v, r) else (c ∷ v, r)

abbrev pub value_stop : ℕ → Bool
value_stop c = c == b';' || is_blank c || is_comma c

abbrev pub quoted_or_token : Bytes → Option Bytes → Bytes × Bytes
quoted_or_token input (some quoted) = read_quoted false quoted
quoted_or_token input none = take_until value_stop input

unfoldable pub parse_link_value : Bytes → Bytes × Bytes
parse_link_value input = quoted_or_token input (cut_prefix input (quote_byte ∷ []))

abbrev pub name_stop : ℕ → Bool
name_stop c = c == b'=' || value_stop c

-- the value behind a name, if an equals sign follows
abbrev pub value_of : Bytes → Option Bytes → Bytes × Bytes
value_of rest none = ([], rest)
value_of rest (some after) = parse_link_value (trim_left is_blank after)

-- the first `rel`, and whether there is an `anchor`
unfoldable pub first_rel : List LinkParam → Option Bytes
unfolding text_eq
first_rel [] = none
first_rel (p ∷ ps) =
    let rest = first_rel ps in if text_eq p.name (codes "rel") then some p.value else rest

unfoldable pub anchored : List LinkParam → Bool
anchored ps = any (λ p. text_eq p.name (codes "anchor")) ps

abbrev pub keep : Option Link → List Link → List Link
keep none ls = ls
keep (some l) ls = l ∷ ls

module _ (strings : Strings) where
  -- the part of the loop of `parseLinkParams` behind a semicolon: a parameter and the rest
  unfoldable pub read_param : Bytes → LinkParam × Bytes
  unfolding parse_link_value
  read_param after =
      let (name, behind) = take_until name_stop (trim_left is_blank after) in
      let rest = trim_left is_blank behind in
      let (value, rest') = value_of rest (cut_prefix rest (codes "=")) in
      (record { name = strings.lower name; value = value }, rest')

  abbrev pub add_param : LinkParam → List LinkParam → List LinkParam
  add_param p ps = if is_empty p.name then ps else p ∷ ps

  abbrev pub params_from :
      (Bytes → List LinkParam × Bytes) → Bytes → Option Bytes → List LinkParam × Bytes
  params_from next rest none = ([], (take_until is_comma rest).1)
  params_from next rest (some after) =
      let (p, rest') = read_param after in let (ps, end) = next rest' in (add_param p ps, end)

  unfoldable pub parse_link_params : ℕ → Bytes → List LinkParam × Bytes
  unfolding read_param
  parse_link_params zero rest = ([], [])
  parse_link_params (suc fuel) rest =
      let trimmed = trim_left is_blank rest in
      params_from (parse_link_params fuel) trimmed (cut_prefix trimmed (codes ";"))

  unfoldable pub new_link : Bytes → List LinkParam → Option Link
  unfolding first_rel anchored
  new_link target ps = elim (first_rel ps) [
    | none ↦ none
    | some rel ↦
        if anchored ps
        then none
        else some (record { target = target; rel = map strings.lower (strings.fields rel) })
  ]

  -- junk before the next comma is left out, and the loop ends with no comma
  abbrev pub links_from_comma : (Bytes → List Link) → Bytes → List Link
  links_from_comma next [] = []
  links_from_comma next (c ∷ rest) = next (c ∷ rest)

  abbrev pub links_from_target : (Bytes → List Link) → Bytes × Bytes × Bool → List Link
  links_from_target next (target, after_target, false) = []
  links_from_target next (target, after_target, true) =
      let (ps, rest) = parse_link_params (length after_target + 1) after_target in
      keep (new_link (strings.trim_space target) ps) (next rest)

  abbrev pub links_from : (Bytes → List Link) → Bytes → Option Bytes → List Link
  links_from next rest none = links_from_comma next (take_until is_comma rest).1
  links_from next rest (some after) = links_from_target next (cut after b'>')

  unfoldable pub parse_links : ℕ → Bytes → List Link
  unfolding parse_link_params new_link
  parse_links zero rest = []
  parse_links (suc fuel) rest =
      let trimmed = trim_left (λ c. is_blank c || is_comma c) rest in
      links_from (parse_links fuel) trimmed (cut_prefix trimmed (codes "<"))

  unfoldable pub parse_link_header : Bytes → List Link
  unfolding parse_links
  parse_link_header value = parse_links (length value + 1) value

  unfoldable pub link_targets : Bytes → List Link → List Bytes
  unfolding contains
  link_targets rel [] = []
  link_targets rel (l ∷ ls) =
      let rest = link_targets rel ls in if contains l.rel rel then l.target ∷ rest else rest

  unfoldable pub targets_with_rel : List Bytes → Bytes → List Bytes
  unfolding link_targets parse_link_header
  targets_with_rel [] rel = []
  targets_with_rel (header ∷ headers) rel =
      link_targets rel (parse_link_header header) ++ targets_with_rel headers rel
