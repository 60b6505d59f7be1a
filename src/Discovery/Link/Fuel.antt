-- ===== src/Discovery/Link/Fuel.antt =====
-- How much fuel the loops over a Link header need.
use ai_catalog_go.Prelude.{
  arith, [], List, some, none, Option, false, true, Bool, refl, suc, zero, ℕ, length, ◌==◌, ◌<◌,
  ◌≤◌, ◌∷◌, ◌≡◌,
}
use ai_catalog_go.Discovery.Link.{
  is_comma, value_stop, params_from, name_stop, value_of, quoted_or_token, is_blank, quote_byte,
  parse_link_params, LinkParam, read_param, escape_byte, Strings, parse_link_value, read_quoted,
  take_until, trim_left,
}
use ai_catalog_go.Text.{codes, cut_prefix_iff, cut_prefix, Bytes, cut}

pub length-trim_left : (p : ℕ → Bool) (s : Bytes) → length (trim_left p s) ≤ length s
unfolding trim_left
length-trim_left p [] = omega arith
length-trim_left p (c ∷ s) = ground (arith, length-trim_left p s)

pub length-take_until : (p : ℕ → Bool) (s : Bytes) → length (take_until p s).1 ≤ length s
unfolding take_until
length-take_until p [] = omega arith
length-take_until p (c ∷ s) = ground (arith, length-take_until p s)

length-read_quoted : (b : Bool) (s : Bytes) → length (read_quoted b s).1 ≤ length s
unfolding read_quoted
length-read_quoted b [] = omega arith
length-read_quoted true (c ∷ s) = ground (arith, length-read_quoted false s)
length-read_quoted false (c ∷ s) = ground (arith, length-read_quoted (c == escape_byte) s)

pub length-cut : (s : Bytes) (sep : ℕ) → length (cut s sep).1 ≤ length s
unfolding cut
length-cut [] sep = omega arith
length-cut (c ∷ s) sep = ground (arith, length-cut s sep)

-- The rest behind a prefix of one byte is shorter.
pub length-cut_prefix : (s r : Bytes) (c : ℕ) → cut_prefix s (c ∷ []) ≡ some r → length r < length s
length-cut_prefix s r c e = let same = (cut_prefix_iff s (c ∷ []) r).0 e in rw same (omega arith)

length-parse_link_value : (s : Bytes) → length (parse_link_value s).1 ≤ length s
unfolding parse_link_value
length-parse_link_value s = by_quote (cut_prefix s (quote_byte ∷ [])) refl
  where
    by_quote :
        (o : Option Bytes)
        → cut_prefix s (quote_byte ∷ []) ≡ o
        → length (quoted_or_token s o).1 ≤ length s
    by_quote none e = length-take_until value_stop s
    by_quote (some q) e =
        let shorter = length-cut_prefix s q quote_byte e in
        let read = length-read_quoted false q in omega arith

length-value_of :
    (s : Bytes) (o : Option Bytes)
    → cut_prefix s (codes "=") ≡ o
    → length (value_of s o).1 ≤ length s
length-value_of s none e = omega arith
length-value_of s (some after) e =
    let shorter = length-cut_prefix s after b'=' e in
    let trimmed = length-trim_left is_blank after in
    let read = length-parse_link_value (trim_left is_blank after) in omega arith

module _ (strings : Strings) where
  length-read_param : (s : Bytes) → length (read_param strings s).1 ≤ length s
  unfolding read_param
  length-read_param s =
      let trimmed = trim_left is_blank s in
      let behind = (take_until name_stop trimmed).1 in
      let rest = trim_left is_blank behind in
      let a = length-trim_left is_blank s in
      let b = length-take_until name_stop trimmed in
      let c = length-trim_left is_blank behind in
      let d = length-value_of rest (cut_prefix rest (codes "=")) refl in omega arith

  -- A loop on shorter rests, by two continuations that agree on them.
  params_from-same :
      (f g : Bytes → List LinkParam × Bytes) (s : Bytes) (o : Option Bytes)
      → cut_prefix s (codes ";") ≡ o
      → ((r : Bytes) → length r < length s → f r ≡ g r)
      → params_from strings f s o ≡ params_from strings g s o
  params_from-same f g s none e same = refl
  params_from-same f g s (some after) e same =
      let shorter = length-cut_prefix s after b';' e in
      let read = length-read_param after in
      let h = same (read_param strings after).1 (omega arith) in rw h refl

  -- With any two amounts of fuel above the length of the rest, `parseLinkParams` reads the same
  -- parameters and leaves the same rest.
  pub parse_link_params-enough :
      (fuel fuel' : ℕ) (s : Bytes)
      → length s < fuel
      → length s < fuel'
      → parse_link_params strings fuel s ≡ parse_link_params strings fuel' s
  unfolding parse_link_params
  parse_link_params-enough zero fuel' s h h' = absurd (omega arith)
  parse_link_params-enough (suc fuel) zero s h h' = absurd (omega arith)
  parse_link_params-enough (suc fuel) (suc fuel') s h h' =
      let trimmed = trim_left is_blank s in
      let short = length-trim_left is_blank s in
      params_from-same (parse_link_params strings fuel) (parse_link_params strings fuel') trimmed
        (cut_prefix trimmed (codes ";")) refl
        λ r shorter. parse_link_params-enough fuel fuel' r (omega arith) (omega arith)

  length-params_from :
      (f : Bytes → List LinkParam × Bytes) (s : Bytes) (o : Option Bytes)
      → cut_prefix s (codes ";") ≡ o
      → ((r : Bytes) → length (f r).1 ≤ length r)
      → length (params_from strings f s o).1 ≤ length s
  length-params_from f s none e short = length-take_until is_comma s
  length-params_from f s (some after) e short =
      let shorter = length-cut_prefix s after b';' e in
      let read = length-read_param after in
      let rest = short (read_param strings after).1 in omega arith

  pub length-parse_link_params :
      (fuel : ℕ) (s : Bytes) → length (parse_link_params strings fuel s).1 ≤ length s
  unfolding parse_link_params
  length-parse_link_params zero s = omega arith
  length-parse_link_params (suc fuel) s =
      let trimmed = trim_left is_blank s in
      let short = length-trim_left is_blank s in
      let rest =
        length-params_from (parse_link_params strings fuel) trimmed (cut_prefix trimmed (codes ";"))
          refl (length-parse_link_params fuel) in
      omega arith
