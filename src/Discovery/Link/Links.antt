-- ===== src/Discovery/Link/Links.antt =====
-- How much fuel the loop over the links of a header needs.
-- What is left after trimming does not begin with a byte that is trimmed.
use ai_catalog_go.Prelude.{
  arith, [], List, some, none, Option, false, true, Bool, inr, inl, refl, suc, zero, ℕ, length,
  Bool-cases, ◌||◌, ◌+◌, ◌<◌, ◌≤◌, ◌∷◌, ◌≡◌,
}
use ai_catalog_go.Discovery.Link.{
  links_from, parse_link_params, links_from_target, links_from_comma, is_blank, Link, is_comma,
  parse_links, Strings, take_until, trim_left,
}
use ai_catalog_go.Text.{cut, codes, cut_prefix, Bytes}
use ai_catalog_go.Discovery.Link.Fuel.{
  length-cut, length-cut_prefix, length-parse_link_params, length-trim_left, length-take_until,
}

trim_left-head : (p : ℕ → Bool) (s t : Bytes) (c : ℕ) → trim_left p s ≡ c ∷ t → p c ≡ false
unfolding trim_left
trim_left-head p [] t c e = cc
trim_left-head p (d ∷ s) t c e = elim (Bool-cases (p d)) [
  | inl h ↦ trim_left-head p s t c (ground arith)
  | inr h ↦ ground arith
]

-- Junk that does not begin with a comma is longer than what is left of it from a comma on.
take_until-shorter :
    (s : Bytes) (c : ℕ) → is_comma c ≡ false → length (take_until is_comma (c ∷ s)).1 ≤ length s
unfolding take_until
take_until-shorter s c h = let rest = length-take_until is_comma s in ground arith

module _ (strings : Strings) where
  links_from_comma-same :
      (f g : Bytes → List Link) (s : Bytes)
      → f s ≡ g s
      → links_from_comma strings f s ≡ links_from_comma strings g s
  links_from_comma-same f g [] e = refl
  links_from_comma-same f g (c ∷ s) e = e

  links_from_target-same :
      (f g : Bytes → List Link) (c : Bytes × Bytes × Bool)
      → ((r : Bytes) → length r ≤ length c.1 → f r ≡ g r)
      → links_from_target strings f c ≡ links_from_target strings g c
  links_from_target-same f g (target, after, false) same = refl
  links_from_target-same f g (target, after, true) same =
      let e =
        same (parse_link_params strings (length after + 1) after).1
          (length-parse_link_params strings (length after + 1) after) in
      rw e refl

  links_from-same :
      (f g : Bytes → List Link) (s : Bytes) (o : Option Bytes)
      → cut_prefix s (codes "<") ≡ o
      → ((c : ℕ) (t : Bytes) → s ≡ c ∷ t → is_comma c ≡ false)
      → ((r : Bytes) → length r < length s → f r ≡ g r)
      → links_from strings f s o ≡ links_from strings g s o
  unfolding take_until
  links_from-same f g [] none e head same = refl
  links_from-same f g (c ∷ s) none e head same =
      links_from_comma-same f g (take_until is_comma (c ∷ s)).1
        (same _ (let rest = take_until-shorter s c (head c s refl) in omega arith))
  links_from-same f g s (some after) e head same =
      let shorter = length-cut_prefix s after b'<' e in
      let behind = length-cut after b'>' in
      links_from_target-same f g (cut after b'>') λ r short. same r (omega arith)

  -- With any two amounts of fuel above the length of the value, the loop of `parseLinkHeader` finds
  -- the same links: it ends on every header value, and the fuel it starts with is enough.
  pub parse_links-enough :
      (fuel fuel' : ℕ) (value : Bytes)
      → length value < fuel
      → length value < fuel'
      → parse_links strings fuel value ≡ parse_links strings fuel' value
  unfolding parse_links
  parse_links-enough zero fuel' s h h' = absurd (omega arith)
  parse_links-enough (suc fuel) zero s h h' = absurd (omega arith)
  parse_links-enough (suc fuel) (suc fuel') s h h' =
      let skipped : ℕ → Bool = λ c. is_blank c || is_comma c in
      let trimmed = trim_left skipped s in
      let short = length-trim_left skipped s in
      links_from-same (parse_links strings fuel) (parse_links strings fuel') trimmed
        (cut_prefix trimmed (codes "<")) refl
        (λ c t e. let k = trim_left-head skipped s t c e in ground arith)
        λ r shorter. parse_links-enough fuel fuel' r (omega arith) (omega arith)
