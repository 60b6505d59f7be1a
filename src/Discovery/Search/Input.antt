-- ===== src/Discovery/Search/Input.antt =====
-- Which input starts a search.
use ai_catalog_go.Prelude.{
  [], some, none, Option, false, true, inr, inl, ap, sym, refl, is_empty-eq-false_iff, is_empty_iff,
  is_empty, Bool-cases, ◌∙◌, ◌↔◌, ◌≡◌, ◌≢◌,
}
use ai_catalog_go.Discovery.Search.{
  spell_path, scheme_https, with_scheme, parse_input, check_input, Web,
}
use ai_catalog_go.Text.{text_eq_iff, codes, text_eq, Bytes}
use mathlib.Core.Option.{some-injective}
use mathlib.Core.Path.{subst}

module _ {Url : Type 0} (web : Web Url) where
  open web use {strings, parse_url, scheme, hostname, path, with_path}

  -- A text that is not blank and parses, https assumed, to an https URL with a host; an empty path
  -- becomes the root.
  pub record IsInput (input : Bytes) (u : Url) : Type 0 where
    pub some_text : strings.trim_space input ≢ []
    pub parsed : Url
    pub parses : parse_url (with_scheme web (strings.trim_space input)) ≡ some parsed
    pub https : scheme parsed ≡ scheme_https
    pub some_host : hostname parsed ≢ []
    pub spelled : u ≡ spell_path web parsed

  check_input_iff :
      (o : Option Url) (u : Url)
      → (check_input web o ≡ some u) ↔ (
          (p : Url) × (o ≡ some p)
          × (scheme p ≡ scheme_https)
          × (hostname p ≢ [])
          × (u ≡ spell_path web p))
  check_input_iff none u = (λ e. cc, λ (p, e, s, h, f). cc)
  check_input_iff (some v) u = elim (Bool-cases (text_eq (scheme v) scheme_https)) [
    | inl t ↦ elim (Bool-cases (is_empty (hostname v))) [
      | inl s ↦
          rw (t, s)
            (
              λ e. cc,
              λ (p, e, _, h, f).
                  let same = some-injective _ _ (sym e) in
                  absurd
                    (h (subst (λ x. hostname x ≡ []) (sym same) ((is_empty_iff (hostname v)).0 s))),
            )
      | inr s ↦
          rw (t, s)
            (
              λ e. (
                v,
                refl,
                (text_eq_iff (scheme v) scheme_https).0 t,
                (is_empty-eq-false_iff (hostname v)).0 s,
                sym (some-injective _ _ e),
              ),
              λ (p, e, _, h, f).
                  let same = some-injective _ _ (sym e) in
                  ap some (ap (spell_path web) (sym same) ∙ sym f),
            )
    ]
    | inr t ↦ rw t (
      λ e. cc,
      λ (p, e, s, h, f).
          let same = some-injective _ _ (sym e) in
          let s' = subst (λ x. scheme x ≡ scheme_https) same s in
          let t' = (text_eq_iff (scheme v) scheme_https).1 s' in
          let k : false ≡ true = sym t ∙ t' in cc,
    )
  ]

  -- `parseInput` accepts exactly text that is not blank and that parses, with https:// in front where
  -- it has no ://, to an https URL with a host, and it spells an empty path as the root.
  pub parse_input_iff :
      (input : Bytes) (u : Url) → (parse_input web input ≡ some u) ↔ IsInput input u
  unfolding parse_input
  parse_input_iff input u =
      let (to, from) = check_input_iff (parse_url (with_scheme web (strings.trim_space input))) u in
      elim (Bool-cases (is_empty (strings.trim_space input))) [
        | inl t ↦
            rw t
              (λ e. cc, λ i. absurd (i.some_text ((is_empty_iff (strings.trim_space input)).0 t)))
        | inr t ↦ rw t (
          λ e.
              let (p, parses, https, some_host, spelled) = to e in
              record {
                some_text = (is_empty-eq-false_iff (strings.trim_space input)).0 t;
                parsed = p;
                parses = parses;
                https = https;
                some_host = some_host;
                spelled = spelled;
              },
          λ i. from (i.parsed, i.parses, i.https, i.some_host, i.spelled),
        )
      ]

  -- Setting the path of a URL leaves its scheme.
  abbrev pub PathKeepsScheme : Type 0
  PathKeepsScheme = (u : Url) (p : Bytes) → scheme (with_path u p) ≡ scheme u

  pub input-https :
      PathKeepsScheme → (input : Bytes) (u : Url) → IsInput input u → scheme u ≡ scheme_https
  input-https keeps input u i =
      let spelled_https : scheme (spell_path web i.parsed) ≡ scheme_https =
        elim (Bool-cases (is_empty (path i.parsed))) [
          | inl t ↦ rw t (keeps i.parsed (codes "/") ∙ i.https)
          | inr t ↦ rw t (i.https)
        ] in
      ap scheme i.spelled ∙ spelled_https
