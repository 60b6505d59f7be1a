-- ===== src/Discovery/Search/Catalogs.antt =====
-- Which responses are catalogs, and where a catalog may stand.
use ai_catalog_go.Prelude.{
  arith, [], some, none, Option, false, true, inr, inl, sym, Some, is_empty-eq-false_iff,
  is_empty_iff, is_empty, Bool-cases, ◌∙◌, ◌<◌, ◌≤◌, ◌↔◌, ◌⊎◌, ◌≡◌, ◌≢◌,
}
use ai_catalog_go.Discovery.Search.{with_version, as_catalog, success, Response, Web}
use ai_catalog_go.Catalog.{AiCatalog}
use ai_catalog_go.Text.{Bytes, codes}
use ai_catalog_go.Discovery.Link.{targets_with_rel}
use mathlib.Core.Option.{some-injective}
use ai_catalog_go.Discovery.Html.{find_html_links}
use mathlib.Core.Path.{subst}

module _ {Url : Type 0} (web : Web Url) where
  open web use {strings, json, html, media_type, scheme, host, parse_in, at_path}

  -- A status of success.
  abbrev pub Succeeds : Response Url → Type 0
  Succeeds r = (200 ≤ r.status_code) × (r.status_code < 300)

  -- A response that holds a catalog: it succeeded, and its body parses and has a version.
  pub record IsCatalog (r : Response Url) (c : AiCatalog) : Type 0 where
    pub succeeds : Succeeds r
    pub parsed : json.catalog r.body ≡ some c
    pub some_version : strings.trim_space c.spec_version ≢ []

  pub success_iff : (r : Response Url) → (success r ≡ true) ↔ Succeeds r
  unfolding success
  success_iff r = (λ h. (ground arith, ground arith), λ (a, b). ground arith)

  with_version_iff :
      (o : Option AiCatalog) (c : AiCatalog)
      → (with_version web o ≡ some c) ↔ ((o ≡ some c) × (strings.trim_space c.spec_version ≢ []))
  with_version_iff none c = (λ e. cc, λ (e, n). cc)
  with_version_iff (some d) c = elim (Bool-cases (is_empty (strings.trim_space d.spec_version))) [
    | inl t ↦
        let blank = (is_empty_iff (strings.trim_space d.spec_version)).0 t in
        rw t (
          λ e. cc,
          λ (e, n).
              let same = some-injective _ _ (sym e) in
              absurd (subst (λ x. strings.trim_space x.spec_version ≢ []) same n blank),
        )
    | inr t ↦
        let given = (is_empty-eq-false_iff (strings.trim_space d.spec_version)).0 t in
        rw t (
          λ e.
              (e, subst (λ x. strings.trim_space x.spec_version ≢ []) (some-injective _ _ e) given),
          λ (e, n). e,
        )
  ]

  pub as_catalog_iff :
      (r : Response Url) (c : AiCatalog) → (as_catalog web r ≡ some c) ↔ IsCatalog r c
  unfolding as_catalog
  as_catalog_iff r c =
      let (ok_status, status_ok) = success_iff r in
      let (to, from) = with_version_iff (json.catalog r.body) c in
      elim (Bool-cases (success r)) [
        | inl t ↦ rw t (
          λ e. let (p, n) = to e in record { succeeds = ok_status t; parsed = p; some_version = n },
          λ i. from (i.parsed, i.some_version),
        )
        | inr t ↦
            rw t (
              λ e. cc,
              λ i. let k = status_ok i.succeeds in let k' : false ≡ true = sym t ∙ k in cc,
            )
      ]

  -- A page of HTML, by its content type.
  abbrev pub IsHtml : Response Url → Type 0
  IsHtml r =
      (media_type r.content_type ≡ some (codes "text/html"))
      ⊎ (media_type r.content_type ≡ some (codes "application/xhtml+xml"))

  -- What the references of a page resolve against: the href of its base element, if that is not
  -- empty and parses, or else its own address.
  pub data IsBase (r : Response Url) (href : Bytes) : Url → Type 0 where
    own : href ≡ [] → IsBase r href r.url
    unreadable : parse_in r.url href ≡ none → IsBase r href r.url
    element : (b : Url) → href ≢ [] → parse_in r.url href ≡ some b → IsBase r href b

  -- The address of a catalog, for the URL that was given and the response to it: what a Link header
  -- or a link element of a response with a status of success points to, or the well-known address
  -- at the host that was asked for, and at the one that was reached if it is another.
  pub data IsCandidate (start : Url) (reply : Option (Response Url)) (u : Url) : Type 0 where
    by_header :
        (r : Response Url) (target : Bytes)
        → reply ≡ some r
        → Succeeds r
        → Some (λ t. t ≡ target) (targets_with_rel strings r.link_headers (codes "ai-catalog"))
        → parse_in r.url target ≡ some u
        → IsCandidate start reply u
    by_element :
        (r : Response Url) (base : Url) (href : Bytes)
        → reply ≡ some r
        → Succeeds r
        → IsHtml r
        → IsBase r (find_html_links strings html r.body (codes "ai-catalog")).base base
        → Some (λ h. h ≡ href) (find_html_links strings html r.body (codes "ai-catalog")).hrefs
        → parse_in base href ≡ some u
        → IsCandidate start reply u
    well_known_at_start :
        u ≡ at_path start (codes "/.well-known/ai-catalog.json") → IsCandidate start reply u
    well_known_at_reached :
        (r : Response Url)
        → reply ≡ some r
        → (scheme r.url ≢ scheme start) ⊎ (host r.url ≢ host start)
        → u ≡ at_path r.url (codes "/.well-known/ai-catalog.json")
        → IsCandidate start reply u
