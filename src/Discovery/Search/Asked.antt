-- ===== src/Discovery/Search/Asked.antt =====
-- Discovery asks for nothing but the URL that was given and the candidates.
use ai_catalog_go.Prelude.{
  sym, All-map, ap, ◌∙◌, ◌||◌, arith, map, [], List, some, none, Option, false, true, Bool, inr,
  inl, refl, ℕ, All-append, Some, All, is_empty-eq-false_iff, is_empty_iff, is_empty, Bool-cases,
  ◌∷◌, ◌⊎◌, ◌≡◌, ◌≢◌,
}
use ai_catalog_go.Discovery.Search.{
  parse_input, request_key, direct, add_candidate, link_relation, or_base, bases, success,
  html_base, scheme_https, Tried, at_well_known, linked, Discoverer, html_candidates, Candidate,
  Method, Exchange, candidates_after, same_origin, link_candidates, Response, is_html,
  candidates_in, Web, found, responded, skipped, stopped, html_link, link_header,
}
use ai_catalog_go.Discovery.Search.Catalogs.{
  unreadable, success_iff, Succeeds, IsBase, IsCandidate, IsHtml, well_known_at_reached,
  well_known_at_start, by_element, by_header, element, own,
}
use ai_catalog_go.Discovery.Search.Rounds.{
  try-Round, Round, hit, no_catalog, lost, interrupted, repeated, halted,
}
use ai_catalog_go.Text.{contains, codes, text_eq_iff, text_eq, Bytes}
use ai_catalog_go.Discovery.Search.Run.{
  search_from, search_on, discover, new_discoverer, fail, try, go_on, Searched, try_candidates,
}
use ai_catalog_go.Discovery.Link.{targets_with_rel}
use mathlib.Core.Path.{subst}
use ai_catalog_go.Discovery.Search.Once.{finish-state}

module _ {Url : Type 0} (web : Web Url) where
  open web use {strings, html, media_type, scheme, host, parse_in, at_path}

  add_candidate-All :
      (P : Url → Type 0) (method : Method) (o : Option Url) (cs : List (Candidate Url))
      → ((u : Url) → o ≡ some u → P u)
      → All (λ c. P c.url) cs
      → All (λ c. P c.url) (add_candidate web method o cs)
  add_candidate-All P method none cs k h = h
  add_candidate-All P method (some u) cs k h = (k u refl, h)

  candidates_in-All :
      (P : Url → Type 0) (base : Url) (method : Method) (targets : List Bytes)
      → ((t : Bytes) (u : Url) → Some (λ x. x ≡ t) targets → parse_in base t ≡ some u → P u)
      → All (λ c. P c.url) (candidates_in web base method targets)
  unfolding candidates_in
  candidates_in-All P base method [] k = tt
  candidates_in-All P base method (t ∷ ts) k =
      add_candidate-All P method (parse_in base t) _ (λ u e. k t u (inl refl) e)
        (candidates_in-All P base method ts (λ s u i e. k s u (inr i) e))

  is_html-IsHtml : (r : Response Url) → is_html web r ≡ true → IsHtml web r
  unfolding is_html
  is_html-IsHtml r = of_type (media_type r.content_type) refl
    where
      of_type :
          (o : Option Bytes) → media_type r.content_type ≡ o → is_html web r ≡ true → IsHtml web r
      of_type none e h = let k : false ≡ true = rw (e, is_html) at h in cc
      of_type (some t) e h =
          let k : (text_eq t (codes "text/html") || text_eq t (codes "application/xhtml+xml"))
              ≡ true =
            rw (e, is_html) at h in
          elim (Bool-cases (text_eq t (codes "text/html"))) [
            | inl y ↦ inl (e ∙ ap some ((text_eq_iff t (codes "text/html")).0 y))
            | inr n ↦
                let y : text_eq t (codes "application/xhtml+xml") ≡ true = ground arith in
                inr (e ∙ ap some ((text_eq_iff t (codes "application/xhtml+xml")).0 y))
          ]

  html_base-IsBase :
      (r : Response Url) (href : Bytes) → IsBase web r href (html_base web r.url href)
  html_base-IsBase r href = elim (Bool-cases (is_empty href)) [
    | inl t ↦ rw t (own ((is_empty_iff href).0 t))
    | inr t ↦ rw t (of_parsed ((is_empty-eq-false_iff href).0 t) (parse_in r.url href) refl)
  ]
    where
      of_parsed :
          href ≢ []
          → (o : Option Url) → parse_in r.url href ≡ o
          → IsBase web r href (or_base web r.url o)
      of_parsed n none e = unreadable e
      of_parsed n (some b) e = element b n e

  link_candidates-All :
      (start : Url) (r : Response Url)
      → Succeeds web r
      → All (λ c. IsCandidate web start (some r) c.url) (link_candidates web r)
  unfolding link_candidates html_candidates
  link_candidates-All start r s = elim (Bool-cases (is_html web r)) [
    | inl t ↦ rw t (
        All-append (λ c. IsCandidate web start (some r) c.url) _ _ by_headers
          (candidates_in-All (IsCandidate web start (some r)) (html_base web r.url _) html_link _
            (λ h u i e. by_element r _ h refl s (is_html-IsHtml r t) (html_base-IsBase r _) i e)))
    | inr t ↦ rw t by_headers
  ]
    where
      by_headers :
          All
            (λ c. IsCandidate web start (some r) c.url)
            (candidates_in web r.url link_header
              (targets_with_rel strings r.link_headers link_relation))
      by_headers =
          candidates_in-All (IsCandidate web start (some r)) r.url link_header _
            (λ t u i e. by_header r t refl s i e)

  linked-All :
      (start : Url) (reply : Option (Response Url))
      → All (λ c. IsCandidate web start reply c.url) (linked web reply)
  linked-All start none = tt
  linked-All start (some r) = elim (Bool-cases (success r)) [
    | inl t ↦ rw t (link_candidates-All start r ((success_iff web r).0 t))
    | inr t ↦ rw t tt
  ]

  same_origin-eq-false :
      (a b : Url) → same_origin web a b ≡ false → (scheme a ≢ scheme b) ⊎ (host a ≢ host b)
  unfolding same_origin
  same_origin-eq-false a b h = elim (Bool-cases (text_eq (scheme a) (scheme b))) [
    | inl t ↦ inr (λ e. let k = (text_eq_iff (host a) (host b)).1 e in ground arith)
    | inr t ↦ inl (λ e. let k = (text_eq_iff (scheme a) (scheme b)).1 e in ground arith)
  ]

  well_known-All :
      (start : Url) (reply : Option (Response Url))
      → All
          (λ c. IsCandidate web start reply c.url)
          (map (at_well_known web) (bases web start reply))
  well_known-All start none = (well_known_at_start refl, tt)
  well_known-All start (some r) = elim (Bool-cases (same_origin web r.url start)) [
    | inl t ↦ rw t (well_known_at_start refl, tt)
    | inr t ↦ rw t (
      well_known_at_reached r refl (same_origin-eq-false r.url start t) refl,
      (well_known_at_start refl, tt),
    )
  ]

  -- What is tried after the URL that was given is a candidate.
  pub candidates_after-All :
      (start : Url) (reply : Option (Response Url))
      → All (λ c. IsCandidate web start reply c.url) (candidates_after web start reply)
  unfolding candidates_after
  candidates_after-All start reply =
      All-append (λ c. IsCandidate web start reply c.url) _ _ (linked-All start reply)
        (well_known-All start reply)

  module _ (fetch : List (Exchange Url) → Url → Option (Response Url)) (done : ℕ → Bool)
      (Q : Url → Type 0) where
    abbrev Within : Discoverer Url → Type 0
    Within d = All (λ x. Q x.url) d.exchanges

    Round-Within :
        (u : Url) (method : Method) (d : Discoverer Url) (r : Tried Url × Discoverer Url)
        → Q u
        → Within d
        → Round web fetch done u method d r
        → Within r.1
    Round-Within u method d r q w halted = w
    Round-Within u method d r q w (repeated s) = w
    Round-Within u method d r q w (interrupted s e) = (q, w)
    Round-Within u method d r q w (lost s e) = (q, w)
    Round-Within u method d r q w (no_catalog p s e f) = (q, w)
    Round-Within u method d r q w (hit p c s e f) = (q, w)

    on-Within :
        (next : Discoverer Url → Searched web fetch done)
        → ((d : Discoverer Url) → Within d → Within (next d).1)
        → (r : Tried Url × Discoverer Url) → Within r.1
        → Within (go_on web fetch done next r).1
    on-Within next k (stopped, d) w = w
    on-Within next k (skipped, d) w = k d w
    on-Within next k (responded r, d) w = k d w
    on-Within next k (found r, d) w = w

    pub candidates-Within :
        (cs : List (Candidate Url)) (d : Discoverer Url)
        → All (λ c. Q c.url) cs
        → Within d
        → Within (try_candidates web fetch done cs d).1
    unfolding try_candidates
    candidates-Within [] d qs w = w
    candidates-Within (c ∷ cs) d (q, qs) w =
        elim (Bool-cases (text_eq (scheme c.url) scheme_https)) [
          | inl t ↦ rw t (
              on-Within (try_candidates web fetch done cs) (λ d' v. candidates-Within cs d' qs v)
                (try web fetch done c.url c.method d)
                (Round-Within c.url c.method d _ q w (try-Round web fetch done c.url c.method d)))
          | inr t ↦ rw t (candidates-Within cs (fail web fetch done c.url c.method d) qs w)
        ]

  module _ (fetch : List (Exchange Url) → Url → Option (Response Url)) (done : ℕ → Bool) where
    -- The URL that was given, or a candidate by the response to it.
    abbrev pub IsAsked : Url → Url → Type 0
    IsAsked start u = (u ≡ start) ⊎ IsCandidate web start (fetch [] start) u

    candidates-IsAsked :
        (start : Url) (reply : Option (Response Url))
        → fetch [] start ≡ reply
        → All (λ c. IsAsked start c.url) (candidates_after web start reply)
    candidates-IsAsked start reply e =
        All-map (λ c i. inr (subst (λ o. IsCandidate web start o c.url) (sym e) i))
          (candidates_after web start reply) (candidates_after-All start reply)

    pub start_is_new : (u : Url) → contains [] (request_key web u) ≢ true
    unfolding contains
    start_is_new u h = cc

    search_on-IsAsked :
        (start : Url) (r : Tried Url × Discoverer Url)
        → Round web fetch done start direct (new_discoverer web fetch done) r
        → All (λ x. IsAsked start x.url) (search_on web fetch done start r).1.exchanges
    search_on-IsAsked start r halted = tt
    search_on-IsAsked start r (repeated s) = absurd (start_is_new start s)
    search_on-IsAsked start r (interrupted s e) = (inl refl, tt)
    search_on-IsAsked start r (lost s e) =
        candidates-Within fetch done (IsAsked start) (candidates_after web start none) r.1
          (candidates-IsAsked start none e) (inl refl, tt)
    search_on-IsAsked start r (no_catalog p s e f) =
        candidates-Within fetch done (IsAsked start) (candidates_after web start (some p)) r.1
          (candidates-IsAsked start (some p) e) (inl refl, tt)
    search_on-IsAsked start r (hit p c s e f) = (inl refl, tt)

    pub discover-IsAsked :
        (input : Bytes) (start : Url)
        → parse_input web input ≡ some start
        → All (λ x. IsAsked start x.url) (discover web fetch done input).1.exchanges
    unfolding discover search_from
    discover-IsAsked input start p =
        let found_by = search_from web fetch done start in
        rw p (
          subst (λ d. All (λ x. IsAsked start x.url) d.exchanges)
            (sym (finish-state web fetch done input found_by))
            (search_on-IsAsked start _
              (try-Round web fetch done start direct (new_discoverer web fetch done))))
