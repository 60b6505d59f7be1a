-- ===== src/Discovery/Search/Outcome.antt =====
-- What a search returns.
use ai_catalog_go.Prelude.{
  inr, inl, ap, ◌∷◌, ok, err, [], List, some, none, Option, Bool, sym, refl, ℕ, All, Either, ◌∙◌,
  ◌≡◌,
}
use ai_catalog_go.Discovery.Search.{
  scheme_https, Candidate, candidates_after, Attempt, Discovered, parse_input, DiscoverError, Tried,
  Discoverer, Response, Exchange, Web, not_found, cancelled, invalid_input, direct,
}
use ai_catalog_go.Discovery.Search.Rounds.{
  try-Round, Round, hit, no_catalog, lost, interrupted, repeated, halted,
}
use ai_catalog_go.Discovery.Search.Run.{
  request, ask, fail, search_on, discover_from, finish, new_discoverer, discover, search_from,
  Searched,
}
use ai_catalog_go.Text.{Bytes}
use ai_catalog_go.Discovery.Search.Candidates.{
  new-IsClean, candidates-Ended, Round-once, IsFirst, Ended, IsTried, Requested, AllWithout,
}
use mathlib.Core.Path.{subst}
use mathlib.Core.Option.{some-injective}
use ai_catalog_go.Discovery.Search.Catalogs.{IsCandidate}
use ai_catalog_go.Discovery.Search.Asked.{start_is_new, discover-IsAsked, IsAsked}
use ai_catalog_go.Discovery.Search.Listing.{IsCandidate-Listed, Listed}

module _ {Url : Type 0} (web : Web Url) (fetch : List (Exchange Url) → Url → Option (Response Url))
    (done : ℕ → Bool) where
  open web use {scheme, url_text}

  -- What the whole search comes to, for the response to the URL that was given.
  abbrev pub EndedFrom : Url → Searched web fetch done → Type 0
  EndedFrom start (none, d) =
      AllWithout web fetch done d.exchanges
      × Requested web fetch done d.exchanges start
      × All (IsTried web fetch done d) (candidates_after web start (fetch [] start))
  EndedFrom start (some (ok r), d) = IsFirst web fetch done r d.exchanges
  EndedFrom start (some (err e), d) = e ≡ cancelled

  after_start :
      (start : Url) (o : Option (Response Url)) (d : Discoverer Url)
      → fetch [] start ≡ o
      → Requested web fetch done d.exchanges start
      → (s : Searched web fetch done) → Ended web fetch done (candidates_after web start o) d s
      → EndedFrom start s
  after_start start o d e q (none, d') (a, g, ts) = (
    a,
    g start q,
    subst (λ x. All (IsTried web fetch done d') (candidates_after web start x)) (sym e) ts,
  )
  after_start start o d e q (some (ok r), d') t = t
  after_start start o d e q (some (err x), d') t = t

  from_start :
      (start : Url) (r : Tried Url × Discoverer Url)
      → Round web fetch done start direct (new_discoverer web fetch done) r
      → EndedFrom start (search_on web fetch done start r)
  from_start start r halted = refl
  from_start start r (repeated s) = absurd (start_is_new web fetch done start s)
  from_start start r (interrupted s e) = refl
  from_start start r (lost s e) =
      let first = new_discoverer web fetch done in
      let (a, g, q) =
        Round-once web fetch done start direct first r (new-IsClean web fetch done) (lost s e) in
      let d =
        fail web fetch done start direct
          (ask web fetch done (request web fetch done start (ask web fetch done first))) in
      after_start start none d e q _
        (candidates-Ended web fetch done (candidates_after web start none) d a)
  from_start start r (no_catalog p s e f) =
      let first = new_discoverer web fetch done in
      let (a, g, q) =
        Round-once web fetch done start direct first r (new-IsClean web fetch done)
          (no_catalog p s e f) in
      let d =
        fail web fetch done p.url direct
          (request web fetch done start (ask web fetch done first)) in
      after_start start (some p) d e q _
        (candidates-Ended web fetch done (candidates_after web start (some p)) d a)
  from_start start r (hit p c s e f) =
      Round-once web fetch done start direct (new_discoverer web fetch done) r
        (new-IsClean web fetch done) (hit p c s e f)

  search_from-ended : (start : Url) → EndedFrom start (search_from web fetch done start)
  unfolding search_from
  search_from-ended start =
      from_start start _ (try-Round web fetch done start direct (new_discoverer web fetch done))

  abbrev Requirement : Bytes → Either DiscoverError Discovered × Discoverer Url → Type 0
  Requirement input (ok r, d) = IsFirst web fetch done r d.exchanges
  Requirement input (err x, d) =
      (text : Bytes) (attempts : List Attempt) (start : Url)
      → x ≡ not_found text attempts
      → parse_input web input ≡ some start
      → (attempts ≡ d.attempts) × EndedFrom start (none, d)

  Requirement-finish :
      (input : Bytes) (start : Url)
      → parse_input web input ≡ some start
      → (s : Searched web fetch done) → EndedFrom start s
      → Requirement input (finish web fetch done input s)
  Requirement-finish input start p (some (ok r), d) e = e
  Requirement-finish input start p (some (err x), d) e =
      λ text attempts start' f q. let k : cancelled ≡ not_found text attempts = sym e ∙ f in cc
  Requirement-finish input start p (none, d) e = λ text attempts start' f q.
      (cc, subst (λ u. EndedFrom u (none, d)) (some-injective _ _ (sym p ∙ q)) e)

  discover-Requirement : (input : Bytes) → Requirement input (discover web fetch done input)
  unfolding discover
  discover-Requirement input = from_input (parse_input web input) refl
    where
      from_input :
          (o : Option Url)
          → parse_input web input ≡ o
          → Requirement input (discover_from web fetch done input o)
      from_input none e =
          λ text attempts start f q. let k : invalid_input ≡ not_found text attempts = f in cc
      from_input (some start) e =
          Requirement-finish input start e (search_from web fetch done start)
            (search_from-ended start)

  -- A catalog that `Discover` returns is the last response, with the bytes as they were served, and no
  -- response before it was a catalog.
  pub discover-IsFirst :
      (input : Bytes) (r : Discovered)
      → (discover web fetch done input).0 ≡ ok r
      → IsFirst web fetch done r (discover web fetch done input).1.exchanges
  discover-IsFirst input r e =
      of_result (discover web fetch done input) e (discover-Requirement input)
    where
      of_result :
          (s : Either DiscoverError Discovered × Discoverer Url)
          → s.0 ≡ ok r
          → Requirement input s
          → IsFirst web fetch done r s.1.exchanges
      of_result (ok x, d) e q =
          let same : x ≡ r = cc in subst (λ y. IsFirst web fetch done y d.exchanges) same q
      of_result (err x, d) e q = cc

  tried-Requested :
      (d : Discoverer Url) (u : Url) (cs : List (Candidate Url))
      → All (IsTried web fetch done d) cs
      → Listed web u cs
      → scheme u ≡ scheme_https
      → Requested web fetch done d.exchanges u
  tried-Requested d u [] ts l s = absurd l
  tried-Requested d u (c ∷ cs) (inl n, ts) (inl e) s = absurd (n (ap scheme e ∙ s))
  tried-Requested d u (c ∷ cs) (inr q, ts) (inl e) s =
      subst (Requested web fetch done d.exchanges) e q
  tried-Requested d u (c ∷ cs) (t, ts) (inr l) s = tried-Requested d u cs ts l s

  -- Where the input is accepted as a URL and `Discover` reports that it found nothing, the attempts
  -- are those of the search, and no response was a catalog: none succeeded with a body that parses and
  -- names a version. The given URL was requested, and so was every https URL where a catalog may stand:
  -- what a Link header, or a link element of an HTML page, of the first response points to, if that
  -- response succeeded, and the well-known address at the given origin and at the one that was reached.
  -- Nothing else was requested. URLs that differ by fragment alone count as one where the theorem says
  -- that one was requested.
  pub discover-exhausted :
      (input text : Bytes) (attempts : List Attempt) (start u : Url)
      → parse_input web input ≡ some start
      → (discover web fetch done input).0 ≡ err (not_found text attempts)
      → IsCandidate web start (fetch [] start) u
      → scheme u ≡ scheme_https
      → (attempts ≡ (discover web fetch done input).1.attempts)
        × AllWithout web fetch done (discover web fetch done input).1.exchanges
        × Requested web fetch done (discover web fetch done input).1.exchanges start
        × Requested web fetch done (discover web fetch done input).1.exchanges u
        × All (λ x. IsAsked web fetch done start x.url) (discover web fetch done input).1.exchanges
  discover-exhausted input text attempts start u p e c s =
      let (same, (a, q, ts)) =
        of_error (discover web fetch done input) e (discover-Requirement input) in
      let listed = IsCandidate-Listed web start (fetch [] start) u c in
      (
        same,
        a,
        q,
        tried-Requested (discover web fetch done input).1 u _ ts listed s,
        discover-IsAsked web fetch done input start p,
      )
    where
      of_error :
          (s : Either DiscoverError Discovered × Discoverer Url)
          → s.0 ≡ err (not_found text attempts)
          → Requirement input s
          → (attempts ≡ s.1.attempts) × EndedFrom start (none, s.1)
      of_error (ok x, d) e q = cc
      of_error (err x, d) e q =
          let f : x ≡ not_found text attempts = cc in q text attempts start f p
