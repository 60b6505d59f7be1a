-- ===== src/Discovery/Search/Rounds.antt =====
-- One call of `try`, and what every call keeps.
use ai_catalog_go.Prelude.{
  [], List, some, none, Option, false, true, Bool, inr, inl, refl, ℕ, Bool-cases, ◌+◌, ◌∷◌, ◌≡◌,
}
use ai_catalog_go.Discovery.Search.{
  candidates_after, as_catalog, request_key, Candidate, scheme_https, Tried, Discoverer, Method,
  Response, Exchange, Web, found, responded, skipped, stopped, direct,
}
use ai_catalog_go.Text.{text_eq_iff, text_eq, contains}
use ai_catalog_go.Catalog.{AiCatalog}
use ai_catalog_go.Discovery.Search.Run.{
  receive, search_on, judge, new_discoverer, go_on, fail, request, search_from, try_candidates,
  Searched, try, ask,
}

module _ {Url : Type 0} (web : Web Url) (fetch : List (Exchange Url) → Url → Option (Response Url))
    (done : ℕ → Bool) where
  open web use {scheme}

  -- What `try` did: nothing, as the context is done or the key was requested before, or a request
  -- with no response, a response that is no catalog, or a catalog.
  pub data Round (u : Url) (method : Method) (d : Discoverer Url)
      : Tried Url × Discoverer Url → Type 0 where
    halted : Round u method d (stopped, ask web fetch done d)
    repeated :
        contains d.requested (request_key web u) ≡ true
        → Round u method d (skipped, ask web fetch done d)
    interrupted :
        contains d.requested (request_key web u) ≡ false
        → fetch d.exchanges u ≡ none
        → Round u method d
            (stopped, ask web fetch done (request web fetch done u (ask web fetch done d)))
    lost :
        contains d.requested (request_key web u) ≡ false
        → fetch d.exchanges u ≡ none
        → Round u method d (
          skipped,
          fail web fetch done u method
              (ask web fetch done (request web fetch done u (ask web fetch done d))),
        )
    no_catalog :
        (r : Response Url)
        → contains d.requested (request_key web u) ≡ false
        → fetch d.exchanges u ≡ some r
        → as_catalog web r ≡ none
        → Round u method d (
          responded r,
          fail web fetch done r.url method (request web fetch done u (ask web fetch done d)),
        )
    hit :
        (r : Response Url) (c : AiCatalog)
        → contains d.requested (request_key web u) ≡ false
        → fetch d.exchanges u ≡ some r
        → as_catalog web r ≡ some c
        → Round u method d (
          found (record { url = web.url_text r.url; method = method; catalog = c; raw = r.body }),
          request web fetch done u (ask web fetch done d),
        )

  pub try-Round :
      (u : Url) (method : Method) (d : Discoverer Url)
      → Round u method d (try web fetch done u method d)
  unfolding try
  try-Round u method d = elim (Bool-cases (done d.asked)) [
    | inl t ↦ rw t halted
    | inr t ↦ elim (Bool-cases (contains d.requested (request_key web u))) [
      | inl s ↦ rw (t, s) (repeated s)
      | inr s ↦ rw (t, s) (received s (fetch d.exchanges u) refl)
    ]
  ]
    where
      asked : Discoverer Url
      asked = request web fetch done u (ask web fetch done d)

      judged :
          (r : Response Url)
          → contains d.requested (request_key web u) ≡ false
          → fetch d.exchanges u ≡ some r
          → (o : Option AiCatalog) → as_catalog web r ≡ o
          → Round u method d
              (judge web fetch done r method o (request web fetch done u (ask web fetch done d)))
      judged r s e none f = no_catalog r s e f
      judged r s e (some c) f = hit r c s e f

      received :
          contains d.requested (request_key web u) ≡ false
          → (o : Option (Response Url)) → fetch d.exchanges u ≡ o
          → Round u method d
              (receive web fetch done u method o (request web fetch done u (ask web fetch done d)))
      received s none e = elim (Bool-cases (done (d.asked + 1))) [
        | inl t ↦ rw t (interrupted s e)
        | inr t ↦ rw t (lost s e)
      ]
      received s (some r) e = judged r s e (as_catalog web r) refl

  -- A property of the state that a round cannot break: it is kept by asking the context, by noting an
  -- attempt, and by a request of an https URL whose key is new.
  pub record IsKept (P : Discoverer Url → Type 0) : Type 0 where
    pub asks : (d : Discoverer Url) → P d → P (ask web fetch done d)
    pub fails :
        (u : Url) (method : Method) (d : Discoverer Url) → P d → P (fail web fetch done u method d)
    pub requests :
        (u : Url) (d : Discoverer Url)
        → scheme u ≡ scheme_https
        → contains d.requested (request_key web u) ≡ false
        → P d
        → P (request web fetch done u d)

  module _ (P : Discoverer Url → Type 0) (kept : IsKept P) where
    kept_round :
        (u : Url) (method : Method) (d : Discoverer Url) (r : Tried Url × Discoverer Url)
        → scheme u ≡ scheme_https
        → P d
        → Round u method d r
        → P r.1
    kept_round u method d r https p halted = kept.asks d p
    kept_round u method d r https p (repeated s) = kept.asks d p
    kept_round u method d r https p (interrupted s e) =
        kept.asks _ (kept.requests u _ https s (kept.asks d p))
    kept_round u method d r https p (lost s e) =
        kept.fails u method _ (kept.asks _ (kept.requests u _ https s (kept.asks d p)))
    kept_round u method d r https p (no_catalog a s e f) =
        kept.fails a.url method _ (kept.requests u _ https s (kept.asks d p))
    kept_round u method d r https p (hit a c s e f) = kept.requests u _ https s (kept.asks d p)

    kept_on :
        (next : Discoverer Url → Searched web fetch done)
        → ((d : Discoverer Url) → P d → P (next d).1)
        → (r : Tried Url × Discoverer Url) → P r.1
        → P (go_on web fetch done next r).1
    kept_on next k (stopped, d) q = q
    kept_on next k (skipped, d) q = k d q
    kept_on next k (responded r, d) q = k d q
    kept_on next k (found r, d) q = q

    kept_candidates :
        (cs : List (Candidate Url)) (d : Discoverer Url)
        → P d
        → P (try_candidates web fetch done cs d).1
    unfolding try_candidates
    kept_candidates [] d p = p
    kept_candidates (c ∷ cs) d p = elim (Bool-cases (text_eq (scheme c.url) scheme_https)) [
      | inl t ↦
          let q =
            kept_round c.url c.method d (try web fetch done c.url c.method d)
              ((text_eq_iff (scheme c.url) scheme_https).0 t) p (try-Round c.url c.method d) in
          rw t (
            kept_on (try_candidates web fetch done cs) (kept_candidates cs)
              (try web fetch done c.url c.method d) q)
      | inr t ↦ rw t (kept_candidates cs _ (kept.fails c.url c.method d p))
    ]

    -- What every round keeps holds when the search ends.
    pub kept_search :
        (start : Url)
        → scheme start ≡ scheme_https
        → P (new_discoverer web fetch done)
        → P (search_from web fetch done start).1
    unfolding search_from
    kept_search start https p =
        searched (try web fetch done start direct (new_discoverer web fetch done)) (
          kept_round start direct _ _ https p
            (try-Round start direct (new_discoverer web fetch done)))
      where
        searched : (r : Tried Url × Discoverer Url) → P r.1 → P (search_on web fetch done start r).1
        searched (stopped, d) q = q
        searched (skipped, d) q = kept_candidates (candidates_after web start none) d q
        searched (responded r, d) q = kept_candidates (candidates_after web start (some r)) d q
        searched (found r, d) q = q
