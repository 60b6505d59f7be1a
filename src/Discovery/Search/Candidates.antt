-- ===== src/Discovery/Search/Candidates.antt =====
-- What the candidates of a search come to.
use ai_catalog_go.Prelude.{
  ap, Some, ok, err, [], List, some, none, Option, false, true, Bool, inr, inl, sym, refl, ℕ, All,
  Bool-cases, ◌∙◌, ◌∷◌, ◌⊎◌, ◌≡◌, ◌≢◌,
}
use ai_catalog_go.Discovery.Search.{
  Tried, scheme_https, request_key, Method, Candidate, Discoverer, Discovered, as_catalog, Response,
  Exchange, Web, found, responded, skipped, stopped, cancelled,
}
use ai_catalog_go.Discovery.Search.Rounds.{
  try-Round, Round, hit, no_catalog, lost, interrupted, repeated, halted,
}
use ai_catalog_go.Text.{contains_iff, text_eq_iff, text_eq, contains}
use ai_catalog_go.Discovery.Search.Run.{new_discoverer, fail, try, go_on, Searched, try_candidates}
use mathlib.Core.Path.{subst}
use ai_catalog_go.Catalog.{AiCatalog}
use ai_catalog_go.Discovery.Search.Catalogs.{as_catalog_iff, IsCatalog}
use ai_catalog_go.Discovery.Search.Once.{keys}

module _ {Url : Type 0} (web : Web Url) (fetch : List (Exchange Url) → Url → Option (Response Url))
    (done : ℕ → Bool) where
  open web use {scheme, url_text}

  -- No catalog came back: no response, or one that is no catalog.
  abbrev pub NoCatalog : Option (Response Url) → Type 0
  NoCatalog none = Unit
  NoCatalog (some r) = (c : AiCatalog) → ¬ IsCatalog web r c

  abbrev pub AllWithout : List (Exchange Url) → Type 0
  AllWithout exchanges = All (λ x. NoCatalog x.reply) exchanges

  -- The last response is the catalog that is returned, as it was served, and none came before.
  pub record IsFirst (result : Discovered) (exchanges : List (Exchange Url)) : Type 0 where
    pub last : Exchange Url
    pub before : List (Exchange Url)
    pub exchanged : exchanges ≡ last ∷ before
    pub response : Response Url
    pub replied : last.reply ≡ some response
    pub is_catalog : IsCatalog web response result.catalog
    pub served_at : result.url ≡ url_text response.url
    pub as_served : result.raw ≡ response.body
    pub none_before : AllWithout before

  -- A URL that was asked for, fragments left aside.
  abbrev pub Requested : List (Exchange Url) → Url → Type 0
  Requested exchanges u = Some (λ x. request_key web x.url ≡ request_key web u) exchanges

  abbrev pub Grows : Discoverer Url → Discoverer Url → Type 0
  Grows d d' = (u : Url) → Requested d.exchanges u → Requested d'.exchanges u

  -- The keys that are kept are those of the exchanges, and none of them brought a catalog.
  pub record IsClean (d : Discoverer Url) : Type 0 where
    pub same_keys : d.requested ≡ keys web fetch done d.exchanges
    pub without : AllWithout d.exchanges

  keys-Some :
      (exchanges : List (Exchange Url)) (u : Url)
      → Some (λ k. k ≡ request_key web u) (keys web fetch done exchanges)
      → Requested exchanges u
  keys-Some [] u s = absurd s
  keys-Some (x ∷ xs) u (inl e) = inl e
  keys-Some (x ∷ xs) u (inr s) = inr (keys-Some xs u s)

  marked-Requested :
      (d : Discoverer Url) (u : Url)
      → IsClean d
      → contains d.requested (request_key web u) ≡ true
      → Requested d.exchanges u
  marked-Requested d u i s = keys-Some d.exchanges u (
      (contains_iff (keys web fetch done d.exchanges) (request_key web u)).0
        (subst (λ ks. contains ks (request_key web u) ≡ true) i.same_keys s))

  pub new-IsClean : IsClean (new_discoverer web fetch done)
  new-IsClean = record { same_keys = refl; without = tt }

  with_exchange :
      (u : Url) (d d' : Discoverer Url)
      → d'.requested ≡ request_key web u ∷ d.requested
      → d'.exchanges ≡ record { url = u; reply = fetch d.exchanges u } ∷ d.exchanges
      → NoCatalog (fetch d.exchanges u)
      → IsClean d
      → IsClean d' × Grows d d' × Requested d'.exchanges u
  with_exchange u d d' k x n i = (
    record {
      same_keys =
          k ∙ ap (λ ks. request_key web u ∷ ks) i.same_keys ∙ ap (keys web fetch done) (sym x);
      without = subst AllWithout (sym x) (n, i.without);
    },
    (λ v s. subst (λ xs. Requested xs v) (sym x) (inr s)),
    subst (λ xs. Requested xs u) (sym x) (inl refl),
  )

  not_catalog : (r : Response Url) → as_catalog web r ≡ none → NoCatalog (some r)
  not_catalog r e c i = let k : none ≡ some c = sym e ∙ (as_catalog_iff web r c).1 i in cc

  -- A candidate that is not of https, or that was requested, fragments left aside.
  abbrev pub IsTried : Discoverer Url → Candidate Url → Type 0
  IsTried d c = scheme c.url ≢ scheme_https ⊎ Requested d.exchanges c.url

  -- What the search comes to after a list of candidates.
  abbrev pub Ended : List (Candidate Url) → Discoverer Url → Searched web fetch done → Type 0
  Ended cs d (none, d') = AllWithout d'.exchanges × Grows d d' × All (IsTried d') cs
  Ended cs d (some (ok r), d') = IsFirst r d'.exchanges
  Ended cs d (some (err e), d') = e ≡ cancelled

  -- What one round comes to.
  abbrev pub TriedOnce : Url → Discoverer Url → Tried Url × Discoverer Url → Type 0
  TriedOnce u d (stopped, d') = Unit
  TriedOnce u d (skipped, d') = IsClean d' × Grows d d' × Requested d'.exchanges u
  TriedOnce u d (responded r, d') = IsClean d' × Grows d d' × Requested d'.exchanges u
  TriedOnce u d (found r, d') = IsFirst r d'.exchanges

  pub Round-once :
      (u : Url) (method : Method) (d : Discoverer Url) (r : Tried Url × Discoverer Url)
      → IsClean d
      → Round web fetch done u method d r
      → TriedOnce u d r
  Round-once u method d r i halted = tt
  Round-once u method d r i (repeated s) = (
    record { same_keys = i.same_keys; without = i.without },
    (λ k h. h),
    marked-Requested d u i s,
  )
  Round-once u method d r i (interrupted s e) = tt
  Round-once u method d r i (lost s e) =
      with_exchange u d r.1 refl refl (subst NoCatalog (sym e) tt) i
  Round-once u method d r i (no_catalog p s e f) =
      with_exchange u d r.1 refl refl (subst NoCatalog (sym e) (not_catalog p f)) i
  Round-once u method d r i (hit p c s e f) = record {
    last = record { url = u; reply = fetch d.exchanges u };
    before = d.exchanges;
    exchanged = refl;
    response = p;
    replied = e;
    is_catalog = (as_catalog_iff web p c).0 f;
    served_at = refl;
    as_served = refl;
    none_before = i.without;
  }

  with_candidate :
      (c : Candidate Url) (cs : List (Candidate Url)) (d d' : Discoverer Url)
      → Grows d d'
      → Requested d'.exchanges c.url
      → (s : Searched web fetch done) → Ended cs d' s
      → Ended (c ∷ cs) d s
  with_candidate c cs d d' g q (none, d'') (a, h, ts) =
      (a, (λ k e. h k (g k e)), (inr (h c.url q), ts))
  with_candidate c cs d d' g q (some (ok r), d'') e = e
  with_candidate c cs d d' g q (some (err x), d'') e = e

  with_other :
      (c : Candidate Url) (cs : List (Candidate Url)) (d d' : Discoverer Url)
      → scheme c.url ≢ scheme_https
      → Grows d d'
      → (s : Searched web fetch done) → Ended cs d' s
      → Ended (c ∷ cs) d s
  with_other c cs d d' n g (none, d'') (a, h, ts) = (a, (λ k e. h k (g k e)), (inl n, ts))
  with_other c cs d d' n g (some (ok r), d'') e = e
  with_other c cs d d' n g (some (err x), d'') e = e

  Ended-on :
      (c : Candidate Url) (cs : List (Candidate Url)) (d : Discoverer Url)
      (next : Discoverer Url → Searched web fetch done)
      → ((d' : Discoverer Url) → IsClean d' → Ended cs d' (next d'))
      → (r : Tried Url × Discoverer Url) → TriedOnce c.url d r
      → Ended (c ∷ cs) d (go_on web fetch done next r)
  Ended-on c cs d next k (stopped, d') t = refl
  Ended-on c cs d next k (skipped, d') (a, g, q) = with_candidate c cs d d' g q (next d') (k d' a)
  Ended-on c cs d next k (responded r, d') (a, g, q) =
      with_candidate c cs d d' g q (next d') (k d' a)
  Ended-on c cs d next k (found r, d') t = t

  pub candidates-Ended :
      (cs : List (Candidate Url)) (d : Discoverer Url)
      → IsClean d
      → Ended cs d (try_candidates web fetch done cs d)
  unfolding try_candidates
  candidates-Ended [] d a = (a.without, (λ k h. h), tt)
  candidates-Ended (c ∷ cs) d a = elim (Bool-cases (text_eq (scheme c.url) scheme_https)) [
    | inl t ↦ rw t (
        Ended-on c cs d (try_candidates web fetch done cs) (candidates-Ended cs)
          (try web fetch done c.url c.method d)
          (Round-once c.url c.method d _ a (try-Round web fetch done c.url c.method d)))
    | inr t ↦
        let d' = fail web fetch done c.url c.method d in
        let other : scheme c.url ≢ scheme_https = λ e.
          let k = (text_eq_iff (scheme c.url) scheme_https).1 e in
          let k' : false ≡ true = sym t ∙ k in cc in
        rw t (
          with_other c cs d d' other (λ k h. h) (try_candidates web fetch done cs d')
            (candidates-Ended cs d' (record { same_keys = a.same_keys; without = a.without })))
  ]
