-- ===== src/Discovery/Search/Run.antt =====
-- discovery/discovery.go: `Discover`, with `try` and `fail`, on the state of a search.
use ai_catalog_go.Prelude.{
  ok, err, [], List, some, none, Option, not, Bool, ℕ, Either, if◌then◌else◌, ◌+◌, ◌∷◌, ◌++◌,
}
use ai_catalog_go.Discovery.Search.{
  scheme_https, Discovered, request_key, parse_input, candidates_after, Tried, Candidate,
  DiscoverError, as_catalog, Discoverer, Method, Response, Exchange, Web, found, responded, skipped,
  stopped, not_found, cancelled, invalid_input, direct,
}
use ai_catalog_go.Text.{contains, text_eq, Bytes}
use ai_catalog_go.Catalog.{AiCatalog}

module _ {Url : Type 0} (web : Web Url) (fetch : List (Exchange Url) → Url → Option (Response Url))
    (done : ℕ → Bool) where
  open web use {scheme, strings, url_text}

  abbrev pub fail : Url → Method → Discoverer Url → Discoverer Url
  fail u method d = record d {
    attempts = d.attempts ++ (record { url = url_text u; method = method } ∷ []);
  }

  -- `ctx.Err`, asked once more
  abbrev pub ask : Discoverer Url → Discoverer Url
  ask d = record d { asked = d.asked + 1 }

  abbrev pub judge :
      Response Url → Method → Option AiCatalog → Discoverer Url → Tried Url × Discoverer Url
  judge r method none d = (responded r, fail r.url method d)
  judge r method (some c) d =
      (found (record { url = url_text r.url; method = method; catalog = c; raw = r.body }), d)

  abbrev pub receive :
      Url → Method → Option (Response Url) → Discoverer Url → Tried Url × Discoverer Url
  receive u method none d =
      if done d.asked then (stopped, ask d) else (skipped, fail u method (ask d))
  receive u method (some r) d = judge r method (as_catalog web r) d

  -- the state after a request
  abbrev pub request : Url → Discoverer Url → Discoverer Url
  request u d = record {
    requested = request_key web u ∷ d.requested;
    attempts = d.attempts;
    exchanges = record { url = u; reply = fetch d.exchanges u } ∷ d.exchanges;
    asked = d.asked;
  }

  unfoldable pub try : Url → Method → Discoverer Url → Tried Url × Discoverer Url
  unfolding as_catalog request_key contains
  try u method d =
      if done d.asked
      then (stopped, ask d)
      else if contains d.requested (request_key web u)
      then (skipped, ask d)
      else receive u method (fetch d.exchanges u) (request u (ask d))

  -- what a search comes to, and the state after it
  abbrev pub Searched : Type 0
  Searched = Option (Either DiscoverError Discovered) × Discoverer Url

  -- the part of the loop behind `try`
  abbrev pub go_on : (Discoverer Url → Searched) → Tried Url × Discoverer Url → Searched
  go_on next (stopped, d) = (some (err cancelled), d)
  go_on next (skipped, d) = next d
  go_on next (responded r, d) = next d
  go_on next (found r, d) = (some (ok r), d)

  -- the loop over the candidates; `none` where all of them were tried
  unfoldable pub try_candidates : List (Candidate Url) → Discoverer Url → Searched
  unfolding try
  try_candidates [] d = (none, d)
  try_candidates (c ∷ cs) d =
      if not (text_eq (scheme c.url) scheme_https)
      then try_candidates cs (fail c.url c.method d)
      else go_on (try_candidates cs) (try c.url c.method d)

  abbrev pub finish : Bytes → Searched → Either DiscoverError Discovered × Discoverer Url
  finish input (some r, d) = (r, d)
  finish input (none, d) = (err (not_found (strings.trim_space input) d.attempts), d)

  -- what follows the request for the URL that was given
  abbrev pub search_on : Url → Tried Url × Discoverer Url → Searched
  search_on start (stopped, d) = (some (err cancelled), d)
  search_on start (found r, d) = (some (ok r), d)
  search_on start (skipped, d) = try_candidates (candidates_after web start none) d
  search_on start (responded r, d) = try_candidates (candidates_after web start (some r)) d

  abbrev pub new_discoverer : Discoverer Url
  new_discoverer = record { requested = []; attempts = []; exchanges = []; asked = 0 }

  unfoldable pub search_from : Url → Searched
  unfolding try_candidates candidates_after
  search_from start = search_on start (try start direct new_discoverer)

  abbrev pub discover_from : Bytes → Option Url → Either DiscoverError Discovered × Discoverer Url
  discover_from input none = (err invalid_input, new_discoverer)
  discover_from input (some start) = finish input (search_from start)

  unfoldable pub discover : Bytes → Either DiscoverError Discovered × Discoverer Url
  unfolding search_from parse_input
  discover input = discover_from input (parse_input web input)
