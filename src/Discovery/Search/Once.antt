-- ===== src/Discovery/Search/Once.antt =====
-- What a search requests.
-- No text of the list is equal to a later one.
use ai_catalog_go.Prelude.{
  map, [], List, some, none, Option, false, Bool, ap, sym, refl, ℕ, All, ◌∷◌, ◌≡◌,
}
use ai_catalog_go.Discovery.Search.{
  parse_input, Discoverer, scheme_https, request_key, Response, Exchange, Web,
}
use ai_catalog_go.Text.{contains, Bytes}
use ai_catalog_go.Discovery.Search.Rounds.{kept_search, IsKept}
use ai_catalog_go.Discovery.Search.Input.{parse_input_iff, input-https, PathKeepsScheme}
use mathlib.Core.Path.{subst}
use ai_catalog_go.Discovery.Search.Run.{
  search_from, discover_from, finish, discover, Searched, new_discoverer, request,
}

abbrev pub NoRepeats : List Bytes → Type 0
NoRepeats [] = Unit
NoRepeats (k ∷ ks) = (contains ks k ≡ false) × NoRepeats ks

module _ {Url : Type 0} (web : Web Url) (fetch : List (Exchange Url) → Url → Option (Response Url))
    (done : ℕ → Bool) where
  open web use {scheme}

  abbrev pub keys : List (Exchange Url) → List Bytes
  keys exchanges = map (λ x. request_key web x.url) exchanges

  -- Each request is of an https URL and is answered after those before it, and no URL is requested
  -- twice, fragments left aside.
  pub record IsCareful (exchanges : List (Exchange Url)) : Type 0 where
    pub https : All (λ x. scheme x.url ≡ scheme_https) exchanges
    pub once : NoRepeats (keys exchanges)

  record IsTracked (d : Discoverer Url) : Type 0 where
    pub same_keys : d.requested ≡ keys d.exchanges
    pub careful : IsCareful d.exchanges

  IsTracked-request :
      (u : Url) (d : Discoverer Url)
      → scheme u ≡ scheme_https
      → contains d.requested (request_key web u) ≡ false
      → IsTracked d
      → IsTracked (request web fetch done u d)
  IsTracked-request u d https new t = record {
    same_keys = ap (λ ks. request_key web u ∷ ks) t.same_keys;
    careful = record {
      https = (https, t.careful.https);
      once =
          (subst (λ ks. contains ks (request_key web u) ≡ false) t.same_keys new, t.careful.once);
    };
  }

  kept : IsKept web fetch done IsTracked
  kept = record {
    asks = λ d t. record { same_keys = t.same_keys; careful = t.careful };
    fails = λ u method d t. record { same_keys = t.same_keys; careful = t.careful };
    requests = IsTracked-request;
  }

  new-IsTracked : IsTracked (new_discoverer web fetch done)
  new-IsTracked = record { same_keys = refl; careful = record { https = tt; once = tt } }

  pub finish-state :
      (input : Bytes) (s : Searched web fetch done) → (finish web fetch done input s).1 ≡ s.1
  finish-state input (some r, d) = refl
  finish-state input (none, d) = refl

  -- Whatever the input, the responses and the context, `Discover` requests only https URLs, and none
  -- twice, fragments left aside; setting the path of a URL is taken to leave its scheme.
  pub discover-IsCareful :
      PathKeepsScheme web → (input : Bytes) → IsCareful (discover web fetch done input).1.exchanges
  unfolding discover
  discover-IsCareful keeps input = from_input (parse_input web input) refl
    where
      from_input :
          (o : Option Url)
          → parse_input web input ≡ o
          → IsCareful (discover_from web fetch done input o).1.exchanges
      from_input none e = new-IsTracked.careful
      from_input (some start) e =
          let https = input-https web keeps input start ((parse_input_iff web input start).0 e) in
          let t = kept_search web fetch done IsTracked kept start https new-IsTracked in
          subst (λ d. IsCareful d.exchanges)
            (sym (finish-state input (search_from web fetch done start))) t.careful
