-- ===== src/Discovery/Search/Tests.antt =====
-- Searches with concrete stand-ins, where a URL is its text.
use ai_catalog_go.Catalog.Query.{has_prefix}
use ai_catalog_go.Prelude.{
  All, arith, inl, ok, err, [], List, some, none, Option, false, true, Bool, refl, ℕ, if◌then◌else◌,
  ◌∷◌, ◌++◌, ◌≡◌,
}
use ai_catalog_go.Discovery.Search.{
  cancelled, parse_input, Attempt, Discovered, Exchange, Response, Web, not_found, well_known,
  link_header, direct,
}
use ai_catalog_go.Text.{cut, cut_prefix, text_eq, codes, Bytes}
use ai_catalog_go.Discovery.Link.{targets_with_rel, trim_left, take_until, Strings}
use ai_catalog_go.Discovery.Search.Once.{discover-IsCareful, IsCareful}
use ai_catalog_go.Validate.Samples.{inner, inner_text, stub_json}
use ai_catalog_go.Discovery.Search.Run.{discover}
use ai_catalog_go.Discovery.Search.Candidates.{Requested, AllWithout, IsFirst}
use ai_catalog_go.Discovery.Search.Outcome.{discover-exhausted, discover-IsFirst}
use ai_catalog_go.Discovery.Search.Catalogs.{IsCandidate, by_header}
use ai_catalog_go.Discovery.Search.Asked.{IsAsked}

abbrev page_url : Bytes
page_url = codes "https://acme.com"

abbrev catalog_url : Bytes
catalog_url = codes "https://acme.com/c"

abbrev strings : Strings
strings = record { lower = λ s. s; trim_space = λ s. s; fields = λ s. s ∷ [] }

abbrev web : Web Bytes
web = record {
  strings = strings;
  json = record stub_json { catalog = λ raw. if text_eq raw inner_text then some inner else none };
  html = record { tokens = λ body. []; equal_fold = text_eq };
  media_type = λ t. none;
  parse_url = λ s. some s;
  scheme = λ u. codes "https";
  host = λ u. u;
  hostname = λ u. u;
  path = λ u. u;
  with_path = λ u p. u;
  without_fragment = λ u. u;
  parse_in = λ base s. some s;
  at_path = λ base p. base ++ p;
  url_text = λ u. u;
}

abbrev page : Response Bytes
page = record {
  url = page_url;
  status_code = 200;
  content_type = [];
  link_headers = codes "<https://acme.com/c>; rel=ai-catalog" ∷ [];
  body = [];
}

abbrev catalog_page : Response Bytes
catalog_page = record page { url = catalog_url; link_headers = []; body = inner_text }

abbrev fetch : List (Exchange Bytes) → Bytes → Option (Response Bytes)
fetch before u =
    if text_eq u page_url
    then some page
    else if text_eq u catalog_url
    then some catalog_page
    else none

-- A fetcher that gets the page, and nothing that it links to.
abbrev fetch_page : List (Exchange Bytes) → Bytes → Option (Response Bytes)
fetch_page before u = if text_eq u page_url then some page else none

abbrev running : ℕ → Bool
running n = false

abbrev discovered : Discovered
discovered = record { url = catalog_url; method = link_header; catalog = inner; raw = inner_text }

abbrev tried : List Attempt
tried =
    record { url = page_url; method = direct }
    ∷ record { url = catalog_url; method = link_header }
    ∷ record { url = codes "https://acme.com/.well-known/ai-catalog.json"; method = well_known }
    ∷ []

found_test : (discover web fetch running page_url).0 ≡ ok discovered
unfolding discover has_prefix take_until parse_input trim_left text_eq targets_with_rel cut_prefix
    cut
found_test = refl

not_found_test : (discover web fetch_page running page_url).0 ≡ err (not_found page_url tried)
unfolding discover has_prefix take_until parse_input trim_left text_eq targets_with_rel cut_prefix
    cut
not_found_test = refl

linked_test : IsCandidate web page_url (fetch_page [] page_url) catalog_url
unfolding targets_with_rel take_until trim_left text_eq cut_prefix cut
linked_test = by_header page catalog_url refl (omega arith, omega arith) (inl refl) refl

input_test : parse_input web page_url ≡ some page_url
unfolding parse_input has_prefix text_eq
input_test = refl

cancelled_test : (discover web fetch (λ n. true) page_url).0 ≡ err cancelled
unfolding discover has_prefix
cancelled_test = refl

discover-IsFirst_example :
    IsFirst web fetch running discovered (discover web fetch running page_url).1.exchanges
discover-IsFirst_example = discover-IsFirst web fetch running page_url discovered found_test

discover-exhausted_example :
    (tried ≡ (discover web fetch_page running page_url).1.attempts)
    × AllWithout web fetch_page running (discover web fetch_page running page_url).1.exchanges
    × Requested web fetch_page running
        (discover web fetch_page running page_url).1.exchanges
        page_url
    × Requested web fetch_page running
        (discover web fetch_page running page_url).1.exchanges
        catalog_url
    × All
        (λ x. IsAsked web fetch_page running page_url x.url)
        (discover web fetch_page running page_url).1.exchanges
discover-exhausted_example =
    discover-exhausted web fetch_page running page_url page_url tried page_url catalog_url
      input_test not_found_test linked_test refl

discover-IsCareful_example :
    IsCareful web fetch running (discover web fetch running page_url).1.exchanges
discover-IsCareful_example = discover-IsCareful web fetch running (λ u p. refl) page_url
