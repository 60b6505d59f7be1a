-- ===== src/Discovery/Search.antt =====
-- discovery/discovery.go, and what it reads of a `Response` of discovery/fetcher.go: `Discover`.
-- The state of a search (Run) is passed on, with what was exchanged over the network and the number of
-- times that the context was asked whether it is done; `Fetch` may depend on what came before.
pub mod Run
pub mod Input
pub mod Rounds
pub mod Once
pub mod Catalogs
pub mod Listing
pub mod Asked
pub mod Candidates
pub mod Outcome
mod Tests
use ai_catalog_go.Prelude.{
  ok, err, map, [], List, some, none, Option, not, false, Bool, ℕ, is_empty, Either, leb, ltb,
  if◌then◌else◌, ◌&&◌, ◌||◌, ◌+◌, ◌∷◌, ◌++◌,
}
use ai_catalog_go.Catalog.Query.Laws.{done}
use ai_catalog_go.Validate.Codes.{spec_version}
use ai_catalog_go.Text.{contains, codes, text_eq, Bytes}
use ai_catalog_go.Discovery.Link.{targets_with_rel, Strings}
use ai_catalog_go.Catalog.Query.{contains_text}
use ai_catalog_go.Catalog.{AiCatalog}
use ai_catalog_go.Discovery.Html.{Html, find_html_links}
use ai_catalog_go.Json.{Json}

pub data Method : Type 0 where
  direct link_header html_link well_known : Method

pub record Response (Url : Type 0) : Type 0 where
  pub url : Url
  pub status_code : ℕ
  pub content_type : Bytes
  pub link_headers : List Bytes
  pub body : Bytes

pub record Candidate (Url : Type 0) : Type 0 where
  pub url : Url
  pub method : Method

-- An attempt, without the text of its reason.
pub record Attempt : Type 0 where
  pub url : Bytes
  pub method : Method

-- A `Result`, named for what is found.
pub record Discovered : Type 0 where
  pub url : Bytes
  pub method : Method
  pub catalog : AiCatalog
  pub raw : Bytes

pub data DiscoverError : Type 0 where
  invalid_input cancelled : DiscoverError
  not_found : Bytes → List Attempt → DiscoverError

-- A request and what came back.
pub record Exchange (Url : Type 0) : Type 0 where
  pub url : Url
  pub reply : Option (Response Url)

-- The packages that the search is built from.
pub record Web (Url : Type 0) : Type 0 where
  pub strings : Strings
  pub json : Json
  pub html : Html
  -- `mime.ParseMediaType`
  pub media_type : Bytes → Option Bytes
  -- net/url: `Parse`, the fields, the method `Parse`, `ResolveReference` for a path, and `String`
  pub parse_url : Bytes → Option Url
  pub scheme : Url → Bytes
  pub host : Url → Bytes
  pub hostname : Url → Bytes
  pub path : Url → Bytes
  pub with_path : Url → Bytes → Url
  pub without_fragment : Url → Url
  pub parse_in : Url → Bytes → Option Url
  pub at_path : Url → Bytes → Url
  pub url_text : Url → Bytes

abbrev pub link_relation : Bytes
link_relation = codes "ai-catalog"

abbrev pub well_known_path : Bytes
well_known_path = codes "/.well-known/ai-catalog.json"

abbrev pub scheme_https : Bytes
scheme_https = codes "https"

-- `map[string]bool`, the attempts, what was exchanged, and the times the context was asked.
pub record Discoverer (Url : Type 0) : Type 0 where
  pub requested : List Bytes
  pub attempts : List Attempt
  pub exchanges : List (Exchange Url)
  pub asked : ℕ

-- what `try` returns: an error, no response, a response without a catalog, or a result
pub data Tried (Url : Type 0) : Type 0 where
  stopped skipped : Tried Url
  responded : Response Url → Tried Url
  found : Discovered → Tried Url

unfoldable pub success : {Url : Type 0} → Response Url → Bool
success r = leb 200 r.status_code && ltb r.status_code 300

module _ {Url : Type 0} (web : Web Url) where
  open web use {
    strings, json, html, media_type, parse_url, scheme, host, hostname, path, with_path,
    without_fragment, parse_in, at_path, url_text,
  }

  unfoldable pub is_html : Response Url → Bool
  unfolding text_eq
  is_html r = elim (media_type r.content_type) [
    | none ↦ false
    | some t ↦ text_eq t (codes "text/html") || text_eq t (codes "application/xhtml+xml")
  ]

  -- https is assumed where no scheme is given
  abbrev pub with_scheme : Bytes → Bytes
  with_scheme s = if not (contains_text s (codes "://")) then codes "https://" ++ s else s

  abbrev pub spell_path : Url → Url
  spell_path u = if is_empty (path u) then with_path u (codes "/") else u

  abbrev pub check_input : Option Url → Option Url
  check_input none = none
  check_input (some u) =
      if not (text_eq (scheme u) scheme_https)
      then none
      else if is_empty (hostname u)
      then none
      else some (spell_path u)

  unfoldable pub parse_input : Bytes → Option Url
  unfolding contains_text
  parse_input input =
      let trimmed = strings.trim_space input in
      if is_empty trimmed then none else check_input (parse_url (with_scheme trimmed))

  unfoldable pub request_key : Url → Bytes
  request_key u = url_text (without_fragment u)

  unfoldable pub same_origin : Url → Url → Bool
  same_origin a b = text_eq (scheme a) (scheme b) && text_eq (host a) (host b)

  abbrev pub with_version : Option AiCatalog → Option AiCatalog
  with_version none = none
  with_version (some c) = if is_empty (strings.trim_space c.spec_version) then none else some c

  unfoldable pub as_catalog : Response Url → Option AiCatalog
  unfolding success
  as_catalog r = if not (success r) then none else with_version (json.catalog r.body)

  abbrev pub add_candidate : Method → Option Url → List (Candidate Url) → List (Candidate Url)
  add_candidate method none cs = cs
  add_candidate method (some u) cs = record { url = u; method = method } ∷ cs

  unfoldable pub candidates_in : Url → Method → List Bytes → List (Candidate Url)
  candidates_in base method [] = []
  candidates_in base method (target ∷ targets) =
      add_candidate method (parse_in base target) (candidates_in base method targets)

  abbrev pub or_base : Url → Option Url → Url
  or_base base none = base
  or_base base (some u) = u

  abbrev pub html_base : Url → Bytes → Url
  html_base base href = if is_empty href then base else or_base base (parse_in base href)

  unfoldable pub html_candidates : Response Url → List (Candidate Url)
  unfolding candidates_in
  html_candidates r =
      let links = find_html_links strings html r.body link_relation in
      candidates_in (html_base r.url links.base) html_link links.hrefs

  unfoldable pub link_candidates : Response Url → List (Candidate Url)
  unfolding html_candidates is_html
  link_candidates r =
      let targets = targets_with_rel strings r.link_headers link_relation in
      let candidates = candidates_in r.url link_header targets in
      if not (is_html r) then candidates else candidates ++ html_candidates r

  abbrev pub bases : Url → Option (Response Url) → List Url
  bases start none = start ∷ []
  bases start (some r) = if not (same_origin r.url start) then r.url ∷ start ∷ [] else start ∷ []

  abbrev pub linked : Option (Response Url) → List (Candidate Url)
  linked none = []
  linked (some r) = if success r then link_candidates r else []

  abbrev pub at_well_known : Url → Candidate Url
  at_well_known base = record { url = at_path base well_known_path; method = well_known }

  -- the URLs that are tried after the first, in order
  unfoldable pub candidates_after : Url → Option (Response Url) → List (Candidate Url)
  unfolding link_candidates same_origin
  candidates_after start reply = linked reply ++ map at_well_known (bases start reply)
