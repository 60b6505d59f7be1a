-- ===== src/Provider.antt =====
-- provider/provider.go: the sources that read a local file or an HTTP endpoint.
pub mod Laws
mod Tests
use ai_catalog_go.Prelude.{
  ok, err, [], List, some, none, Option, not, Bool, ℕ, Either, if◌then◌else◌, ◌==◌, ◌*◌, ◌∷◌,
}
use Prim.Native.Nat.{◌^◌}
use ai_catalog_go.Catalog.Source.{
  RawSource, parse_text, SourceError, fetch_catalog, read_catalog, context_done,
}
use ai_catalog_go.Text.{Bytes}
use ai_catalog_go.Http.{read_limited, HttpResponse}
use ai_catalog_go.Json.{Json}
use ai_catalog_go.Catalog.{AiCatalog}

-- 10 MiB
abbrev pub max_response_bytes : ℕ
max_response_bytes = 10 * 2 ^ 20

abbrev pub status_ok : ℕ
status_ok = 200

-- A `Fetcher`, for a context that stays as it is, and an `http.Client`: a GET request, with `none`
-- where the request cannot be made or gets no response.
abbrev pub Fetcher : Type 0
Fetcher = Bytes → Option Bytes

abbrev pub Client : Type 0
Client = Bytes → Option (HttpResponse Bytes)

pub record Config : Type 0 where
  pub fetcher : Fetcher

-- A `resolvedSource`: the document as served.
pub record ResolvedSource : Type 0 where
  pub document : Bytes

-- `Fetch` of the default fetcher; a client that is nil is the default one
abbrev pub client_or : Client → Option Client → Client
client_or default_client none = default_client
client_or default_client (some c) = c

unfoldable pub read_response : Option (HttpResponse Bytes) → Option Bytes
read_response none = none
read_response (some r) =
    if not (r.status_code == status_ok) then none else read_limited max_response_bytes r.body

unfoldable pub http_fetch : Client → Option Client → Fetcher
unfolding read_response
http_fetch default_client client url = read_response (client_or default_client client url)

-- `WithFetcher` and `WithHTTPClient`; nil sets nothing, or the default client
pub data ProviderOption : Type 0 where
  with_fetcher : Option Fetcher → ProviderOption
  with_http_client : Option Client → ProviderOption

abbrev pub set_fetcher : Option Fetcher → Config → Config
set_fetcher none c = c
set_fetcher (some f) c = record { fetcher = f }

module _ (default_client : Client) where
  abbrev pub apply_option : ProviderOption → Config → Config
  apply_option (with_fetcher f) c = set_fetcher f c
  apply_option (with_http_client client) c = set_fetcher (some (http_fetch default_client client)) c

  -- the options in order, on the default configuration
  unfoldable pub apply_options : List ProviderOption → Config → Config
  apply_options [] c = c
  apply_options (o ∷ os) c = apply_options os (apply_option o c)

  unfoldable pub new_config : List ProviderOption → Config
  unfolding apply_options http_fetch
  new_config os = apply_options os (record { fetcher = http_fetch default_client none })

module _ (json : Json) where
  abbrev pub resolved : Bytes → Either SourceError AiCatalog → Either SourceError ResolvedSource
  resolved document (err e) = err e
  resolved document (ok c) = ok (record { document = document })

  unfoldable pub new_resolved_source : Bytes → Either SourceError ResolvedSource
  unfolding parse_text
  new_resolved_source document = resolved document (parse_text json document)

  unfoldable pub load : ResolvedSource → Bool → Either SourceError AiCatalog
  unfolding parse_text
  load s is_done = if is_done then err context_done else parse_text json s.document

  unfoldable pub raw : ResolvedSource → Bool → Either SourceError Bytes
  raw s is_done = if is_done then err context_done else ok s.document

  -- a `resolvedSource` as the interface
  abbrev pub as_raw_source : ResolvedSource → RawSource
  as_raw_source s = record { source = record { load = load s }; raw = raw s }

  abbrev pub resolve_read : SourceError → Option Bytes → Either SourceError ResolvedSource
  resolve_read e none = err e
  resolve_read e (some document) = new_resolved_source document

  -- the provider `JSON`, for the function that reads a file
  unfoldable pub json_source : (Bytes → Option Bytes) → Bytes → Either SourceError ResolvedSource
  unfolding new_resolved_source
  json_source read_file path = resolve_read read_catalog (read_file path)

  -- the provider `Web`
  unfoldable pub web_source :
      Client → Bytes → List ProviderOption → Either SourceError ResolvedSource
  unfolding new_resolved_source new_config
  web_source default_client url os =
      resolve_read fetch_catalog ((new_config default_client os).fetcher url)
