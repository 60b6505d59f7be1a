-- ===== src/Provider/Laws.antt =====
-- What the default fetcher reads, and what the sources serve.
-- A response with the status 200 whose body does not fail before the limit.
use ai_catalog_go.Prelude.{
  arith, ltb_iff, ltb-eq-false_iff, ltb, ◌<◌, ◌⊎◌, ok, err, List, some, none, Option, false, true,
  inr, inl, ap, sym, refl, take, length, Either, Bool-cases, ==_iff, ◌∙◌, ◌==◌, ◌≤◌, ◌↔◌, ◌≡◌,
}
use ai_catalog_go.Catalog.Source.{
  Serves, parsed, SourceError, parse_text, fetch_catalog, read_catalog,
}
use ai_catalog_go.Provider.{
  as_raw_source, new_config, resolved, ProviderOption, resolve_read, raw, max_response_bytes,
  client_or, status_ok, json_source, web_source, new_resolved_source, ResolvedSource, load,
  http_fetch, read_response, Client,
}
use ai_catalog_go.Json.{Json}
use ai_catalog_go.Text.{Bytes}
use ai_catalog_go.Http.{
  length-take, take-all, length-take-le, read_limited_iff, read_limited, HttpResponse,
}
use ai_catalog_go.Catalog.{AiCatalog}
use mathlib.Core.Path.{subst}
use mathlib.Core.Option.{some-injective}

pub record IsFetched (client : Client) (url body : Bytes) : Type 0 where
  pub response : HttpResponse Bytes
  pub answered : client url ≡ some response
  pub status : response.status_code ≡ status_ok
  pub readable : response.body.fails ≡ true → max_response_bytes ≤ length response.body.bytes
  pub cut_off : body ≡ take max_response_bytes response.body.bytes

read_response_iff :
    (o : Option (HttpResponse Bytes)) (body : Bytes)
    → (read_response o ≡ some body) ↔ (
        (r : HttpResponse Bytes) × (o ≡ some r)
        × (r.status_code ≡ status_ok)
        × (read_limited max_response_bytes r.body ≡ some body))
unfolding read_response
read_response_iff none body = (λ e. cc, λ (r, e, s, f). cc)
read_response_iff (some r) body = elim (Bool-cases (r.status_code == status_ok)) [
  | inl t ↦ rw t (
    λ e. (r, refl, (==_iff r.status_code status_ok).0 t, e),
    λ (q, e, s, f).
        subst (λ x. read_limited max_response_bytes x.body ≡ some body) (some-injective _ _ (sym e))
          f,
  )
  | inr t ↦ rw t (
    λ e. cc,
    λ (q, e, s, f).
        let s' = subst (λ x. x.status_code ≡ status_ok) (some-injective _ _ (sym e)) s in
        let k = (==_iff r.status_code status_ok).1 s' in let k' : false ≡ true = sym t ∙ k in cc,
  )
]

-- The default fetcher returns exactly the first 10 MiB of a body served with the status 200, where no
-- error comes before that limit; a client that is nil is the default one.
pub http_fetch_iff :
    (default_client : Client) (client : Option Client) (url body : Bytes)
    → (http_fetch default_client client url ≡ some body)
      ↔ IsFetched (client_or default_client client) url body
unfolding http_fetch
http_fetch_iff default_client client url body =
    let (to, from) = read_response_iff (client_or default_client client url) body in
    (
      λ e.
          let (r, answered, status, read) = to e in
          let (readable, cut_off) = (read_limited_iff max_response_bytes r.body body).0 read in
          record {
            response = r;
            answered = answered;
            status = status;
            readable = readable;
            cut_off = cut_off;
          },
      λ i. from (
        i.response,
        i.answered,
        i.status,
        (read_limited_iff max_response_bytes i.response.body body).1 (i.readable, i.cut_off),
      ),
    )

-- A body that is the whole of a response of at most 10 MiB, or the first 10 MiB of a longer one.
abbrev pub IsWholeOrCut : HttpResponse Bytes → Bytes → Type 0
IsWholeOrCut r body =
    ((length r.body.bytes ≤ max_response_bytes) × (body ≡ r.body.bytes))
    ⊎ ((max_response_bytes < length r.body.bytes)
        × ((length body ≡ max_response_bytes) × (body ≡ take max_response_bytes r.body.bytes)))

-- What the default fetcher returns is the whole body of a response of at most 10 MiB, or the first
-- 10 MiB of a longer one, and it has no more than that.
pub http_fetch-bounded :
    (default_client : Client) (client : Option Client) (url body : Bytes)
    → http_fetch default_client client url ≡ some body
    → (length body ≤ max_response_bytes)
      × ((r : HttpResponse Bytes) × (client_or default_client client url ≡ some r)
          × IsWholeOrCut r body)
http_fetch-bounded default_client client url body e =
    let i = (http_fetch_iff default_client client url body).0 e in
    let bytes = i.response.body.bytes in
    (
      subst (λ b. length b ≤ max_response_bytes) (sym i.cut_off)
          (length-take-le max_response_bytes bytes),
      (
        i.response,
        i.answered,
        elim (Bool-cases (ltb max_response_bytes (length bytes))) [
          | inl t ↦
              let longer = (ltb_iff max_response_bytes (length bytes)).0 t in
              let full = length-take max_response_bytes bytes (omega (arith, longer)) in
              inr (longer, (ap length i.cut_off ∙ full, i.cut_off))
          | inr t ↦
              let fits = (ltb-eq-false_iff max_response_bytes (length bytes)).0 t in
              inl (fits, i.cut_off ∙ take-all max_response_bytes bytes fits)
        ],
      ),
    )

module _ (json : Json) where
  parse_text_iff :
      (document : Bytes) (c : AiCatalog)
      → (parse_text json document ≡ ok c) ↔ (json.catalog document ≡ some c)
  unfolding parse_text
  parse_text_iff document c = by_catalog (json.catalog document)
    where
      by_catalog : (o : Option AiCatalog) → (parsed json o ≡ ok c) ↔ (o ≡ some c)
      by_catalog none = (λ e. cc, λ e. cc)
      by_catalog (some d) = (
        λ e. let same : d ≡ c = cc in ap some same,
        λ e. let same : d ≡ c = some-injective _ _ e in ap ok same,
      )

  resolved-Serves :
      (document : Bytes) (c : AiCatalog)
      → parse_text json document ≡ ok c
      → Serves (as_raw_source json (record { document = document })) document c
  unfolding load raw
  resolved-Serves document c e = record {
    loads = e;
    raws = refl;
    load_cancelled = refl;
    raw_cancelled = refl;
  }

  -- A source that serves a document that parses.
  abbrev pub ServesDocument : ResolvedSource → Bytes → Type 0
  ServesDocument s document =
      (c : AiCatalog) × (json.catalog document ≡ some c) × Serves (as_raw_source json s) document c

  new_resolved_source-Serves :
      (document : Bytes) (s : ResolvedSource)
      → new_resolved_source json document ≡ ok s
      → ServesDocument s document
  unfolding new_resolved_source
  new_resolved_source-Serves document s e = by_parse (parse_text json document) refl e
    where
      by_parse :
          (r : Either SourceError AiCatalog)
          → parse_text json document ≡ r
          → resolved json document r ≡ ok s
          → ServesDocument s document
      by_parse (err x) p e = cc
      by_parse (ok c) p e =
          let same : record { document = document } ≡ s = cc in
          (
            c,
            (parse_text_iff document c).0 p,
            subst (λ x. Serves (as_raw_source json x) document c) same
                (resolved-Serves document c p),
          )

  resolve_read-Serves :
      (x : SourceError) (o : Option Bytes) (s : ResolvedSource)
      → resolve_read json x o ≡ ok s
      → (b : Bytes) × (o ≡ some b) × ServesDocument s b
  resolve_read-Serves x none s e = cc
  resolve_read-Serves x (some b) s e = (b, refl, new_resolved_source-Serves b s e)

  -- A source that `Web` returns serves the document that the configured fetcher read at the URL: the
  -- document parses, loading the source gives the catalog as often as wanted, and its raw bytes are
  -- those that were read.
  pub web_source-Serves :
      (default_client : Client) (url : Bytes) (os : List ProviderOption) (s : ResolvedSource)
      → web_source json default_client url os ≡ ok s
      → (document : Bytes) × ((new_config default_client os).fetcher url ≡ some document)
        × ServesDocument s document
  unfolding web_source
  web_source-Serves default_client url os s e =
      resolve_read-Serves fetch_catalog ((new_config default_client os).fetcher url) s e

  -- A source that `JSON` returns serves the document that was read from the file, which parses.
  pub json_source-Serves :
      (read_file : Bytes → Option Bytes) (path : Bytes) (s : ResolvedSource)
      → json_source json read_file path ≡ ok s
      → (document : Bytes) × (read_file path ≡ some document) × ServesDocument s document
  unfolding json_source
  json_source-Serves read_file path s e = resolve_read-Serves read_catalog (read_file path) s e
