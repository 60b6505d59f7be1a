-- ===== src/Discovery/Fetcher.antt =====
-- discovery/fetcher.go: the default fetcher. (`Response` and what is read of it is in Search.)
pub mod Limit
mod Tests
use ai_catalog_go.Prelude.{
  some, none, Option, not, false, Bool, ℕ, length, leb, ltb, if◌then◌else◌, ◌*◌, ◌+◌,
}
use Prim.Native.Nat.{◌^◌}
use ai_catalog_go.Text.{Bytes, text_eq}
use ai_catalog_go.Http.{read_limited, HttpResponse}
use ai_catalog_go.Discovery.Search.{scheme_https, Response}

-- 10 MiB
abbrev pub max_body_bytes : ℕ
max_body_bytes = 10 * 2 ^ 20

abbrev pub max_redirects : ℕ
max_redirects = 10

-- `CheckRedirect` of the default client, for the scheme of the next URL and the number of requests
-- before it: whether the redirect is followed
unfoldable pub check_redirect : Bytes → ℕ → Bool
unfolding text_eq
check_redirect scheme via =
    if not (text_eq scheme scheme_https) then false else not (leb max_redirects via)

module _ {Url : Type 0} where
  abbrev pub response_of : HttpResponse Url → Bytes → Response Url
  response_of r body = record {
    url = r.url;
    status_code = r.status_code;
    content_type = r.content_type;
    link_headers = r.link_headers;
    body = body;
  }

  abbrev pub within_limit : HttpResponse Url → Option Bytes → Option (Response Url)
  within_limit r none = none
  within_limit r (some body) =
      if ltb max_body_bytes (length body) then none else some (response_of r body)

  abbrev pub read_body : Option (HttpResponse Url) → Option (Response Url)
  read_body none = none
  read_body (some r) = within_limit r (read_limited (max_body_bytes + 1) r.body)

  -- `Fetch`, for a client's GET request
  unfoldable pub http_fetch_page : (Url → Option (HttpResponse Url)) → Url → Option (Response Url)
  unfolding read_limited
  http_fetch_page client url = read_body (client url)
