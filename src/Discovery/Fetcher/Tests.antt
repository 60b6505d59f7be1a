-- ===== src/Discovery/Fetcher/Tests.antt =====
-- The default fetcher with a concrete response.
use ai_catalog_go.Prelude.{[], some, false, true, refl, length, ◌≤◌, ◌↔◌, ◌≡◌}
use ai_catalog_go.Http.{HttpResponse}
use ai_catalog_go.Discovery.Fetcher.{max_body_bytes, response_of, http_fetch_page, check_redirect}
use ai_catalog_go.Text.{codes, Bytes}
use ai_catalog_go.Discovery.Fetcher.Limit.{http_fetch_page_iff}

abbrev served : HttpResponse Bytes
served = record {
  status_code = 200;
  url = codes "https://acme.com";
  content_type = [];
  link_headers = [];
  body = record { bytes = codes "{}"; fails = false };
}

redirect_tests :
    (check_redirect (codes "https") 9 ≡ true)
    × (check_redirect (codes "https") 10 ≡ false)
    × (check_redirect (codes "http") 1 ≡ false)
unfolding check_redirect
redirect_tests = (refl, refl, refl)

http_fetch_page_iff_example :
    (http_fetch_page (λ url. some served) (codes "u") ≡ some (response_of served (codes "{}"))) ↔ (
      (r : HttpResponse Bytes) × (some served ≡ some r)
      × (r.body.fails ≡ false)
      × (length r.body.bytes ≤ max_body_bytes)
      × (response_of served (codes "{}") ≡ response_of r r.body.bytes))
http_fetch_page_iff_example =
    http_fetch_page_iff (λ url. some served) (codes "u") (response_of served (codes "{}"))
