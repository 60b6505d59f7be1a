-- ===== src/Provider/Tests.antt =====
-- Sources with a concrete client.
use ai_catalog_go.Prelude.{ok, err, [], some, none, false, refl, length, ◌≤◌, ◌∷◌, ◌≡◌}
use ai_catalog_go.Provider.{
  new_config, max_response_bytes, http_fetch, json_source, web_source, Client, with_http_client,
}
use ai_catalog_go.Catalog.Source.{parse_catalog, fetch_catalog}
use ai_catalog_go.Validate.Samples.{stub_json, inner_text}
use ai_catalog_go.Http.{HttpResponse, read_limited}
use ai_catalog_go.Text.{text_eq, codes, Bytes}
use ai_catalog_go.Provider.Laws.{
  IsWholeOrCut, web_source-Serves, http_fetch-bounded, ServesDocument,
}

abbrev stub_client : Client
stub_client url = some (record {
  status_code = 200;
  url = url;
  content_type = [];
  link_headers = [];
  body = record { bytes = url; fails = false };
})

web_test :
    (web_source stub_json stub_client inner_text [] ≡ ok (record { document = inner_text }))
    × (web_source stub_json stub_client (codes "x") [] ≡ err parse_catalog)
    × (web_source stub_json (λ url. none) inner_text [] ≡ err fetch_catalog)
    × (web_source stub_json (λ url. none) inner_text (with_http_client (some stub_client) ∷ [])
        ≡ ok (record { document = inner_text }))
unfolding web_source text_eq json_source read_limited
web_test = (refl, refl, refl, refl)

json_test :
    json_source stub_json (λ path. some path) inner_text ≡ ok (record { document = inner_text })
unfolding json_source text_eq
json_test = refl

fetch_test : http_fetch stub_client none inner_text ≡ some inner_text
unfolding http_fetch read_limited
fetch_test = refl

web_source-Serves_example :
    (document : Bytes) × ((new_config stub_client []).fetcher inner_text ≡ some document)
    × ServesDocument stub_json (record { document = inner_text }) document
unfolding web_source
web_source-Serves_example =
    web_source-Serves stub_json stub_client inner_text [] (record { document = inner_text })
      web_test.0

http_fetch-bounded_example :
    (length inner_text ≤ max_response_bytes)
    × ((r : HttpResponse Bytes) × (stub_client inner_text ≡ some r) × IsWholeOrCut r inner_text)
http_fetch-bounded_example = http_fetch-bounded stub_client none inner_text inner_text fetch_test
