-- ===== src/Validate/Samples.antt =====
-- Documents and stand-ins for the libraries, for the tests.
use ai_catalog_go.Prelude.{[], some, none, not, is_empty, length, if◌then◌else◌, ◌∷◌, ◌++◌}
use ai_catalog_go.Text.{text_eq, codes, Bytes}
use ai_catalog_go.Catalog.{media_type_catalog, TrustManifest, Signature, CatalogEntry, AiCatalog}
use ai_catalog_go.Json.{Json}
use ai_catalog_go.Catalog.Version.{Times}
use ai_catalog_go.Catalog.Samples.{weather_2, weather, finance, blank, catalog_of}
use ai_catalog_go.Validate.Signature.{manifest_jws_type}

abbrev pub header_text : Bytes
header_text = codes "{}"

abbrev pub header_text_base64 : Bytes
header_text_base64 = codes "e30"

-- A catalog with one entry and no host, which another one nests.
abbrev pub inner : AiCatalog
inner = record (catalog_of (finance ∷ [])) { host = none }

abbrev pub inner_text : Bytes
inner_text = codes "{inner}"

-- Two texts are read: the header of a manifest's signature and the inner catalog.
abbrev pub stub_json : Json
stub_json = record {
  catalog = λ raw. if text_eq raw inner_text then some inner else none;
  object = λ raw.
      if text_eq raw header_text
      then some (
          (codes "alg", codes "ES256")
          ∷ (codes "kid", codes "did:web:acme.com#k")
          ∷ (codes "typ", manifest_jws_type)
          ∷ [])
      else none;
  text = λ raw. some raw;
  is_string = λ raw. not (is_empty raw);
  texts = λ raw. none;
}

abbrev pub stub_times : Times
stub_times = record { parse = λ s. if is_empty s then none else some (length s); zero_time = 0 }

abbrev pub nesting : CatalogEntry
nesting = record blank {
  identifier = codes "urn:air:acme.com:more";
  type = media_type_catalog;
  content = inner_text;
}

abbrev pub outer : AiCatalog
outer = catalog_of (weather ∷ weather_2 ∷ nesting ∷ [])

abbrev pub signature : Signature
signature = record {
  signer = codes "did:web:acme.com";
  profile = codes "did-web-v1";
  issued_at = codes "1";
  expires_at = codes "22";
  jws = header_text_base64 ++ codes "..c2ln";
}

abbrev pub digest_text : Bytes
digest_text = codes "sha256:0123456789abcdef0123456789abcdef0123456789abcdef0123456789abcdef"

abbrev pub signed_manifest : TrustManifest
signed_manifest = record {
  contributor = codes "did:web:acme.com";
  subject = some (record {
    identifier = codes "urn:air:acme.com:signed";
    version = [];
    type = codes "application/json";
    digest = digest_text;
  });
  signature = some signature;
  additional_signatures = [];
  trust_schema = none;
  attestations = [];
  provenance = [];
  extensions = [];
  raw = [];
}

abbrev pub signed_entry : CatalogEntry
signed_entry = record blank {
  identifier = codes "urn:air:acme.com:signed";
  type = codes "application/json";
  url = codes "https://acme.com/s";
  digest = digest_text;
  trust_manifests = signed_manifest ∷ [];
}
