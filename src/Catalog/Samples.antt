-- ===== src/Catalog/Samples.antt =====
-- Entries and catalogs for the tests.
use ai_catalog_go.Prelude.{[], List, some, none, ◌∷◌}
use ai_catalog_go.Catalog.Models.{AiCatalog, HostInfo, CatalogEntry}
use ai_catalog_go.Text.{codes}

abbrev pub blank : CatalogEntry
blank = record {
  identifier = [];
  display_name = [];
  type = [];
  url = [];
  content = [];
  version = [];
  description = [];
  tags = [];
  publisher = none;
  digest = [];
  trust_manifests = [];
  updated_at = [];
  extensions = [];
}

abbrev pub weather : CatalogEntry
weather = record blank {
  identifier = codes "urn:air:acme.com:weather";
  type = codes "application/mcp-server-card+json";
  url = codes "https://acme.com/w";
  version = codes "1.0.0";
  tags = codes "Forecast" ∷ codes "mcp" ∷ [];
  publisher = some (record {
    identifier = codes "did:web:acme.com";
    display_name = codes "Acme";
    identity_type = [];
  });
}

abbrev pub weather_2 : CatalogEntry
weather_2 = record weather { version = codes "2.0.0" }

abbrev pub finance : CatalogEntry
finance = record blank {
  identifier = codes "urn:air:acme.com:finance";
  type = codes "application/a2a-agent-card+json";
  url = codes "https://acme.com/f";
}

abbrev pub host : HostInfo
host = record {
  display_name = codes "Acme";
  identifier = [];
  documentation_url = [];
  logo_url = [];
}

abbrev pub catalog_of : List CatalogEntry → AiCatalog
catalog_of es = record {
  spec_version = codes "1.0";
  host = some host;
  entries = es;
  signature = none;
  additional_signatures = [];
  extensions = [];
}

abbrev pub sample : AiCatalog
sample = catalog_of (finance ∷ weather ∷ weather_2 ∷ [])
