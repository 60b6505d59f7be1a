-- ===== src/Validate/Verify/Samples.antt =====
-- Stand-ins for the libraries, and a document that verifies with them.
use ai_catalog_go.Prelude.{
  [], List, some, none, true, is_empty, length, ltb, if◌then◌else◌, ◌∷◌, ◌++◌,
}
use ai_catalog_go.Text.{text_eq, codes, Bytes}
use ai_catalog_go.Catalog.{AiCatalog, CatalogEntry, TrustManifest, Signature}
use ai_catalog_go.Validate.Verify.{Fetch, Services, RawEntry}
use ai_catalog_go.Json.{Json}
use ai_catalog_go.Validate.Did.{DidDocument}
use ai_catalog_go.Validate.Verify.Document.{Options}
use ai_catalog_go.Validate.Samples.{
  stub_times, header_text_base64, stub_json, signed_entry, signed_manifest, signature,
}
use ai_catalog_go.Catalog.Samples.{catalog_of}

abbrev pub key_text : Bytes
key_text = codes "{key}"

abbrev pub document_text : Bytes
document_text = codes "catalog"

abbrev pub manifest_text : Bytes
manifest_text = codes "manifest"

-- 32 bytes, all zero, and 64 of them, in base64url
abbrev pub zeros_32 : Bytes
zeros_32 = codes "AAAAAAAAAAAAAAAAAAAAAAAAAAAAAAAAAAAAAAAAAAA"

abbrev pub zeros_64 : Bytes
zeros_64 =
    codes "AAAAAAAAAAAAAAAAAAAAAAAAAAAAAAAAAAAAAAAAAAAAAAAAAAAAAAAAAAAAAAAAAAAAAAAAAAAAAAAAAAAAAA"

abbrev pub full_signature : Signature
full_signature = record signature { jws = header_text_base64 ++ (codes ".." ++ zeros_64) }

abbrev pub full_manifest : TrustManifest
full_manifest = record signed_manifest { signature = some full_signature }

abbrev pub full_entry : CatalogEntry
full_entry = record signed_entry { trust_manifests = full_manifest ∷ [] }

abbrev pub full_catalog : AiCatalog
full_catalog = catalog_of (full_entry ∷ [])

abbrev pub raw_entry : RawEntry
raw_entry = record { content = []; trust_manifests = manifest_text ∷ [] }

-- The bytes that `digest_text` spells.
abbrev pub sum_bytes : Bytes
sum_bytes =
    1 ∷ 35 ∷ 69 ∷ 103 ∷ 137 ∷ 171 ∷ 205 ∷ 239 ∷ 1 ∷ 35 ∷ 69 ∷ 103 ∷ 137 ∷ 171 ∷ 205 ∷ 239 ∷ 1 ∷ 35
    ∷ 69 ∷ 103 ∷ 137 ∷ 171 ∷ 205 ∷ 239 ∷ 1 ∷ 35 ∷ 69 ∷ 103 ∷ 137 ∷ 171 ∷ 205 ∷ 239 ∷ []

abbrev pub key_members : List (Bytes × Bytes)
key_members =
    (codes "kty", codes "EC")
    ∷ (codes "crv", codes "P-256")
    ∷ (codes "x", zeros_32)
    ∷ (codes "y", zeros_32)
    ∷ []

abbrev pub verify_json : Json
verify_json = record stub_json {
  catalog = λ raw. if text_eq raw document_text then some full_catalog else none;
  object = λ raw. if text_eq raw key_text then some key_members else stub_json.object raw;
}

abbrev pub signer_document : DidDocument
signer_document = record {
  id = codes "did:web:acme.com";
  verification_method =
      record { id = codes "#k"; controller = codes "did:web:acme.com"; public_key_jwk = key_text }
      ∷ [];
  assertion_method = codes "did:web:acme.com#k" ∷ [];
}

abbrev pub services : Services Bytes Bytes
services = record {
  json = verify_json;
  did_json = record { document = λ raw. some signer_document; embedded = λ raw. none };
  raw_catalog = λ raw. some (raw_entry ∷ []);
  jcs = record {
    valid_utf8 = λ s. true;
    valid = λ s. true;
    transform = λ s. some s;
    marshal = λ ms. some [];
  };
  hashes = record { sha256 = λ s. sum_bytes; sha384 = λ s. s; sha512 = λ s. s };
  ecdsa = record {
    parse_key = λ point. some point;
    encode = λ r s. some (r ++ s);
    verify = λ key sum der. text_eq sum sum_bytes;
  };
  times = stub_times;
  parse_url = λ s. if is_empty s then none else some s;
  scheme = λ u. codes "https";
  url_text = λ u. u;
  resolve = λ base u. u;
}

-- A fetcher that answers while fewer than two requests were made.
abbrev pub fetch : Fetch
fetch log address = if ltb (length log) 2 then some address else none

abbrev pub options : Options
options = record { validated_at = 1; now = 1; max_depth = 4; operators = []; base_url = [] }
