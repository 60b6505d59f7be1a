-- ===== src/Lib.antt =====
-- The AI Catalog library: documents that list agents, servers and other catalogs, how they are
-- queried, how they are validated and verified, with their trust manifests and signature objects,
-- and how they are discovered and loaded.
--
-- The parts of the program and the files that model them:
--
-- * Catalog (catalog/models.go, catalog.go, entry.go, version.go): the document. Catalog/Models has
--   the records; Catalog/Entry `IsNestedCatalog` and `ResolveDisplayName`; Catalog/Query `GetByID`,
--   `GetByType`, `GetByTag`, `GetByPublisher`, `Search` and `SearchByRegex`; Catalog/Version
--   `Versions`, `GetByIDAndVersion` and `GetLatest`, with the order of entries that it keeps to
--   described in Order.
-- * Identity (internal/identity/identity.go): publishers and root did:web DIDs.
-- * Trust/Digest (trust/trust.go): digests "algorithm:hex" and their verification.
-- * Trust/Es256 (trust/es256.go): `VerifyES256`, and `ParseES256Key` in Trust/Es256/Key.
-- * Trust/Canonical (trust/canonical.go): `Canonicalize`, `CanonicalizeForSignature` and, in
--   Manifest, `CanonicalizeTrustManifest`: the payload that a signature covers. Of the JSON decoder
--   it takes the value that it passes to `UnmarshalJSON`.
-- * Jws (internal/jws/jws.go): the protected header of a signature, and its detached form.
-- * Validate (validate/validate.go, manifest.go, signature.go, profile.go, codes.go): the
--   conformance of a document. A method of the validator that reports diagnostics is a function on
--   the validator's state (Validate/Report), and a sequence of statements is a `do` block.
--   Validate/Document has `Validate` and the walk over nested catalogs, Validate/Entries the
--   uniqueness of entries, Validate/Keys extension keys and URIs, Validate/SpecVersion the version,
--   Validate/Signature signature objects, Validate/Profile the did:web profile and Validate/Manifest
--   trust manifests. Each rule is a predicate on the document that does not speak of the code, in
--   the modules Rule, Subjects, Trust, Unique, Uris and Document/Walk; Validate/Report/Enforces says
--   what it is for a check to enforce one.
-- * Validate/Did (validate/did.go): the address of a signer's DID document, and the key it gives.
-- * Validate/Verify (validate/verify.go): `Verify`. Signer has `checkSignature`, Artifact
--   `checkArtifact`, Release `release` against a description, and Document the walk over the
--   entries. What is requested is kept in a log that is passed on, and the fetcher may answer by the
--   requests before; an `Outcome` is its status, without the text of its reason.
-- * Validate/Source (validate/source.go), Catalog/Source (catalog/source.go, and the parsers of
--   catalog/catalog.go) and Provider (provider/provider.go): sources of documents, the interface
--   that they promise to keep, and the sources for a file and for an HTTP endpoint.
-- * Discovery/Search (discovery/discovery.go): `Discover`. The state of a search (Run), with what
--   was exchanged over the network, is passed on; the context is a function of the number of times it
--   was asked. Catalogs describes what a catalog is and where one may stand. Discovery/Html
--   (discovery/html.go) has the links of HTML tokens, with what an element points to described in
--   Links; Discovery/Fetcher (discovery/fetcher.go) the default fetcher, and Http what is read of an
--   HTTP response.
-- * Discovery/Link (discovery/link.go): the links of a Link header field, from `targetsWithRel` down
--   to the value of a parameter.
-- * Text, Regex and Base64 model what the code uses of Go's strings, regexp and base64: texts are
--   lists of bytes, and the regular expressions are matched by derivatives. Prelude holds what the
--   modules share.
--
-- Validation calls the header parser, digests, identities and the catalog's own operations, as
-- the code does; verification calls validation, the DID and key readers, the canonical payload,
-- `VerifyES256` and digests; discovery calls the link parsers and the catalog parser. Parameters
-- stand for encoding/json (Json, Validate/Did), the JSON canonicalizer (Trust/Canonical), the parser
-- of timestamps and the package semver (Catalog/Version), the hash functions (Trust/Digest), ECDSA
-- and ASN.1 (Trust/Es256), `strings.ToLower` and the engine of regular expressions that a user
-- gives (Catalog/Query), the functions of the package strings that read Unicode (Discovery/Link,
-- Discovery/Html), the HTML tokenizer, net/url, mime and HTTP clients (Discovery, Provider).
-- The clock and the maximal nesting depth, options of `Validate`, are arguments; the depth is a
-- natural number. Verification reads the clock twice, as the code does, so it has two of them.
--
-- Bounds and fuel: nested catalogs are visited by recursion on fuel, at most as deep as the
-- maximal depth that the code checks, which is the fuel that `validate` starts with. The loops
-- over a Link header start with one more unit of fuel than the text has bytes, and each round
-- consumes some. The numbers of a version are read as 64-bit integers, and the bodies of HTTP
-- responses up to 10 MiB, as in the code. No other definition has a bound of its own.
--
-- Not modelled: the texts of messages, reasons and errors; JSON encoding and the writing of
-- catalogs; timeouts and a context that ends during a request of a provider or of verification; and the
-- example and test helpers.
pub mod Prelude
pub mod Text
pub mod Regex
pub mod Base64
pub mod Json
pub mod Jws
pub mod Identity
pub mod Trust
pub mod Catalog
pub mod Validate
pub mod Http
pub mod Provider
pub mod Discovery
