-- ===== src/Validate/Verify/Document.antt =====
-- validate/verify.go: `Verify`, with `entry` and `manifest`.
pub mod Runs
pub mod Returns
pub mod Requests
pub mod Endorsed
pub mod Failing
pub mod Trusted
mod Tests
use ai_catalog_go.Prelude.{
  ok, err, is_empty, Either, [], List, some, none, Option, not, false, true, Bool, ℕ, any,
  if◌then◌else◌, ◌>>=◌, ◌&&◌, ◌||◌, ◌+◌, ◌∷◌,
}
use ai_catalog_go.Validate.Document.{
  validate, ConformanceLevel, Result, trusted, discoverable, minimal,
}
use ai_catalog_go.Text.{contains, Bytes}
use ai_catalog_go.Validate.Verify.{
  RawEntry, is_failed, release, manifest_failed, accepted, is_verified, Log, ManifestTrust, Fetch,
  EntryTrust, Status, Services,
}
use ai_catalog_go.Catalog.{AiCatalog, Signature, CatalogEntry, TrustManifest}
use ai_catalog_go.Validate.Verify.Signer.{check_signature}
use ai_catalog_go.Validate.Signature.{catalog_jws_type, manifest_jws_type}
use ai_catalog_go.Validate.Verify.Artifact.{check_artifact}
use ai_catalog_go.Validate.Profile.{is_publisher}

-- `Verify` returns the error of a document that does not parse; to read `raw.Entries[i]` out of
-- range would panic.
pub data VerifyError : Type 0 where
  parse_catalog out_of_range : VerifyError

pub record Verification : Type 0 where
  pub validation : Result
  pub conformance_level : ConformanceLevel
  pub catalog_signature : Option Status
  pub catalog_authorized : Bool
  pub entries : List EntryTrust

-- The options. The clock is read twice: by `Validate`, and then for the signatures.
pub record Options : Type 0 where
  pub validated_at : ℕ
  pub now : ℕ
  pub max_depth : ℕ
  pub operators : List Bytes
  pub base_url : Bytes

-- the bytes at the head of a list, `nil` at its end
abbrev pub head_bytes : List Bytes → Bytes
head_bytes [] = []
head_bytes (b ∷ bs) = b

abbrev pub rest_bytes : List Bytes → List Bytes
rest_bytes [] = []
rest_bytes (b ∷ bs) = bs

abbrev pub at_least_discoverable : ConformanceLevel → Bool
at_least_discoverable minimal = false
at_least_discoverable discoverable = true
at_least_discoverable trusted = true

-- the level that `Verify` reports
unfoldable pub verified_level : ConformanceLevel → List EntryTrust → ConformanceLevel
verified_level structural entries =
    if any (λ (e : EntryTrust). e.publisher_endorsed) entries
      && not (any (λ (e : EntryTrust). e.publisher_failed) entries)
      && at_least_discoverable structural
    then trusted
    else structural

module _ {Url Key : Type 0} (services : Services Url Key) (fetch : Fetch) (options : Options) where
  -- a base that does not parse is as good as none
  abbrev pub base : Option Url
  base = if is_empty options.base_url then none else services.parse_url options.base_url

  abbrev pub unsigned : ℕ → TrustManifest → ManifestTrust
  unsigned i m = record {
    index = i;
    contributor = m.contributor;
    signer = [];
    signature = none;
    release = none;
    publisher = false;
  }

  abbrev pub verify_signed :
      CatalogEntry → ℕ → TrustManifest → Bytes → Option Signature → Log → ManifestTrust × Log
  verify_signed entry i m raw none log = (unsigned i m, log)
  verify_signed entry i m raw (some s) log =
      let (status, log') = check_signature services options.now fetch s manifest_jws_type raw log in
      (
        record {
          index = i;
          contributor = m.contributor;
          signer = s.signer;
          signature = some status;
          release = some (release entry m s);
          publisher = is_publisher entry s.signer;
        },
        log',
      )

  -- `manifest`, for each manifest with the bytes at its place
  unfoldable pub verify_manifests :
      CatalogEntry → ℕ → List TrustManifest → List Bytes → Log → List ManifestTrust × Log
  verify_manifests entry i [] raws log = ([], log)
  verify_manifests entry i (m ∷ ms) raws log =
      let (result, log') = verify_signed entry i m (head_bytes raws) m.signature log in
      let (results, log'') = verify_manifests entry (i + 1) ms (rest_bytes raws) log' in
      (result ∷ results, log'')

  abbrev pub check_if_accepted :
      CatalogEntry → Bytes → List ManifestTrust → Log → Option Status × Log
  check_if_accepted entry content ms log =
      if any accepted ms
      then (let (status, log') = check_artifact services fetch base entry content log in
          (some status, log'))
      else (none, log)

  abbrev pub entry_trust : ℕ → CatalogEntry → List ManifestTrust → Option Status → EntryTrust
  entry_trust i entry ms artifact =
      let publisher_accepted = any (λ m. m.publisher && accepted m) ms in
      record {
        index = i;
        identifier = entry.identifier;
        manifests = ms;
        artifact = artifact;
        publisher_endorsed = publisher_accepted && is_verified artifact;
        publisher_failed =
            any (λ m. m.publisher && manifest_failed m) ms
            || publisher_accepted && is_failed artifact;
      }

  unfoldable pub verify_entry : ℕ → CatalogEntry → RawEntry → Log → EntryTrust × Log
  unfolding verify_manifests
  verify_entry i entry raw log =
      let (ms, log') = verify_manifests entry 0 entry.trust_manifests raw.trust_manifests log in
      let (artifact, log'') = check_if_accepted entry raw.content ms log' in
      (entry_trust i entry ms artifact, log'')

  -- the loop over the entries; `none` where the raw entries end first
  unfoldable pub verify_entries :
      ℕ → List CatalogEntry → List RawEntry → Log → Option (List EntryTrust × Log)
  unfolding verify_entry
  verify_entries i [] raws log = some ([], log)
  verify_entries i (e ∷ es) [] log = none
  verify_entries i (e ∷ es) (raw ∷ raws) log =
      let (result, log') = verify_entry i e raw log in
      verify_entries (i + 1) es raws log' >>= λ (results, log''). some (result ∷ results, log'')

  abbrev pub verify_catalog_signature : Bytes → Option Signature → Log → Option Status × Log
  verify_catalog_signature document none log = (none, log)
  verify_catalog_signature document (some s) log =
      let (status, log') =
        check_signature services options.now fetch s catalog_jws_type document log in
      (some status, log')

  abbrev pub authorized_operator : Option Signature → Option Status → Bool
  authorized_operator none status = false
  authorized_operator (some s) status = is_verified status && contains options.operators s.signer

  unfoldable pub verify_parsed : Bytes → AiCatalog → List RawEntry → Option (Verification × Log)
  unfolding verify_entries verified_level
  verify_parsed document c raws =
      let validation =
        validate services.json services.times options.validated_at options.max_depth c in
      let (status, log) = verify_catalog_signature document c.signature [] in
      verify_entries 0 c.entries raws log >>= λ (entries, log'). some (
        record {
          validation = validation;
          conformance_level = verified_level validation.conformance_level entries;
          catalog_signature = status;
          catalog_authorized = authorized_operator c.signature status;
          entries = entries;
        },
        log',
      )

  abbrev pub in_range : Option (Verification × Log) → Either VerifyError (Verification × Log)
  in_range none = err out_of_range
  in_range (some v) = ok v

  unfoldable pub verify : Bytes → Either VerifyError (Verification × Log)
  unfolding verify_parsed
  verify document = elim (services.json.catalog document) [
    | none ↦ err parse_catalog
    | some c ↦ elim (services.raw_catalog document) [
      | none ↦ err parse_catalog
      | some raws ↦ in_range (verify_parsed document c raws)
    ]
  ]
