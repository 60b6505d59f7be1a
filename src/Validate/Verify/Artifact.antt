-- ===== src/Validate/Verify/Artifact.antt =====
-- validate/verify.go: `checkArtifact`, with `artifactContent` and `resolve`.
pub mod Content
pub mod Fetching
use ai_catalog_go.Prelude.{ok, err, some, none, Option, not, is_empty, if◌then◌else◌, ◌∷◌}
use ai_catalog_go.Validate.Verify.{Log, Status, Fetch, Services, unverifiable, failed, verified}
use ai_catalog_go.Text.{codes, text_eq, Bytes}
use ai_catalog_go.Catalog.{CatalogEntry}
use ai_catalog_go.Trust.Digest.{verify_digest}
use ai_catalog_go.Trust.Canonical.{canonicalize}

module _ {Url Key : Type 0} (services : Services Url Key) where
  open services use {jcs, hashes, parse_url, scheme, url_text, resolve}

  -- an address that is parsed, against the base if there is one; `none` is an error
  abbrev pub resolve_parsed : Option Url → Option Url → Option Url
  resolve_parsed base none = none
  resolve_parsed (some base) (some parsed) = some (resolve base parsed)
  resolve_parsed none (some parsed) = if is_empty (scheme parsed) then none else some parsed

  unfoldable pub resolve_location : Option Url → Bytes → Option Url
  resolve_location base reference = resolve_parsed base (parse_url reference)

  -- `trust.VerifyDigest` on the content
  unfoldable pub check_content : Bytes → Bytes → Status
  check_content digest content = elim (verify_digest hashes digest content) [
    | err e ↦ failed
    | ok match ↦ if match then verified else failed
  ]

  abbrev pub check_fetched : Bytes → Option Bytes → Status
  check_fetched digest none = unverifiable
  check_fetched digest (some content) = check_content digest content

  abbrev pub check_canonical : Bytes → Option Bytes → Status
  check_canonical digest none = failed
  check_canonical digest (some canonical) = check_content digest canonical

  module _ (fetch : Fetch) (base : Option Url) where
    abbrev pub check_location : Bytes → Option Url → Log → Status × Log
    check_location digest none log = (failed, log)
    check_location digest (some location) log =
        if not (text_eq (scheme location) (codes "https"))
        then (unverifiable, log)
        else (check_fetched digest (fetch log (url_text location)), url_text location ∷ log)

    unfoldable pub check_artifact : CatalogEntry → Bytes → Log → Status × Log
    unfolding check_content resolve_location
    check_artifact entry content log =
        if not (is_empty content)
        then (check_canonical entry.digest (canonicalize jcs content), log)
        else check_location entry.digest (resolve_location base entry.url) log
