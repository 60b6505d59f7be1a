-- ===== src/Validate/Verify/Document/Requests.antt =====
-- What verification asks for over the network.
use ai_catalog_go.Prelude.{
  ok, ◌∙◌, arith, [], List, some, none, Option, inr, inl, sym, ℕ, All, any, length, >>=-eq-some,
  Bool-cases, ◌+◌, ◌≤◌, ◌∷◌, ◌≡◌,
}
use ai_catalog_go.Validate.Verify.Signer.Outcome.{
  check_signature-Course, Course, asked, refused, unsupported,
}
use ai_catalog_go.Validate.Verify.{
  accepted, EntryTrust, Status, RawEntry, ManifestTrust, Log, Fetch, Services,
}
use ai_catalog_go.Validate.Verify.Document.{
  verify, Verification, rest_bytes, head_bytes, check_if_accepted, verify_signed, base,
  verify_catalog_signature, verify_entries, verify_entry, verify_manifests, Options,
}
use ai_catalog_go.Text.{codes, Bytes}
use ai_catalog_go.Catalog.{AiCatalog, TrustManifest, CatalogEntry, Signature}
use ai_catalog_go.Identity.Labels.{IsPublisher}
use ai_catalog_go.Validate.Verify.Signer.{check_signature}
use ai_catalog_go.Validate.Verify.Artifact.{check_artifact}
use ai_catalog_go.Validate.Did.Address.{did_document_of}
use ai_catalog_go.Validate.Signature.{manifest_jws_type, catalog_jws_type}
use ai_catalog_go.Validate.Verify.Artifact.Content.{check_artifact_iff}
use mathlib.Core.Path.{subst}
use mathlib.Core.Option.{some-injective}
use ai_catalog_go.Validate.Verify.Document.Runs.{verify-Run}

module _ {Url Key : Type 0} (services : Services Url Key) (fetch : Fetch) (options : Options) where
  -- An address that may be requested: the DID document of a publisher's domain, or an artifact's
  -- location under https.
  pub data IsRequest : Bytes → Type 0 where
    did_document : (domain : Bytes) → IsPublisher domain → IsRequest (did_document_of domain)
    artifact : (l : Url) → services.scheme l ≡ codes "https" → IsRequest (services.url_text l)

  -- From one log to the next: at most so many requests, each of which may be made.
  record Within (n : ℕ) (log log' : Log) : Type 0 where
    pub allowed : All IsRequest log → All IsRequest log'
    pub at_most : length log' ≤ length log + n

  nothing_asked : (n : ℕ) (log : Log) → Within n log log
  nothing_asked n log = record { allowed = λ a. a; at_most = omega arith }

  one_asked : (log : Log) (a : Bytes) → IsRequest a → Within 1 log (a ∷ log)
  one_asked log a r = record { allowed = λ rest. (r, rest); at_most = omega arith }

  in_turn : (n m k : ℕ) (a b c : Log) → n + m ≤ k → Within n a b → Within m b c → Within k a c
  in_turn n m k a b c l f g = record {
    allowed = λ h. g.allowed (f.allowed h);
    at_most = let p = f.at_most in let q = g.at_most in omega arith;
  }

  Within-check_signature :
      (s : Signature) (typ document : Bytes) (log : Log)
      → Within 1 log (check_signature services options.now fetch s typ document log).1
  Within-check_signature s typ document log =
      on_course (check_signature services options.now fetch s typ document log)
        (check_signature-Course services options.now fetch s typ document log)
    where
      on_course :
          (r : Status × Log)
          → Course services options.now fetch s typ document log r
          → Within 1 log r.1
      on_course r (unsupported n) = nothing_asked 1 log
      on_course r (refused p n) = nothing_asked 1 log
      on_course r (asked h domain ready) =
          one_asked log (did_document_of domain) (did_document domain ready.is_publisher)

  Within-check_artifact :
      (entry : CatalogEntry) (content : Bytes) (log : Log)
      → Within 1 log
          (check_artifact services fetch (base services fetch options) entry content log).1
  Within-check_artifact entry content log =
      elim (check_artifact_iff services fetch (base services fetch options) entry content log).1 [
        | inl e ↦ subst (Within 1 log) (sym e) (nothing_asked 1 log)
        | inr (l, https, e) ↦
            subst (Within 1 log) (sym e) (one_asked log (services.url_text l) (artifact l https))
      ]

  Within-verify_signed :
      (entry : CatalogEntry) (i : ℕ) (m : TrustManifest) (raw : Bytes) (s : Option Signature)
      (log : Log)
      → Within 1 log (verify_signed services fetch options entry i m raw s log).1
  Within-verify_signed entry i m raw none log = nothing_asked 1 log
  Within-verify_signed entry i m raw (some s) log =
      Within-check_signature s manifest_jws_type raw log

  Within-verify_manifests :
      (entry : CatalogEntry) (i : ℕ) (ms : List TrustManifest) (raws : List Bytes) (log : Log)
      → Within (length ms) log (verify_manifests services fetch options entry i ms raws log).1
  unfolding verify_manifests
  Within-verify_manifests entry i [] raws log = nothing_asked 0 log
  Within-verify_manifests entry i (m ∷ ms) raws log =
      let log' =
        (verify_signed services fetch options entry i m (head_bytes raws) m.signature log).1 in
      in_turn 1 (length ms) (length (m ∷ ms)) log log' _ (omega arith)
        (Within-verify_signed entry i m (head_bytes raws) m.signature log)
        (Within-verify_manifests entry (i + 1) ms (rest_bytes raws) log')

  Within-check_if_accepted :
      (entry : CatalogEntry) (content : Bytes) (ms : List ManifestTrust) (log : Log)
      → Within 1 log (check_if_accepted services fetch options entry content ms log).1
  Within-check_if_accepted entry content ms log = elim (Bool-cases (any accepted ms)) [
    | inl t ↦ rw t (Within-check_artifact entry content log)
    | inr t ↦ rw t (nothing_asked 1 log)
  ]

  Within-verify_entry :
      (i : ℕ) (entry : CatalogEntry) (raw : RawEntry) (log : Log)
      → Within
          (length entry.trust_manifests + 1)
          log
          (verify_entry services fetch options i entry raw log).1
  unfolding verify_entry
  Within-verify_entry i entry raw log =
      let (ms, log') =
        verify_manifests services fetch options entry 0 entry.trust_manifests raw.trust_manifests
          log in
      in_turn (length entry.trust_manifests) 1 (length entry.trust_manifests + 1) log log' _
        (omega arith)
        (Within-verify_manifests entry 0 entry.trust_manifests raw.trust_manifests log)
        (Within-check_if_accepted entry raw.content ms log')

  -- One request for each trust manifest, and one for the artifact of each entry.
  abbrev pub requests_for : List CatalogEntry → ℕ
  requests_for [] = 0
  requests_for (e ∷ es) = (length e.trust_manifests + 1) + requests_for es

  Within-verify_entries :
      (i : ℕ) (es : List CatalogEntry) (raws : List RawEntry) (log : Log)
      (r : List EntryTrust × Log)
      → verify_entries services fetch options i es raws log ≡ some r
      → Within (requests_for es) log r.1
  unfolding verify_entries
  Within-verify_entries i [] raws log r e =
      subst (λ x. Within 0 log x.1) (some-injective _ _ e) (nothing_asked 0 log)
  Within-verify_entries i (x ∷ es) [] log r e = let k : none ≡ some r = e in cc
  Within-verify_entries i (x ∷ es) (raw ∷ raws) log r e =
      let log' = (verify_entry services fetch options i x raw log).1 in
      let (rest, found, same) =
        >>=-eq-some (verify_entries services fetch options (i + 1) es raws log') _ e in
      let tail = Within-verify_entries (i + 1) es raws log' rest found in
      subst (λ y. Within (requests_for (x ∷ es)) log y.1) (some-injective _ _ same)
        (in_turn (length x.trust_manifests + 1) (requests_for es) (requests_for (x ∷ es)) log log'
          rest.1 (omega arith) (Within-verify_entry i x raw log) tail)

  Within-verify_catalog_signature :
      (document : Bytes) (s : Option Signature) (log : Log)
      → Within 1 log (verify_catalog_signature services fetch options document s log).1
  Within-verify_catalog_signature document none log = nothing_asked 1 log
  Within-verify_catalog_signature document (some s) log =
      Within-check_signature s catalog_jws_type document log

  -- Where the document parses and `Verify` returns a result, it requested only the DID documents of
  -- valid publishers and https addresses, and at most one for the signature of the document, one for
  -- each trust manifest and one for each entry.
  pub verify-IsRequest :
      (document : Bytes) (c : AiCatalog) (v : Verification) (log : Log)
      → services.json.catalog document ≡ some c
      → verify services fetch options document ≡ ok (v, log)
      → All IsRequest log × (length log ≤ 1 + requests_for c.entries)
  verify-IsRequest document c v log parsed e =
      let run = verify-Run services fetch options document v log e in
      let same = some-injective _ _ (sym run.parsed ∙ parsed) in
      let signed = Within-verify_catalog_signature document run.catalog.signature [] in
      let rest =
        Within-verify_entries 0 run.catalog.entries run.raws _ (run.results, log) run.entries in
      let whole =
        in_turn 1 (requests_for run.catalog.entries) (1 + requests_for run.catalog.entries) _ _ _
          (omega arith) signed rest in
      let most : length log ≤ 1 + requests_for run.catalog.entries =
        let h = whole.at_most in omega arith in
      (whole.allowed tt, subst (λ d. length log ≤ 1 + requests_for d.entries) same most)
