-- ===== src/Validate/Verify/Document/Returns.antt =====
-- For which documents a verification returns a result.
use ai_catalog_go.Prelude.{
  ok, arith, [], List, some, none, refl, ℕ, length, >>=-eq-some, ◌+◌, ◌≤◌, ◌∷◌, ◌↔◌, ◌≡◌,
}
use ai_catalog_go.Validate.Verify.{EntryTrust, Log, RawEntry, Fetch, Services}
use ai_catalog_go.Validate.Verify.Document.{
  verify_catalog_signature, verify_entry, verify, Verification, verify_entries, Options,
}
use ai_catalog_go.Text.{Bytes}
use ai_catalog_go.Catalog.{AiCatalog, CatalogEntry}
use ai_catalog_go.Validate.Verify.Document.Runs.{verify-report, report, verify-Run}

module _ {Url Key : Type 0} (services : Services Url Key) (fetch : Fetch) (options : Options) where
  verify_entries-some :
      (i : ℕ) (es : List CatalogEntry) (raws : List RawEntry) (log : Log)
      → length es ≤ length raws
      → (r : List EntryTrust × Log) × (verify_entries services fetch options i es raws log ≡ some r)
  unfolding verify_entries
  verify_entries-some i [] raws log h = (([], log), refl)
  verify_entries-some i (e ∷ es) [] log h = absurd (omega (arith, h))
  verify_entries-some i (e ∷ es) (raw ∷ raws) log h =
      let (trust, log') = verify_entry services fetch options i e raw log in
      let (r, same) = verify_entries-some (i + 1) es raws log' (omega (arith, h)) in
      ((trust ∷ r.0, r.1), rw same refl)

  verify_entries-length :
      (i : ℕ) (es : List CatalogEntry) (raws : List RawEntry) (log : Log)
      (r : List EntryTrust × Log)
      → verify_entries services fetch options i es raws log ≡ some r
      → length es ≤ length raws
  unfolding verify_entries
  verify_entries-length i [] raws log r e = omega arith
  verify_entries-length i (x ∷ es) [] log r e = let k : none ≡ some r = e in cc
  verify_entries-length i (x ∷ es) (raw ∷ raws) log r e =
      let log' = (verify_entry services fetch options i x raw log).1 in
      let (rest, came, _) =
        >>=-eq-some (verify_entries services fetch options (i + 1) es raws log') _ e in
      let h = verify_entries-length (i + 1) es raws log' rest came in omega (arith, h)

  -- A document that parses, with a raw entry for every entry.
  pub record IsReadable (document : Bytes) : Type 0 where
    pub catalog : AiCatalog
    pub raws : List RawEntry
    pub parsed : services.json.catalog document ≡ some catalog
    pub raw_parsed : services.raw_catalog document ≡ some raws
    pub enough : length catalog.entries ≤ length raws

  -- `Verify` returns a result, whatever the fetcher answers, exactly for a document that parses both
  -- ways and has a raw entry for every entry.
  pub verify-returns_iff :
      (document : Bytes)
      → ((v : Verification) × (log : Log) × (verify services fetch options document ≡ ok (v, log)))
        ↔ IsReadable document
  verify-returns_iff document = (
    λ (v, log, e).
        let run = verify-Run services fetch options document v log e in
        record {
          catalog = run.catalog;
          raws = run.raws;
          parsed = run.parsed;
          raw_parsed = run.raw_parsed;
          enough =
              verify_entries-length 0 run.catalog.entries run.raws _ (run.results, log) run.entries;
        },
    λ i.
        let before =
          (verify_catalog_signature services fetch options document i.catalog.signature []).1 in
        let (r, e) = verify_entries-some 0 i.catalog.entries i.raws before i.enough in
        (
          report services fetch options document i.catalog r.0,
          r.1,
          verify-report services fetch options document i.catalog i.raws r.0 r.1 i.parsed
              i.raw_parsed e,
        ),
  )
