-- ===== src/Validate/Verify/Document/Runs.antt =====
-- What a verification that returns a result went through.
use ai_catalog_go.Prelude.{
  ◌>>=◌, ok, err, [], List, some, none, Option, ap, sym, refl, >>=-eq-some, ◌∙◌, ◌≡◌,
}
use ai_catalog_go.Validate.Verify.Document.{
  authorized_operator, authorized_operator, verified_level, verify_entries,
  verify_catalog_signature, in_range, verify_parsed, verify, Verification, Options, parse_catalog,
}
use ai_catalog_go.Validate.Verify.{EntryTrust, RawEntry, Log, Fetch, Services}
use ai_catalog_go.Text.{Bytes}
use ai_catalog_go.Catalog.{AiCatalog}
use mathlib.Core.Option.{some-injective}
use ai_catalog_go.Validate.Document.{validate}
use mathlib.Core.Path.{subst}

module _ {Url Key : Type 0} (services : Services Url Key) (fetch : Fetch) (options : Options) where
  -- The document and its raw entries parse, and the result is made of the parts.
  pub record Run (document : Bytes) (v : Verification) (log : Log) : Type 0 where
    pub catalog : AiCatalog
    pub raws : List RawEntry
    pub results : List EntryTrust
    pub parsed : services.json.catalog document ≡ some catalog
    pub raw_parsed : services.raw_catalog document ≡ some raws
    pub entries :
        verify_entries services fetch options 0 catalog.entries raws
          (verify_catalog_signature services fetch options document catalog.signature []).1
        ≡ some (results, log)
    pub level :
        v.conformance_level
        ≡ verified_level
            (validate services.json services.times options.validated_at options.max_depth
              catalog).conformance_level
            results
    pub same_entries : v.entries ≡ results
    pub status :
        v.catalog_signature
        ≡ (verify_catalog_signature services fetch options document catalog.signature []).0
    pub authorized :
        v.catalog_authorized
        ≡ authorized_operator services fetch options catalog.signature v.catalog_signature

  in_range-some :
      (o : Option (Verification × Log)) (r : Verification × Log)
      → in_range services fetch options o ≡ ok r
      → o ≡ some r
  in_range-some none r e = cc
  in_range-some (some x) r e = let same : x ≡ r = cc in ap some same

  pub verify-Run :
      (document : Bytes) (v : Verification) (log : Log)
      → verify services fetch options document ≡ ok (v, log)
      → Run document v log
  unfolding verify verify_parsed
  verify-Run document v log e = by_catalog (services.json.catalog document) refl e
    where
      by_raws :
          (c : AiCatalog) (o : Option (List RawEntry))
          → services.json.catalog document ≡ some c
          → services.raw_catalog document ≡ o
          → elim o [
            | none ↦ err parse_catalog
            | some raws ↦
                in_range services fetch options
                  (verify_parsed services fetch options document c raws)
          ]
            ≡ ok (v, log)
          → Run document v log
      by_raws c none p q e = cc
      by_raws c (some raws) p q e =
          let (status, log₀) =
            verify_catalog_signature services fetch options document c.signature [] in
          let ((es, log'), found, same) =
            >>=-eq-some (verify_entries services fetch options 0 c.entries raws log₀) _
              (in_range-some (verify_parsed services fetch options document c raws) (v, log) e) in
          let same' = some-injective _ _ same in
          let result = ap (λ x. x.0) same' in
          let logged : log' ≡ log = ap (λ x. x.1) same' in
          record {
            catalog = c;
            raws = raws;
            results = es;
            parsed = p;
            raw_parsed = q;
            entries = found ∙ ap (λ l. some (es, l)) logged;
            level = sym (ap (λ x. x.conformance_level) result);
            same_entries = sym (ap (λ x. x.entries) result);
            status = sym (ap (λ x. x.catalog_signature) result);
            authorized =
                subst
                  (λ x.
                    x.catalog_authorized
                    ≡ authorized_operator services fetch options c.signature x.catalog_signature)
                  result refl;
          }

      by_catalog :
          (o : Option AiCatalog)
          → services.json.catalog document ≡ o
          → elim o [
            | none ↦ err parse_catalog
            | some c ↦ elim (services.raw_catalog document) [
              | none ↦ err parse_catalog
              | some raws ↦
                  in_range services fetch options
                    (verify_parsed services fetch options document c raws)
            ]
          ]
            ≡ ok (v, log)
          → Run document v log
      by_catalog none p e = cc
      by_catalog (some c) p e = by_raws c (services.raw_catalog document) p refl e

  -- the result that is made of the entries
  abbrev pub report : Bytes → AiCatalog → List EntryTrust → Verification
  report document c entries =
      let validation =
        validate services.json services.times options.validated_at options.max_depth c in
      let status = (verify_catalog_signature services fetch options document c.signature []).0 in
      record {
        validation = validation;
        conformance_level = verified_level validation.conformance_level entries;
        catalog_signature = status;
        catalog_authorized = authorized_operator services fetch options c.signature status;
        entries = entries;
      }

  pub verify-report :
      (document : Bytes) (c : AiCatalog) (raws : List RawEntry) (entries : List EntryTrust)
      (log : Log)
      → services.json.catalog document ≡ some c
      → services.raw_catalog document ≡ some raws
      → verify_entries services fetch options 0 c.entries raws
          (verify_catalog_signature services fetch options document c.signature []).1
        ≡ some (entries, log)
      → verify services fetch options document ≡ ok (report document c entries, log)
  unfolding verify verify_parsed
  verify-report document c raws entries log p q e =
      rw (p, q, verify)
        (ap
          (λ o.
            in_range services fetch options (o >>= λ (es, log'). some (report document c es, log')))
          e)
