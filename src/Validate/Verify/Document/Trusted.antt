-- ===== src/Validate/Verify/Document/Trusted.antt =====
-- When a document is reported as trusted.
use ai_catalog_go.Prelude.{
  ok, arith, [], List, some, none, not, false, true, Bool, inr, inl, sym, refl, ℕ, any, >>=-eq-some,
  Bool-cases, ◌∙◌, ◌&&◌, ◌+◌, ◌∷◌, ◌↔◌, ◌⊎◌, ◌≡◌, ◌≢◌,
}
use ai_catalog_go.Validate.Document.{ConformanceLevel, trusted, discoverable, minimal}
use ai_catalog_go.Validate.Verify.{Log, RawEntry, Fetch, Services, EntryTrust}
use ai_catalog_go.Validate.Verify.Document.{
  verify_catalog_signature, verify_entry, verify, Verification, verify_entries, Options,
  at_least_discoverable, verified_level,
}
use ai_catalog_go.Catalog.{AiCatalog, CatalogEntry}
use ai_catalog_go.Text.{Bytes}
use ai_catalog_go.Validate.Verify.Document.Endorsed.{
  verify_entry-IsEndorsed_iff, or_iff, IsEndorsed,
}
use mathlib.Core.Path.{subst₂, subst}
use mathlib.Core.Option.{some-injective}
use ai_catalog_go.Validate.Document.Walk.{Conforms}
use ai_catalog_go.Validate.Verify.Document.Runs.{verify-Run, Run}
use ai_catalog_go.Validate.Document.Level.{validate-level_iff}
use ai_catalog_go.Validate.Verify.Document.Failing.{verify_entry-failed_iff, FailsForPublisher}

discoverable_iff :
    (l : ConformanceLevel) → l ≢ trusted → (at_least_discoverable l ≡ true) ↔ (l ≡ discoverable)
discoverable_iff minimal n = (λ h. cc, λ h. cc)
discoverable_iff discoverable n = (λ _. refl, λ _. refl)
discoverable_iff trusted n = absurd (n refl)

some_endorsed : List EntryTrust → Bool
some_endorsed entries = any (λ (e : EntryTrust). e.publisher_endorsed) entries

some_failed : List EntryTrust → Bool
some_failed entries = any (λ (e : EntryTrust). e.publisher_failed) entries

verified_level_iff :
    (l : ConformanceLevel) (entries : List EntryTrust)
    → l ≢ trusted
    → (verified_level l entries ≡ trusted)
      ↔ ((l ≡ discoverable) × (some_endorsed entries ≡ true) × (some_failed entries ≡ false))
unfolding verified_level some_endorsed some_failed
verified_level_iff l entries n =
    let (d, d') = discoverable_iff l n in
    (
      λ h.
          elim (Bool-cases
            (some_endorsed entries && not (some_failed entries) && at_least_discoverable l)) [
              | inl t ↦ (d (ground arith), ground arith, ground arith)
              | inr t ↦ let k : l ≡ trusted = rw t at h in absurd (n k)
            ],
      λ (e, s, a).
          let b = d' e in
          let t : (some_endorsed entries && not (some_failed entries) && at_least_discoverable l)
              ≡ true =
            ground arith in
          rw t refl,
    )

module _ {Url Key : Type 0} (services : Services Url Key) (fetch : Fetch) (options : Options) where
  -- Some entry is endorsed, with its raw entry and the requests made before it.
  abbrev pub HasEndorsed : ℕ → List CatalogEntry → List RawEntry → Log → Type 0
  HasEndorsed i [] raws log = ⊥
  HasEndorsed i (e ∷ es) [] log = ⊥
  HasEndorsed i (e ∷ es) (raw ∷ raws) log =
      IsEndorsed services fetch options i e raw log
      ⊎ HasEndorsed (i + 1) es raws (verify_entry services fetch options i e raw log).1

  entries_iff :
      (i : ℕ) (es : List CatalogEntry) (raws : List RawEntry) (log : Log)
      (r : List EntryTrust × Log)
      → verify_entries services fetch options i es raws log ≡ some r
      → (some_endorsed r.0 ≡ true) ↔ HasEndorsed i es raws log
  unfolding verify_entries some_endorsed
  entries_iff i [] raws log r e =
      subst (λ x. (some_endorsed x.0 ≡ true) ↔ HasEndorsed i [] raws log) (some-injective _ _ e)
        (λ h. cc, λ x. absurd x)
  entries_iff i (x ∷ es) [] log r e = let k : none ≡ some r = e in cc
  entries_iff i (x ∷ es) (raw ∷ raws) log r e =
      let log' = (verify_entry services fetch options i x raw log).1 in
      let (rest, came, same) =
        >>=-eq-some (verify_entries services fetch options (i + 1) es raws log') _ e in
      let tail = entries_iff (i + 1) es raws log' rest came in
      subst (λ y. (some_endorsed y.0 ≡ true) ↔ HasEndorsed i (x ∷ es) (raw ∷ raws) log)
        (some-injective _ _ same)
        (or_iff (verify_entry-IsEndorsed_iff services fetch options i x raw log) tail)

  -- Some entry fails for its publisher.
  abbrev pub HasFailing : ℕ → List CatalogEntry → List RawEntry → Log → Type 0
  HasFailing i [] raws log = ⊥
  HasFailing i (e ∷ es) [] log = ⊥
  HasFailing i (e ∷ es) (raw ∷ raws) log =
      FailsForPublisher services fetch options i e raw log
      ⊎ HasFailing (i + 1) es raws (verify_entry services fetch options i e raw log).1

  failing_iff :
      (i : ℕ) (es : List CatalogEntry) (raws : List RawEntry) (log : Log)
      (r : List EntryTrust × Log)
      → verify_entries services fetch options i es raws log ≡ some r
      → (some_failed r.0 ≡ true) ↔ HasFailing i es raws log
  unfolding verify_entries some_failed
  failing_iff i [] raws log r e =
      subst (λ x. (some_failed x.0 ≡ true) ↔ HasFailing i [] raws log) (some-injective _ _ e)
        (λ h. cc, λ x. absurd x)
  failing_iff i (x ∷ es) [] log r e = let k : none ≡ some r = e in cc
  failing_iff i (x ∷ es) (raw ∷ raws) log r e =
      let log' = (verify_entry services fetch options i x raw log).1 in
      let (rest, came, same) =
        >>=-eq-some (verify_entries services fetch options (i + 1) es raws log') _ e in
      let tail = failing_iff (i + 1) es raws log' rest came in
      subst (λ y. (some_failed y.0 ≡ true) ↔ HasFailing i (x ∷ es) (raw ∷ raws) log)
        (some-injective _ _ same)
        (or_iff (verify_entry-failed_iff services fetch options i x raw log) tail)

  -- The requests made before the first entry.
  abbrev pub log_before : Bytes → AiCatalog → Log
  log_before document c =
      (verify_catalog_signature services fetch options document c.signature []).1

  -- A valid document with a host, where an entry is endorsed and none fails for its publisher.
  pub record IsTrusted (document : Bytes) (c : AiCatalog) (raws : List RawEntry) : Type 0 where
    pub conforms : Conforms services.json services.times options.max_depth c 0
    pub some_host : c.host ≢ none
    pub endorsed : HasEndorsed 0 c.entries raws (log_before document c)
    pub none_fails : ¬ HasFailing 0 c.entries raws (log_before document c)

  of_Run :
      (document : Bytes) (v : Verification) (log : Log)
      (run : Run services fetch options document v log)
      → (v.conformance_level ≡ trusted) ↔ IsTrusted document run.catalog run.raws
  of_Run document v log run =
      let ((to, from), never) =
        validate-level_iff services.json services.times options.validated_at options.max_depth
          run.catalog in
      let (up, down) = verified_level_iff _ run.results never in
      let (seen, shown) =
        entries_iff 0 run.catalog.entries run.raws _ (run.results, log) run.entries in
      let (fails, failing) =
        failing_iff 0 run.catalog.entries run.raws _ (run.results, log) run.entries in
      (
        λ h.
            let (d, s, n) = up (sym run.level ∙ h) in
            let (conforms, host) = to d in
            record {
              conforms = conforms;
              some_host = host;
              endorsed = seen s;
              none_fails = λ x. let k : false ≡ true = sym n ∙ failing x in cc;
            },
        λ t.
            let n : some_failed run.results ≡ false = elim (Bool-cases (some_failed run.results)) [
              | inl y ↦ absurd (t.none_fails (fails y))
              | inr n ↦ n
            ] in
            run.level ∙ down (from (t.conforms, t.some_host), shown t.endorsed, n),
      )

  -- Where the document and its raw entries parse and `Verify` returns a result: it reports the level
  -- Trusted exactly for a document that is valid and has a host, where the publisher of some entry
  -- endorses it, with a signature that verifies over a manifest that covers the release and an
  -- artifact that has the digest, and no entry fails for its publisher: by a signature of the
  -- publisher that could be checked and does not verify, or does not cover the release, or by an
  -- artifact that could be fetched and has not the digest.
  pub verify-trusted_iff :
      (document : Bytes) (c : AiCatalog) (raws : List RawEntry) (v : Verification) (log : Log)
      → services.json.catalog document ≡ some c
      → services.raw_catalog document ≡ some raws
      → verify services fetch options document ≡ ok (v, log)
      → (v.conformance_level ≡ trusted) ↔ IsTrusted document c raws
  verify-trusted_iff document c raws v log p q e =
      let run = verify-Run services fetch options document v log e in
      subst₂ (λ c raws. (v.conformance_level ≡ trusted) ↔ IsTrusted document c raws)
        (some-injective _ _ (sym run.parsed ∙ p)) (some-injective _ _ (sym run.raw_parsed ∙ q))
        (of_Run document v log run)
