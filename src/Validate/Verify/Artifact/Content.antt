-- ===== src/Validate/Verify/Artifact/Content.antt =====
-- Which artifacts match the digest of their entry.
use ai_catalog_go.Prelude.{
  ok, err, [], none, Option, Bool, sym, refl, is_empty-eq-false_iff, is_empty_iff, is_empty, Either,
  Bool-cases, if◌then◌else◌, ◌∙◌, ◌∷◌, ◌⊎◌, ◌≢◌, some, false, true, inr, inl, Option-cases, ◌↔◌,
  ◌≡◌,
}
use ai_catalog_go.Validate.Verify.{Log, Status, Fetch, unverifiable, failed, verified, Services}
use ai_catalog_go.Text.{codes, text_eq_iff, text_eq, Bytes}
use ai_catalog_go.Trust.Digest.{
  parse_digest, verify_digest, DigestError, hex_encode, sum, ParsedDigest, verify_bytes,
}
use ai_catalog_go.Trust.Digest.Laws.{parse_digest_iff, IsDigest}
use ai_catalog_go.Validate.Verify.Artifact.{
  resolve_location, check_artifact, check_location, check_fetched, check_canonical, check_content,
}
use ai_catalog_go.Catalog.{CatalogEntry}
use ai_catalog_go.Trust.Canonical.{canonicalize}
use mathlib.Core.Path.{subst}
use mathlib.Core.Option.{some-injective}

module _ {Url Key : Type 0} (services : Services Url Key) where
  open services use {jcs, hashes, parse_url, scheme, url_text, resolve}

  -- The digest parses and gives the sum of the content.
  pub record MatchesDigest (digest content : Bytes) : Type 0 where
    pub parsed : ParsedDigest
    pub is_digest : IsDigest digest parsed
    pub bytes : Bytes
    pub summed : sum hashes parsed.algorithm content ≡ some bytes
    pub same : hex_encode bytes ≡ parsed.hex_value

  verify_bytes_iff :
      (d : ParsedDigest) (content : Bytes)
      → (verify_bytes hashes d content ≡ true)
        ↔ ((s : Bytes) × (sum hashes d.algorithm content ≡ some s) × (hex_encode s ≡ d.hex_value))
  unfolding verify_bytes
  verify_bytes_iff d content = (
    λ h. elim (Option-cases (sum hashes d.algorithm content)) [
      | inl e ↦ let k : false ≡ true = rw (e, verify_bytes) at h in cc
      | inr (s, e) ↦
          let k : text_eq (hex_encode s) d.hex_value ≡ true = rw (e, verify_bytes) at h in
          (s, e, (text_eq_iff (hex_encode s) d.hex_value).0 k)
    ],
    λ (s, e, f). rw (e, verify_bytes) ((text_eq_iff (hex_encode s) d.hex_value).1 f),
  )

  -- the statuses that a digest's verification comes to
  abbrev judged : Either DigestError Bool → Status
  judged r = elim r [ err e ↦ failed | ok match ↦ if match then verified else failed ]

  pub check_content_iff :
      (digest content : Bytes)
      → ((check_content services digest content ≡ verified) ↔ MatchesDigest digest content)
        × (check_content services digest content ≢ unverifiable)
  unfolding check_content verify_digest
  check_content_iff digest content = by_parse (parse_digest digest) refl
    where
      by_parse :
          (r : Either DigestError ParsedDigest)
          → parse_digest digest ≡ r
          → ((judged (elim r [ err e ↦ err e | ok d ↦ ok (verify_bytes hashes d content) ])
                ≡ verified)
              ↔ MatchesDigest digest content)
            × (judged (elim r [ err e ↦ err e | ok d ↦ ok (verify_bytes hashes d content) ])
                ≢ unverifiable)
      by_parse (err x) e = (
        (
          λ h. cc,
          λ m.
              let k = (parse_digest_iff digest m.parsed).1 m.is_digest in
              let k' : err x ≡ ok m.parsed = sym e ∙ k in cc,
        ),
        λ h. cc,
      )
      by_parse (ok d) e = elim (Bool-cases (verify_bytes hashes d content)) [
        | inl t ↦
            let (s, summed, same) = (verify_bytes_iff d content).0 t in
            let m : MatchesDigest digest content = record {
              parsed = d;
              is_digest = (parse_digest_iff digest d).0 e;
              bytes = s;
              summed = summed;
              same = same;
            } in
            rw t ((λ _. m, λ _. refl), λ h. cc)
        | inr t ↦ rw t (
          (
            λ h. cc,
            λ m.
                let k = (parse_digest_iff digest m.parsed).1 m.is_digest in
                let k' : ok d ≡ ok m.parsed = sym e ∙ k in
                let same : d ≡ m.parsed = cc in
                let good = (verify_bytes_iff m.parsed content).1 (m.bytes, m.summed, m.same) in
                let bad : verify_bytes hashes m.parsed content ≡ false =
                  subst (λ x. verify_bytes hashes x content ≡ false) same t in
                cc,
          ),
          λ h. cc,
        )
      ]

  module _ (fetch : Fetch) (base : Option Url) (entry : CatalogEntry) (content : Bytes)
      (log : Log) where
    -- The bytes that the digest of an entry covers: the canonical form of inline data, or what is
    -- served at the entry's address, which is one of https.
    pub data Covers : Bytes → Type 0 where
      inline : (c : Bytes) → content ≢ [] → canonicalize jcs content ≡ some c → Covers c
      served :
          (l : Url) (c : Bytes)
          → content ≡ []
          → resolve_location services base entry.url ≡ some l
          → scheme l ≡ codes "https"
          → fetch log (url_text l) ≡ some c
          → Covers c

    abbrev pub HasArtifact : Type 0
    HasArtifact = (c : Bytes) × Covers c × MatchesDigest entry.digest c

    -- What is requested for an artifact: nothing, or an https address.
    abbrev pub AsksHttps : Log → Type 0
    AsksHttps log' =
        (log' ≡ log) ⊎ ((l : Url) × (scheme l ≡ codes "https") × (log' ≡ url_text l ∷ log))

    canonical_iff :
        (o : Option Bytes)
        → (check_canonical services entry.digest o ≡ verified)
          ↔ ((c : Bytes) × (o ≡ some c) × MatchesDigest entry.digest c)
    canonical_iff none = (λ h. cc, λ (c, e, m). cc)
    canonical_iff (some c) = (
      λ h. (c, refl, (check_content_iff entry.digest c).0.0 h),
      λ (d, e, m).
          (check_content_iff entry.digest c).0.1
            (subst (MatchesDigest entry.digest) (sym (some-injective _ _ e)) m),
    )

    fetched_iff :
        (o : Option Bytes)
        → (check_fetched services entry.digest o ≡ verified)
          ↔ ((c : Bytes) × (o ≡ some c) × MatchesDigest entry.digest c)
    fetched_iff none = (λ h. cc, λ (c, e, m). cc)
    fetched_iff (some c) = canonical_iff (some c)

    location_iff :
        (o : Option Url)
        → ((((check_location services fetch base entry.digest o log).0 ≡ verified) ↔ (
              (l : Url) × (c : Bytes) × (o ≡ some l)
              × (scheme l ≡ codes "https")
              × (fetch log (url_text l) ≡ some c)
              × MatchesDigest entry.digest c))
            × AsksHttps (check_location services fetch base entry.digest o log).1)
    location_iff none = ((λ h. cc, λ (l, c, e, s, f, m). cc), inl refl)
    location_iff (some l) = elim (Bool-cases (text_eq (scheme l) (codes "https"))) [
      | inl t ↦
          let https = (text_eq_iff (scheme l) (codes "https")).0 t in
          let (to, from) = fetched_iff (fetch log (url_text l)) in
          rw t (
            (
              λ h. let (c, f, m) = to h in (l, c, refl, https, f, m),
              λ (k, c, e, s, f, m).
                  let same = some-injective _ _ (sym e) in
                  from (c, subst (λ x. fetch log (url_text x) ≡ some c) same f, m),
            ),
            inr (l, https, refl),
          )
      | inr t ↦ rw t (
        (
          λ h. cc,
          λ (k, c, e, s, f, m).
              let same = some-injective _ _ (sym e) in
              let s' = subst (λ x. scheme x ≡ codes "https") same s in
              let t' = (text_eq_iff (scheme l) (codes "https")).1 s' in
              let k' : false ≡ true = sym t ∙ t' in cc,
        ),
        inl refl,
      )
    ]

    -- `checkArtifact` verifies an artifact exactly where the bytes that the digest covers can be had
    -- and the digest gives their sum, and it requests nothing but an https address.
    pub check_artifact_iff :
        (((check_artifact services fetch base entry content log).0 ≡ verified) ↔ HasArtifact)
        × AsksHttps (check_artifact services fetch base entry content log).1
    unfolding check_artifact
    check_artifact_iff = elim (Bool-cases (is_empty content)) [
      | inl t ↦
          let none_there = (is_empty_iff content).0 t in
          let ((to, from), asks) = location_iff (resolve_location services base entry.url) in
          rw t (
            (
              λ h. let (l, c, e, s, f, m) = to h in (c, served l c none_there e s f, m),
              λ (c, covers, m). from_covers from none_there c covers m,
            ),
            asks,
          )
      | inr t ↦
          let there = (is_empty-eq-false_iff content).0 t in
          let (to, from) = canonical_iff (canonicalize jcs content) in
          rw t (
            (
              λ h. let (c, e, m) = to h in (c, inline c there e, m),
              λ (c, covers, m). from (c, canonical_of there c covers, m),
            ),
            inl refl,
          )
    ]
      where
        from_covers :
            (((l : Url) × (c : Bytes) × (resolve_location services base entry.url ≡ some l)
                × (scheme l ≡ codes "https")
                × (fetch log (url_text l) ≡ some c)
                × MatchesDigest entry.digest c)
              → (check_location services fetch base entry.digest
                  (resolve_location services base entry.url)
                  log).0
                ≡ verified)
            → content ≡ []
            → (c : Bytes) → Covers c
            → MatchesDigest entry.digest c
            → (check_location services fetch base entry.digest
                (resolve_location services base entry.url)
                log).0
              ≡ verified
        from_covers from gone c (inline d there e) m = absurd (there gone)
        from_covers from gone c (served l d _ e s f) m = from (l, c, e, s, f, m)

        canonical_of : content ≢ [] → (c : Bytes) → Covers c → canonicalize jcs content ≡ some c
        canonical_of there c (inline d _ e) = e
        canonical_of there c (served l d gone e s f) = absurd (there gone)
