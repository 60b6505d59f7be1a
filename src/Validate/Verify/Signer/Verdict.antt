-- ===== src/Validate/Verify/Signer/Verdict.antt =====
-- The status that a check of a signature comes to.
use ai_catalog_go.Prelude.{some, none, Option, inr, inl, sym, refl, ℕ, ◌∙◌, ◌↔◌, ◌⊎◌, ◌≡◌, ◌≢◌}
use ai_catalog_go.Validate.Verify.{Status, Log, Fetch, Services, unverifiable, verified}
use ai_catalog_go.Validate.Verify.Signer.Outcome.{
  check_reply_iff, check_signature-Course, Course, IsSignedWith, IsReady, asked, refused,
  unsupported,
}
use ai_catalog_go.Identity.{did_web_prefix, did}
use ai_catalog_go.Text.{cut_prefix_iff, Bytes}
use mathlib.Core.Option.{some-injective}
use ai_catalog_go.Catalog.{Signature}
use ai_catalog_go.Jws.{Header}
use ai_catalog_go.Validate.Did.Address.{did_document_of}
use ai_catalog_go.Validate.Profile.{did_web_profile}
use ai_catalog_go.Validate.Verify.Signer.{check_signature}
use ai_catalog_go.Validate.Verify.Signer.Signed.{IsAccepted-iff}
use mathlib.Core.Path.{subst}

did_injective : (p q : Bytes) → did p ≡ did q → p ≡ q
unfolding did
did_injective p q e = some-injective _ _ (
    sym ((cut_prefix_iff (did p) did_web_prefix p).1 refl)
    ∙ (cut_prefix_iff (did p) did_web_prefix q).1 e)

module _ {Url Key : Type 0} (services : Services Url Key) (now : ℕ) (fetch : Fetch) (s : Signature)
    (typ document : Bytes) (log : Log) where
  abbrev pub Ready : Header → Bytes → Type 0
  Ready h domain = IsReady services now s typ h domain

  -- The reply to the request for the signer's DID document.
  abbrev pub reply_of : Bytes → Option Bytes
  reply_of domain = fetch log (did_document_of domain)

  same_header : (h g : Header) (p q : Bytes) → Ready h p → Ready g q → (h ≡ g) × (p ≡ q)
  same_header h g p q i j =
      let a = (IsAccepted-iff services s typ h).1 i.accepted in
      let b = (IsAccepted-iff services s typ g).1 j.accepted in
      (some-injective _ _ (sym a ∙ b), did_injective p q (sym i.signer ∙ j.signer))

  -- A signature that verifies: it is ready, the DID document is fetched, and its key verifies it.
  pub record IsSigned : Type 0 where
    pub header : Header
    pub domain : Bytes
    pub ready : Ready header domain
    pub body : Bytes
    pub fetched : reply_of domain ≡ some body
    pub signed_with : IsSignedWith services s header document body

  abbrev pub CannotTell : Type 0
  CannotTell =
      s.profile ≢ did_web_profile
      ⊎ ((h : Header) × (domain : Bytes) × Ready h domain × (reply_of domain ≡ none))

  abbrev Verdict : Status → Type 0
  Verdict status = ((status ≡ verified) ↔ IsSigned) × ((status ≡ unverifiable) ↔ CannotTell)

  Verdict-of : (r : Status × Log) → Course services now fetch s typ document log r → Verdict r.0
  Verdict-of r (unsupported n) =
      ((λ e. cc, λ i. absurd (n i.ready.profile)), (λ _. inl n, λ _. refl))
  Verdict-of r (refused p none_ready) = (
    (λ e. cc, λ i. absurd (none_ready i.header i.domain i.ready)),
    (
      λ e. cc,
      elim [ inl n ↦ absurd (n p) | inr (h, domain, i, _) ↦ absurd (none_ready h domain i) ],
    ),
  )
  Verdict-of r (asked h domain ready) =
      let ((to, from), (unknown, known)) =
        check_reply_iff services s h document (reply_of domain) in
      (
        (
          λ e.
              let (body, fetched, signed) = to e in
              record {
                header = h;
                domain = domain;
                ready = ready;
                body = body;
                fetched = fetched;
                signed_with = signed;
              },
          λ i.
              let (g, q) = same_header i.header h i.domain domain i.ready ready in
              from (
                i.body,
                subst (λ d. reply_of d ≡ some i.body) q i.fetched,
                subst (λ x. IsSignedWith services s x document i.body) g i.signed_with,
              ),
        ),
        (
          λ e. inr (h, domain, ready, unknown e),
          elim [
            | inl n ↦ absurd (n ready.profile)
            | inr (g, q, i, e) ↦
                let (_, same) = same_header g h q domain i ready in
                known (subst (λ d. reply_of d ≡ none) same e)
          ],
        ),
      )

  -- `checkSignature` verifies a signature exactly where its profile is did:web, its header, its
  -- instants and its signer pass the tests, the DID document is fetched from the signer's domain, and
  -- the key that the document gives verifies the signature over the payload of the signed document.
  -- It cannot tell exactly where the profile is another, or the tests pass and the fetch fails.
  pub check_signature_iff :
      (((check_signature services now fetch s typ document log).0 ≡ verified) ↔ IsSigned)
      × (((check_signature services now fetch s typ document log).0 ≡ unverifiable) ↔ CannotTell)
  check_signature_iff =
      Verdict-of (check_signature services now fetch s typ document log)
        (check_signature-Course services now fetch s typ document log)
