-- ===== src/Validate/Verify/Signer/Outcome.antt =====
-- What `checkSignature` says of a signature.
use ai_catalog_go.Prelude.{
  some, none, Option, not, false, true, Bool, inr, inl, ap, sym, refl, ℕ, >>=-eq-some, is_some,
  Bool-cases, if◌then◌else◌, ◌∙◌, ◌∷◌, ◌↔◌, ◌≡◌, ◌≢◌,
}
use ai_catalog_go.Validate.Verify.{Status, Log, Fetch, Services, unverifiable, failed, verified}
use ai_catalog_go.Catalog.{Signature}
use ai_catalog_go.Trust.Es256.{verify_es256, Es256Error}
use ai_catalog_go.Validate.Verify.Signer.{
  check_time, check_signer, check_accepted, checked_header, check_signature, check_reply, passed,
  check_key,
}
use ai_catalog_go.Text.{text_eq_iff, text_eq, Bytes}
use ai_catalog_go.Jws.{Header}
use mathlib.Core.Option.{some-injective}
use ai_catalog_go.Validate.Profile.{did_web_profile}
use ai_catalog_go.Validate.Did.Key.{select_key_iff, IsKeyOf}
use ai_catalog_go.Validate.Did.{did_document_url, select_key}
use ai_catalog_go.Validate.Verify.Signer.Signed.{IsInTime-iff, IsAccepted-iff, IsInTime, IsAccepted}
use ai_catalog_go.Trust.Es256.Key.Accepted.{parse_es256_key_iff, IsKey}
use ai_catalog_go.Trust.Es256.Key.{parse_es256_key}
use mathlib.Core.Path.{subst}
use ai_catalog_go.Validate.Did.Address.{did_document_url_iff, did_document_of}
use ai_catalog_go.Trust.Canonical.{canonicalize_for_signature}
use ai_catalog_go.Trust.Es256.Verified.{IsVerified, verify_es256_iff}
use ai_catalog_go.Identity.{did}
use ai_catalog_go.Identity.Labels.{IsPublisher}

module _ {Url Key : Type 0} (services : Services Url Key) where
  open services use {json, did_json, jcs, hashes, ecdsa, times}

  -- A signature of the profile that is ready to be checked against its signer's DID document: the
  -- header is accepted, it is in time, and the signer is the root did:web DID of a domain.
  pub record IsReady (now : ℕ) (s : Signature) (typ : Bytes) (h : Header) (domain : Bytes)
      : Type 0 where
    pub profile : s.profile ≡ did_web_profile
    pub accepted : IsAccepted services s typ h
    pub in_time : IsInTime services now s
    pub signer : s.signer ≡ did domain
    pub is_publisher : IsPublisher domain

  -- The DID document gives a key that verifies the signature over the payload of the document.
  pub record IsSignedWith (s : Signature) (h : Header) (document body : Bytes) : Type 0 where
    pub jwk : Bytes
    pub key : Key
    pub payload : Bytes
    pub selected : IsKeyOf json did_json s.signer h.key_id body jwk
    pub key_read : IsKey json ecdsa jwk key
    pub covers : canonicalize_for_signature json jcs document ≡ some payload
    pub verifies : IsVerified json hashes ecdsa s.jws payload key

  no_error_iff :
      (o : Option Es256Error) (payload p : Bytes)
      → ((if is_some o then none else some payload) ≡ some p) ↔ ((o ≡ none) × (payload ≡ p))
  no_error_iff none payload p = (λ e. (refl, some-injective _ _ e), λ (_, e). ap some e)
  no_error_iff (some x) payload p = (λ e. cc, λ (e, _). cc)

  IsSignedWith-sound :
      (s : Signature) (h : Header) (document body p : Bytes)
      → check_key services s h document body ≡ some p
      → IsSignedWith s h document body
  unfolding check_key
  IsSignedWith-sound s h document body p e =
      let (jwk, selected, e₁) = >>=-eq-some (select_key json did_json body s.signer h.key_id) _ e in
      let (key, key_read, e₂) = >>=-eq-some (parse_es256_key json ecdsa jwk) _ e₁ in
      let (payload, covers, e₃) = >>=-eq-some (canonicalize_for_signature json jcs document) _ e₂ in
      let (good, _) =
        (no_error_iff (verify_es256 json hashes ecdsa s.jws payload key) payload p).0 e₃ in
      record {
        jwk = jwk;
        key = key;
        payload = payload;
        selected = (select_key_iff json did_json s.signer h.key_id body jwk).0 selected;
        key_read = (parse_es256_key_iff json ecdsa jwk key).0 key_read;
        covers = covers;
        verifies = (verify_es256_iff json hashes ecdsa s.jws payload key).0 good;
      }

  IsSignedWith-complete :
      (s : Signature) (h : Header) (document body : Bytes)
      → (i : IsSignedWith s h document body) → check_key services s h document body ≡ some i.payload
  unfolding check_key
  IsSignedWith-complete s h document body i =
      rw
        (
          (select_key_iff json did_json s.signer h.key_id body i.jwk).1 i.selected,
          (parse_es256_key_iff json ecdsa i.jwk i.key).1 i.key_read,
          i.covers,
          (verify_es256_iff json hashes ecdsa s.jws i.payload i.key).1 i.verifies,
        )
        refl

  passed_iff :
      (o : Option Bytes)
      → ((passed services o ≡ verified) ↔ ((p : Bytes) × (o ≡ some p)))
        × (passed services o ≢ unverifiable)
  passed_iff none = ((λ h. cc, λ (p, e). cc), λ h. cc)
  passed_iff (some p) = ((λ _. (p, refl), λ _. refl), λ h. cc)

  pub check_reply_iff :
      (s : Signature) (h : Header) (document : Bytes) (reply : Option Bytes)
      → ((check_reply services s h document reply ≡ verified)
          ↔ ((body : Bytes) × (reply ≡ some body) × IsSignedWith s h document body))
        × ((check_reply services s h document reply ≡ unverifiable) ↔ (reply ≡ none))
  check_reply_iff s h document none = ((λ e. cc, λ (b, e, i). cc), (λ _. refl, λ _. refl))
  check_reply_iff s h document (some body) =
      let ((to, from), never) = passed_iff (check_key services s h document body) in
      (
        (
          λ e. let (p, k) = to e in (body, refl, IsSignedWith-sound s h document body p k),
          λ (b, e, i).
              let j = subst (IsSignedWith s h document) (sym (some-injective _ _ e)) i in
              from (j.payload, IsSignedWith-complete s h document body j),
        ),
        (λ e. absurd (never e), λ e. cc),
      )

  module _ (now : ℕ) (fetch : Fetch) (s : Signature) (typ document : Bytes) (log : Log) where
    -- The three ways that a check goes: another profile, a test that fails before anything is
    -- fetched, and the reply to the request for the DID document.
    pub data Course : Status × Log → Type 0 where
      unsupported : s.profile ≢ did_web_profile → Course (unverifiable, log)
      refused :
          s.profile ≡ did_web_profile
          → ((h : Header) (domain : Bytes) → ¬ IsReady now s typ h domain)
          → Course (failed, log)
      asked :
          (h : Header) (domain : Bytes)
          → IsReady now s typ h domain
          → Course (
            check_reply services s h document (fetch log (did_document_of domain)),
            did_document_of domain ∷ log,
          )

    course_accepted :
        s.profile ≡ did_web_profile
        → (o : Option Header) → checked_header services s typ ≡ o
        → Course (check_accepted services now fetch s document o log)
    course_accepted p none e = refused p λ h domain i.
        let k = (IsAccepted-iff services s typ h).1 i.accepted in
        let k' : none ≡ some h = sym e ∙ k in cc
    course_accepted p (some h) e = in_time (check_time services now s) refl
      where
        a : IsAccepted services s typ h
        a = (IsAccepted-iff services s typ h).0 e

        with_address :
            IsInTime services now s
            → (o : Option Bytes) → did_document_url s.signer ≡ o
            → Course (check_signer services now fetch s h document o log)
        with_address t none e' = refused p λ g domain i.
            let k =
              (did_document_url_iff s.signer (did_document_of domain)).1
                (domain, i.signer, i.is_publisher, refl) in
            let k' : none ≡ some (did_document_of domain) = sym e' ∙ k in cc
        with_address t (some address) e' =
            let (domain, signer, valid, same) = (did_document_url_iff s.signer address).0 e' in
            subst (λ x. Course (check_signer services now fetch s h document (some x) log))
              (sym same)
              (asked h domain (record {
                profile = p;
                accepted = a;
                in_time = t;
                signer = signer;
                is_publisher = valid;
              }))

        in_time :
            (b : Bool)
            → check_time services now s ≡ b
            → Course (
                if not b
                then (failed, log)
                else check_signer services now fetch s h document (did_document_url s.signer) log)
        in_time false e' = refused p λ g domain i.
            let k = (IsInTime-iff services now s).1 i.in_time in
            let k' : false ≡ true = sym e' ∙ k in cc
        in_time true e' =
            with_address ((IsInTime-iff services now s).0 e') (did_document_url s.signer) refl

    pub check_signature-Course : Course (check_signature services now fetch s typ document log)
    unfolding check_signature
    check_signature-Course = elim (Bool-cases (text_eq s.profile did_web_profile)) [
      | inl t ↦ rw t (
          course_accepted ((text_eq_iff s.profile did_web_profile).0 t)
            (checked_header services s typ) refl)
      | inr t ↦ rw t (
          unsupported λ e.
            let k = (text_eq_iff s.profile did_web_profile).1 e in
            let k' : false ≡ true = sym t ∙ k in cc)
    ]
