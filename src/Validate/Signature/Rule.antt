-- ===== src/Validate/Signature/Rule.antt =====
-- Which signature objects pass.
use ai_catalog_go.Prelude.{
  is_empty_iff, Bool-cases, ◌&&◌, arith, inr, inl, sym, [], List, some, none, Option, not, false,
  refl, ℕ, All, is_empty-eq-false_iff, is_empty, is_some, ◌<◌, ◌∷◌, ◌↔◌, ◌++◌, ◌≡◌, ◌≢◌,
}
use ai_catalog_go.Validate.Codes.{
  signature_expiry, signature_signer, signature_member, signature_type, signature_b64,
  signature_algorithm, signature_malformed, signature_form, Code, timestamp,
}
use ai_catalog_go.Validate.Signature.{
  validate_signature, validate_jws, check_header, validate_validity_window, wrong_order,
  validate_timestamp, require,
}
use ai_catalog_go.Catalog.Version.{Times}
use ai_catalog_go.Text.{codes, text_eq_iff, text_eq, Bytes}
use ai_catalog_go.Validate.Report.Enforces.{
  present_iff, Enforces-present, Enforces-error_if, Enforces-then, Enforces-if, Enforces-error,
  Enforces-iff, Enforces-unless, IfPresent, Enforces-for_each, Enforces,
}
use ai_catalog_go.Json.{Json}
use ai_catalog_go.Jws.{parse, detached, has, forbidden, Header}
use ai_catalog_go.Catalog.{Signature}
use ai_catalog_go.Jws.Forms.{detached_iff, IsDetached}
use ai_catalog_go.Jws.Parsing.{parse_iff, IsHeader}
use ai_catalog_go.Validate.Keys.Uris.{is_absolute_uri_iff, IsAbsoluteUri}
use mathlib.Core.Option.{some-injective}
use mathlib.Core.Path.{subst}
use ai_catalog_go.Validate.Keys.{is_absolute_uri}

pub Enforces-require :
    (code : Code) (required : List (Bytes × Bytes)) (path : Bytes)
    → Enforces (require code required path) (All (λ r. r.1 ≢ []) required)
unfolding require
Enforces-require code required path =
    Enforces-for_each 0 required
      λ i r. Enforces-unless (is_empty r.1) code (path ++ (b'.' ∷ r.0)) (is_empty-eq-false_iff r.1)

-- A timestamp that the library reads.
abbrev pub IsTimestamp : Times → Bytes → Type 0
IsTimestamp times value = (t : ℕ) × (times.parse value ≡ some t)

is_some_iff {ℓ} : {A : Type ℓ} (o : Option A) → (not (is_some o) ≡ false) ↔ ((a : A) × (o ≡ some a))
is_some_iff none = (λ h. cc, λ (a, e). cc)
is_some_iff (some a) = (λ _. (a, refl), λ _. refl)

module _ (times : Times) where
  pub Enforces-validate_timestamp :
      (value path : Bytes)
      → Enforces (validate_timestamp times value path) (IfPresent (IsTimestamp times) value)
  unfolding validate_timestamp
  Enforces-validate_timestamp value path = Enforces-present value λ _.
      Enforces-unless (not (is_some (times.parse value))) timestamp path
        (is_some_iff (times.parse value))

  -- The signature expires, and later than it was issued, where both instants are known.
  abbrev pub ExpiresLater : Bytes → Bytes → Type 0
  ExpiresLater issued_at expires_at =
      (u : ℕ) × (times.parse expires_at ≡ some u)
      × ((t : ℕ) → times.parse issued_at ≡ some t → t < u)

  window_iff :
      (issued expires : Option ℕ)
      → (((u : ℕ) × (expires ≡ some u)) × (wrong_order times issued expires ≡ false))
        ↔ ((u : ℕ) × (expires ≡ some u) × ((t : ℕ) → issued ≡ some t → t < u))
  window_iff none none = (λ ((u, e), w). cc, λ (u, e, f). cc)
  window_iff none (some u) = (λ _. (u, refl, λ t e. cc), λ _. ((u, refl), refl))
  window_iff (some t) none = (λ ((u, e), w). cc, λ (u, e, f). cc)
  window_iff (some t) (some u) = (
    λ (_, w). (u, refl, λ t' e. ground arith),
    λ (u', e, f). ((u, refl), ground (arith, f t refl)),
  )

  Enforces-validate_validity_window :
      (s : Signature) (path : Bytes)
      → Enforces
          (validate_validity_window times s path)
          (IfPresent (ExpiresLater s.issued_at) s.expires_at)
  unfolding validate_validity_window
  Enforces-validate_validity_window s path = Enforces-present s.expires_at λ given.
      Enforces-iff
        (
          λ (t, w).
              (window_iff (times.parse s.issued_at) (times.parse s.expires_at)).0
                ((present_iff (IsTimestamp times) s.expires_at given).0 t, w),
          λ l.
              let (t, w) = (window_iff (times.parse s.issued_at) (times.parse s.expires_at)).1 l in
              (inr t, w),
        )
        (Enforces-then (Enforces-validate_timestamp s.expires_at (path ++ codes ".expiresAt")) (
          Enforces-error_if (wrong_order times (times.parse s.issued_at) (times.parse s.expires_at))
            signature_expiry (path ++ codes ".expiresAt")))

-- A detached serialization whose protected header parses, does not name the algorithm "none", has
-- no member "b64" and is of the right type.
pub record IsProtected (json : Json) (typ signature : Bytes) : Type 0 where
  pub header : Header
  pub is_detached : IsDetached signature
  pub parsed : IsHeader json signature header
  pub algorithm_allowed : forbidden header.algorithm ≡ false
  pub no_b64 : has header (codes "b64") ≡ false
  pub right_type : header.type ≡ typ

abbrev HeaderRule : Bytes → Option Header → Type 0
HeaderRule typ o =
    (h : Header) × (o ≡ some h)
    × (forbidden h.algorithm ≡ false)
    × (has h (codes "b64") ≡ false)
    × (h.type ≡ typ)

not-eq-false_iff_text : (s t : Bytes) → (not (text_eq s t) ≡ false) ↔ (s ≡ t)
not-eq-false_iff_text s t =
    (λ h. (text_eq_iff s t).0 (ground arith), λ e. ground (arith, (text_eq_iff s t).1 e))

Enforces-check_header :
    (o : Option Header) (typ path : Bytes) → Enforces (check_header o typ path) (HeaderRule typ o)
unfolding check_header
Enforces-check_header none typ path =
    Enforces-iff (λ x. absurd x, λ (h, e, f, g, k). cc) (Enforces-error signature_malformed path)
Enforces-check_header (some h) typ path =
    Enforces-iff
      (
        λ (f, (g, k)). (h, refl, f, g, k),
        λ (h', e, f, g, k).
            let same : h' ≡ h = some-injective _ _ (sym e) in
            subst
              (λ x.
                (forbidden x.algorithm ≡ false) × ((has x (codes "b64") ≡ false) × (x.type ≡ typ)))
              same (f, (g, k)),
      )
      (Enforces-then (Enforces-error_if (forbidden h.algorithm) signature_algorithm path) (
        Enforces-then (Enforces-error_if (has h (codes "b64")) signature_b64 path) (
          Enforces-unless (not (text_eq h.type typ)) signature_type path
            (not-eq-false_iff_text h.type typ))))

module _ (json : Json) where
  Enforces-validate_jws :
      (signature typ path : Bytes)
      → Enforces (validate_jws json signature typ path) (IfPresent (IsProtected json typ) signature)
  unfolding validate_jws
  Enforces-validate_jws signature typ path = Enforces-present signature λ _.
      Enforces-iff
        (
          elim [
            | inl (_, x) ↦ absurd x
            | inr (d, (h, e, f, g, k)) ↦ record {
              header = h;
              is_detached = (detached_iff signature).0 (ground arith);
              parsed = (parse_iff json signature h).0 e;
              algorithm_allowed = f;
              no_b64 = g;
              right_type = k;
            }
          ],
          λ i.
              let d = (detached_iff signature).1 i.is_detached in
              inr (
                ground arith,
                (
                  i.header,
                  (parse_iff json signature i.header).1 i.parsed,
                  i.algorithm_allowed,
                  i.no_b64,
                  i.right_type,
                ),
              ),
        )
        (Enforces-if (not (detached signature)) (Enforces-error signature_form path)
          (Enforces-check_header (parse json signature) typ path))

  module _ (times : Times) where
    -- A signature object that is complete: its members are there, the signer is an absolute URI,
    -- the timestamps are read, it expires later than it is issued, and the JWS is protected.
    pub record IsSignature (typ : Bytes) (s : Signature) : Type 0 where
      pub some_signer : s.signer ≢ []
      pub some_profile : s.profile ≢ []
      pub some_issued_at : s.issued_at ≢ []
      pub some_jws : s.jws ≢ []
      pub signer_uri : IsAbsoluteUri s.signer
      pub issued : IsTimestamp times s.issued_at
      pub expires : IfPresent (ExpiresLater times s.issued_at) s.expires_at
      pub jws : IsProtected json typ s.jws

    signer_iff :
        (s : Bytes)
        → ((not (is_empty s) && not (is_absolute_uri s)) ≡ false) ↔ IfPresent IsAbsoluteUri s
    signer_iff s = (
      λ h. elim (Bool-cases (is_empty s)) [
        | inl e ↦ inl ((is_empty_iff s).0 e)
        | inr e ↦ inr ((is_absolute_uri_iff s).0 (ground arith))
      ],
      elim [
        | inl e ↦ ground (arith, (is_empty_iff s).1 e)
        | inr u ↦ ground (arith, (is_absolute_uri_iff s).1 u)
      ],
    )

    -- `validateSignature` reports no error exactly for a complete signature object.
    pub Enforces-validate_signature :
        (s : Signature) (typ path : Bytes)
        → Enforces (validate_signature json times s typ path) (IsSignature typ s)
    unfolding validate_signature
    Enforces-validate_signature s typ path =
        Enforces-iff
          (
            λ (
              (signer, (profile, (issued_at, (jws_there, _)))),
              (uri, (issued, (window, jws_rule))),
            ).
                record {
                  some_signer = signer;
                  some_profile = profile;
                  some_issued_at = issued_at;
                  some_jws = jws_there;
                  signer_uri = (present_iff IsAbsoluteUri s.signer signer).0 uri;
                  issued = (present_iff (IsTimestamp times) s.issued_at issued_at).0 issued;
                  expires = window;
                  jws = (present_iff (IsProtected json typ) s.jws jws_there).0 jws_rule;
                },
            λ i. (
              (i.some_signer, (i.some_profile, (i.some_issued_at, (i.some_jws, tt)))),
              (inr i.signer_uri, (inr i.issued, (i.expires, inr i.jws))),
            ),
          )
          (Enforces-then (Enforces-require signature_member _ path) (
            Enforces-then
              (Enforces-unless _ signature_signer (path ++ codes ".signer") (signer_iff s.signer))
              (Enforces-then
                (Enforces-validate_timestamp times s.issued_at (path ++ codes ".issuedAt"))
                (Enforces-then (Enforces-validate_validity_window times s path)
                  (Enforces-validate_jws s.jws typ (path ++ codes ".jws"))))))
