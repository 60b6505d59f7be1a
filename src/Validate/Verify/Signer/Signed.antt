-- ===== src/Validate/Verify/Signer/Signed.antt =====
-- Which signatures verify, and which cannot be verified.
use ai_catalog_go.Prelude.{
  some, none, Option, inr, inl, sym, refl, ℕ, is_empty_iff, is_empty, Bool-cases, ◌<◌, ◌≤◌, arith,
  false, true, any-eq-false_iff, All, ◌↔◌, ◌≡◌,
}
use ai_catalog_go.Validate.Verify.{Services}
use ai_catalog_go.Catalog.{Signature}
use ai_catalog_go.Validate.Verify.Signer.{
  checked_header, check_time, after_now, not_after_now, accept_header, header_accepted,
}
use ai_catalog_go.Text.{text_eq_iff, Bytes}
use ai_catalog_go.Jws.{detached, parse, has, Header}
use ai_catalog_go.Jws.Forms.{detached_iff, IsDetached}
use ai_catalog_go.Validate.Profile.{key_source_members, profile_algorithm_name}
use ai_catalog_go.Jws.Parsing.{parse_iff, IsHeader}
use ai_catalog_go.Identity.{root_did_web}
use ai_catalog_go.Validate.Profile.Rule.{selects_fragment_iff, SelectsKey}
use ai_catalog_go.Validate.Report.Enforces.{IfPresent}
use mathlib.Core.Path.{subst}
use mathlib.Core.Option.{some-injective}

module _ {Url Key : Type 0} (services : Services Url Key) where
  open services use {json, did_json, jcs, hashes, ecdsa, times}

  -- A header of the did:web profile, for a signature of the type.
  pub record IsAccepted (s : Signature) (typ : Bytes) (h : Header) : Type 0 where
    pub is_detached : IsDetached s.jws
    pub parsed : IsHeader json s.jws h
    pub algorithm : h.algorithm ≡ profile_algorithm_name
    pub right_type : h.type ≡ typ
    pub no_key_sources : All (λ m. has h m ≡ false) key_source_members
    pub root_signer : root_did_web s.signer ≡ true
    pub key : SelectsKey s.signer h.key_id

  header_accepted_iff :
      (s : Signature) (typ : Bytes) (h : Header)
      → (header_accepted services s typ h ≡ true) ↔ (
          (h.algorithm ≡ profile_algorithm_name)
          × ((h.type ≡ typ)
              × (All (λ m. has h m ≡ false) key_source_members
                  × ((root_did_web s.signer ≡ true) × SelectsKey s.signer h.key_id))))
  unfolding header_accepted
  header_accepted_iff s typ h =
      let (alg, alg') = text_eq_iff h.algorithm profile_algorithm_name in
      let (type, type') = text_eq_iff h.type typ in
      let (sources, sources') =
        any-eq-false_iff (has h) (λ m. ((λ e. e), (λ e. e))) key_source_members in
      let (key, key') = selects_fragment_iff s.signer h.key_id in
      (
        λ e. (
          alg (ground arith),
          (type (ground arith), (sources (ground arith), (ground arith, key (ground arith)))),
        ),
        λ (a, (t, (n, (r, k)))).
            let a' = alg' a in
            let t' = type' t in let n' = sources' n in let k' = key' k in ground arith,
      )

  accept_header_iff :
      (s : Signature) (typ : Bytes) (o : Option Header) (h : Header)
      → (accept_header services s typ o ≡ some h)
        ↔ ((o ≡ some h) × (header_accepted services s typ h ≡ true))
  accept_header_iff s typ none h = (λ e. cc, λ (e, t). cc)
  accept_header_iff s typ (some g) h = elim (Bool-cases (header_accepted services s typ g)) [
    | inl t ↦ rw t (
      λ e. (e, subst (λ x. header_accepted services s typ x ≡ true) (some-injective _ _ e) t),
      λ (e, _). e,
    )
    | inr t ↦ rw t (
      λ e. cc,
      λ (e, u).
          let u' =
            subst (λ x. header_accepted services s typ x ≡ true) (sym (some-injective _ _ e)) u in
          cc,
    )
  ]

  pub IsAccepted-iff :
      (s : Signature) (typ : Bytes) (h : Header)
      → (checked_header services s typ ≡ some h) ↔ IsAccepted s typ h
  unfolding checked_header
  IsAccepted-iff s typ h =
      let (read, write) = accept_header_iff s typ (parse json s.jws) h in
      let (form, form') = detached_iff s.jws in
      let (tests, tests') = header_accepted_iff s typ h in
      let (parsed, parsed') = parse_iff json s.jws h in
      (
        λ e. elim (Bool-cases (detached s.jws)) [
          | inl t ↦
              let (p, a) = read (rw t at e) in
              let (alg, (type, (sources, (root, key)))) = tests a in
              record {
                is_detached = form t;
                parsed = parsed p;
                algorithm = alg;
                right_type = type;
                no_key_sources = sources;
                root_signer = root;
                key = key;
              }
          | inr t ↦ let k : none ≡ some h = rw t at e in cc
        ],
        λ i.
            let a =
              tests' (i.algorithm, (i.right_type, (i.no_key_sources, (i.root_signer, i.key)))) in
            rw (form' i.is_detached) (write (parsed' i.parsed, a)),
      )

  -- The clock is not before the instant of issue, and before that of expiry if one is given.
  pub record IsInTime (now : ℕ) (s : Signature) : Type 0 where
    pub issued : (t : ℕ) × (times.parse s.issued_at ≡ some t) × (t ≤ now)
    pub not_expired : IfPresent (λ v. (t : ℕ) × (times.parse v ≡ some t) × (now < t)) s.expires_at

  not_after_iff :
      (now : ℕ) (o : Option ℕ)
      → (not_after_now services now o ≡ true) ↔ ((t : ℕ) × (o ≡ some t) × (t ≤ now))
  not_after_iff now none = (λ h. cc, λ (t, e, l). cc)
  not_after_iff now (some u) =
      (λ h. (u, refl, ground arith), λ (t, e, l). let same = some-injective _ _ e in ground arith)

  after_iff :
      (now : ℕ) (o : Option ℕ)
      → (after_now services now o ≡ true) ↔ ((t : ℕ) × (o ≡ some t) × (now < t))
  after_iff now none = (λ h. cc, λ (t, e, l). cc)
  after_iff now (some u) =
      (λ h. (u, refl, ground arith), λ (t, e, l). let same = some-injective _ _ e in ground arith)

  pub IsInTime-iff : (now : ℕ) (s : Signature) → (check_time services now s ≡ true) ↔ IsInTime now s
  unfolding check_time
  IsInTime-iff now s =
      let (issued, issued') = not_after_iff now (times.parse s.issued_at) in
      let (expires, expires') = after_iff now (times.parse s.expires_at) in
      (
        λ h. record {
          issued = issued (ground arith);
          not_expired = elim (Bool-cases (is_empty s.expires_at)) [
            | inl t ↦ inl ((is_empty_iff s.expires_at).0 t)
            | inr t ↦ inr (expires (ground arith))
          ];
        },
        λ i.
            let a = issued' i.issued in
            elim i.not_expired [
              | inl e ↦ let b = (is_empty_iff s.expires_at).1 e in ground arith
              | inr e ↦ let b = expires' e in ground arith
            ],
      )
