-- ===== src/Trust/Es256/Key/Accepted.antt =====
-- `ParseES256Key` against the rules for a verification key.
use ai_catalog_go.Prelude.{
  false, Bool, Bool-cases, ◌>>=◌, ◌&&◌, arith, List, some, none, Option, not, true, inr, inl, ap,
  sym, refl, Some, >>=-eq-some, is_some, ◌∙◌, ◌∷◌, ◌↔◌, ◌⊎◌, ◌++◌, ◌≡◌,
}
use ai_catalog_go.Json.{last_member, Json}
use ai_catalog_go.Text.{text_eq_iff, text_eq, contains_iff, codes, Bytes}
use ai_catalog_go.Trust.Es256.Key.{
  coordinate, sec1_uncompress, text_member, parse_members, parse_es256_key, permits_verify, permits,
  check_key_use,
}
use ai_catalog_go.Trust.Es256.{algorithm_es256, Ecdsa}
use ai_catalog_go.Trust.Es256.Key.Rule.{
  Coordinate-iff, Holds-iff, HoldsIfPresent-iff, PermitsVerify, Coordinate, HoldsIfPresent, Holds,
}
use mathlib.Core.Option.{some-injective}
use mathlib.Core.Path.{subst}

module _ (json : Json) where
  permits_iff :
      (o : Option (List Bytes))
      → (permits json o ≡ true) ↔ (
          (operations : List Bytes) × (o ≡ some operations)
          × Some (λ x. x ≡ codes "verify") operations)
  permits_iff none = (λ h. cc, λ (ops, e, m). cc)
  permits_iff (some ops) = (
    λ h. (ops, refl, (contains_iff ops (codes "verify")).0 h),
    λ (ops', e, m).
        let same = some-injective _ _ e in
        (contains_iff ops (codes "verify")).1
          (subst (λ l. Some (λ x. x ≡ codes "verify") l) (sym same) m),
  )

  PermitsVerify-iff :
      (o : Option Bytes)
      → (permits_verify json o ≡ true) ↔ (
          (o ≡ none)
          ⊎ ((raw : Bytes) × (operations : List Bytes) × (o ≡ some raw)
              × (json.texts raw ≡ some operations)
              × Some (λ x. x ≡ codes "verify") operations))
  PermitsVerify-iff none = (λ _. inl refl, λ _. refl)
  PermitsVerify-iff (some raw) = (
    λ h. let (ops, e, m) = (permits_iff (json.texts raw)).0 h in inr (raw, ops, refl, e, m),
    elim [
      | inl e ↦ let k : none ≡ some raw = sym e in cc
      | inr (raw', ops, same, e, m) ↦
          (permits_iff (json.texts raw)).1 (ops, ap json.texts (some-injective _ _ same) ∙ e, m)
    ],
  )

  -- What a key may be used for: it holds no private part, and its members allow verification.
  pub record VerifiesEs256 (ms : List (Bytes × Bytes)) : Type 0 where
    pub public_only : last_member (codes "d") ms ≡ none
    pub algorithm : HoldsIfPresent json ms (codes "alg") algorithm_es256
    pub use_for_signatures : HoldsIfPresent json ms (codes "use") (codes "sig")
    pub operations : PermitsVerify json ms

  missing_iff : (o : Option Bytes) → (not (is_some o) ≡ true) ↔ (o ≡ none)
  missing_iff none = (λ _. refl, λ _. refl)
  missing_iff (some b) = (λ h. cc, λ e. cc)

  VerifiesEs256-iff :
      (ms : List (Bytes × Bytes)) → (check_key_use json ms ≡ true) ↔ VerifiesEs256 ms
  unfolding check_key_use
  VerifiesEs256-iff ms =
      let (no_d, no_d') = missing_iff (last_member (codes "d") ms) in
      let (alg, alg') = HoldsIfPresent-iff json ms (codes "alg") algorithm_es256 (λ e. cc) in
      let (sig, sig') = HoldsIfPresent-iff json ms (codes "use") (codes "sig") (λ e. cc) in
      let (ops, ops') = PermitsVerify-iff (last_member (codes "key_ops") ms) in
      (
        λ h. record {
          public_only = no_d (ground arith);
          algorithm = alg (ground arith);
          use_for_signatures = sig (ground arith);
          operations = ops (ground arith);
        },
        λ v.
            let a = no_d' v.public_only in
            let b = alg' v.algorithm in
            let c = sig' v.use_for_signatures in let d = ops' v.operations in ground arith,
      )

  suits : List (Bytes × Bytes) → Bool
  suits ms =
      text_eq (text_member json ms (codes "kty")) (codes "EC")
      && text_eq (text_member json ms (codes "crv")) (codes "P-256")
      && check_key_use json ms

  suits_iff :
      (ms : List (Bytes × Bytes))
      → (suits ms ≡ true) ↔ (
          Holds json ms (codes "kty") (codes "EC")
          × (Holds json ms (codes "crv") (codes "P-256") × VerifiesEs256 ms))
  unfolding suits
  suits_iff ms =
      let (kty, kty') = Holds-iff json ms (codes "kty") (codes "EC") (λ e. cc) in
      let (crv, crv') = Holds-iff json ms (codes "crv") (codes "P-256") (λ e. cc) in
      let (used, used') = VerifiesEs256-iff ms in
      let (same, same') = text_eq_iff (text_member json ms (codes "kty")) (codes "EC") in
      let (fits, fits') = text_eq_iff (text_member json ms (codes "crv")) (codes "P-256") in
      (
        λ h. (kty (same (ground arith)), (crv (fits (ground arith)), used (ground arith))),
        λ (k, (c, u)).
            let k' = same' (kty' k) in let c' = fits' (crv' c) in let u' = used' u in ground arith,
      )

  module _ {Key : Type 0} (ecdsa : Ecdsa Key) where
    -- A JWK that is a P-256 verification key.
    pub record IsKey (jwk : Bytes) (key : Key) : Type 0 where
      pub members : List (Bytes × Bytes)
      pub is_object : json.object jwk ≡ some members
      pub key_type : Holds json members (codes "kty") (codes "EC")
      pub curve : Holds json members (codes "crv") (codes "P-256")
      pub key_use : VerifiesEs256 members
      pub x : Bytes
      pub y : Bytes
      pub x_member : Coordinate json members (codes "x") x
      pub y_member : Coordinate json members (codes "y") y
      pub on_curve : ecdsa.parse_key (sec1_uncompress ∷ (x ++ y)) ≡ some key

    point_of : List (Bytes × Bytes) → Option Key
    point_of ms = coordinate json ms (codes "x") >>= λ x.
        coordinate json ms (codes "y") >>= λ y. ecdsa.parse_key (sec1_uncompress ∷ (x ++ y))

    parse_suitable :
        (ms : List (Bytes × Bytes)) → suits ms ≡ true → parse_members json ecdsa ms ≡ point_of ms
    unfolding parse_members point_of suits
    parse_suitable ms h = ground arith

    parse_unsuitable :
        (ms : List (Bytes × Bytes)) → suits ms ≡ false → parse_members json ecdsa ms ≡ none
    unfolding parse_members suits
    parse_unsuitable ms h = ground arith

    IsKey-sound :
        (jwk : Bytes) (key : Key) → parse_es256_key json ecdsa jwk ≡ some key → IsKey jwk key
    unfolding parse_es256_key point_of
    IsKey-sound jwk key h =
        let (ms, object, parsed) = >>=-eq-some (json.object jwk) (parse_members json ecdsa) h in
        elim (Bool-cases (suits ms)) [
          | inl t ↦
              let (kty, (crv, key_use)) = (suits_iff ms).0 t in
              let (x, x_read, rest) = >>=-eq-some _ _ (sym (parse_suitable ms t) ∙ parsed) in
              let (y, y_read, point) = >>=-eq-some _ _ rest in
              record {
                members = ms;
                is_object = object;
                key_type = kty;
                curve = crv;
                key_use = key_use;
                x = x;
                y = y;
                x_member = (Coordinate-iff json ms (codes "x") x).0 x_read;
                y_member = (Coordinate-iff json ms (codes "y") y).0 y_read;
                on_curve = point;
              }
          | inr t ↦ let k : none ≡ some key = sym (parse_unsuitable ms t) ∙ parsed in cc
        ]

    IsKey-complete :
        (jwk : Bytes) (key : Key) → IsKey jwk key → parse_es256_key json ecdsa jwk ≡ some key
    unfolding parse_es256_key point_of
    IsKey-complete jwk key i =
        let fits = (suits_iff i.members).1 (i.key_type, (i.curve, i.key_use)) in
        let x_read = (Coordinate-iff json i.members (codes "x") i.x).1 i.x_member in
        let y_read = (Coordinate-iff json i.members (codes "y") i.y).1 i.y_member in
        let point : point_of i.members ≡ some key = rw (x_read, y_read) i.on_curve in
        rw i.is_object (parse_suitable i.members fits ∙ point)

    -- `ParseES256Key` reads a key exactly from a JSON object whose `kty` is `EC` and whose `crv` is
    -- `P-256`, which holds no private part, whose `alg`, `use` and `key_ops` allow the verification
    -- of ES256 where they are there, and whose `x` and `y` are base64url of 32 bytes each and
    -- together a point of the curve.
    pub parse_es256_key_iff :
        (jwk : Bytes) (key : Key) → (parse_es256_key json ecdsa jwk ≡ some key) ↔ IsKey jwk key
    parse_es256_key_iff jwk key = (IsKey-sound jwk key, IsKey-complete jwk key)
