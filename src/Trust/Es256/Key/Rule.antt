-- ===== src/Trust/Es256/Key/Rule.antt =====
-- Which keys are read.
use ai_catalog_go.Prelude.{
  arith, false, true, is_some, Bool-cases, ◌==◌, ◌∷◌, [], List, some, none, Option, inr, inl, ap,
  sym, refl, Some, length, Option-cases, ◌∙◌, ◌↔◌, ◌⊎◌, ◌≡◌, ◌≢◌,
}
use ai_catalog_go.Json.{last_member, Json}
use ai_catalog_go.Text.{text_eq_iff, codes, Bytes}
use ai_catalog_go.Base64.{base64_decode}
use ai_catalog_go.Trust.Es256.Key.{coordinate, full_length, allows, text_member, or_empty, text_of}
use ai_catalog_go.Trust.Es256.{coordinate_len}
use mathlib.Core.Option.{some-injective}

module _ (json : Json) where
  -- The member of that name is there and is the string.
  abbrev pub Holds : List (Bytes × Bytes) → Bytes → Bytes → Type 0
  Holds ms name value =
      (raw : Bytes) × (last_member name ms ≡ some raw) × (json.text raw ≡ some value)

  abbrev pub HoldsIfPresent : List (Bytes × Bytes) → Bytes → Bytes → Type 0
  HoldsIfPresent ms name value = (last_member name ms ≡ none) ⊎ Holds ms name value

  -- A coordinate in base64url.
  abbrev pub Coordinate : List (Bytes × Bytes) → Bytes → Bytes → Type 0
  Coordinate ms name c =
      (t : Bytes) × Holds ms name t × (base64_decode t ≡ some c) × (length c ≡ coordinate_len)

  -- The operations, where the key lists them, permit verification.
  abbrev pub PermitsVerify : List (Bytes × Bytes) → Type 0
  PermitsVerify ms =
      (last_member (codes "key_ops") ms ≡ none)
      ⊎ ((raw : Bytes) × (operations : List Bytes) × (last_member (codes "key_ops") ms ≡ some raw)
          × (json.texts raw ≡ some operations)
          × Some (λ o. o ≡ codes "verify") operations)

  or_empty_iff : (o : Option Bytes) (v : Bytes) → v ≢ [] → (or_empty o ≡ v) ↔ (o ≡ some v)
  or_empty_iff none v n = (λ h. absurd (n (sym h)), λ e. cc)
  or_empty_iff (some t) v n = (λ h. ap some h, λ e. some-injective _ _ e)

  text_of_iff :
      (o : Option Bytes) (value : Bytes)
      → value ≢ []
      → (text_of json o ≡ value) ↔ ((raw : Bytes) × (o ≡ some raw) × (json.text raw ≡ some value))
  text_of_iff none value n = (λ h. absurd (n (sym h)), λ (raw, e, t). cc)
  text_of_iff (some raw) value n = (
    λ h. (raw, refl, (or_empty_iff (json.text raw) value n).0 h),
    λ (raw', e, t).
        (or_empty_iff (json.text raw) value n).1 (ap json.text (some-injective _ _ e) ∙ t),
  )

  pub Holds-iff :
      (ms : List (Bytes × Bytes)) (name value : Bytes)
      → value ≢ []
      → (text_member json ms name ≡ value) ↔ Holds ms name value
  unfolding text_member
  Holds-iff ms name value n = text_of_iff (last_member name ms) value n

  pub HoldsIfPresent-iff :
      (ms : List (Bytes × Bytes)) (name value : Bytes)
      → value ≢ []
      → (allows json ms name value ≡ true) ↔ HoldsIfPresent ms name value
  unfolding allows
  HoldsIfPresent-iff ms name value n = (
    λ h. elim (Option-cases (last_member name ms)) [
      | inl e ↦ inl e
      | inr (raw, e) ↦
          let there : is_some (last_member name ms) ≡ true = ap is_some e in
          inr (
            (Holds-iff ms name value n).0
              ((text_eq_iff (text_member json ms name) value).0 (ground arith)))
    ],
    elim [
      | inl e ↦ let missing : is_some (last_member name ms) ≡ false = ap is_some e in ground arith
      | inr holds ↦ ground (
        arith,
        (text_eq_iff (text_member json ms name) value).1 ((Holds-iff ms name value n).1 holds),
      )
    ],
  )

  full_length_iff :
      (o : Option Bytes) (c : Bytes)
      → (full_length json o ≡ some c) ↔ ((o ≡ some c) × (length c ≡ coordinate_len))
  full_length_iff none c = (λ h. cc, λ (e, l). cc)
  full_length_iff (some d) c = elim (Bool-cases (length d == coordinate_len)) [
    | inl t ↦
        rw t (λ h. (h, let same = some-injective _ _ h in rw (← same) (ground arith)), λ (e, l). e)
    | inr t ↦ rw t (
      λ h. cc,
      λ (e, l).
          let same = some-injective _ _ e in
          let l' : length d ≡ coordinate_len = rw same l in absurd (ground arith),
    )
  ]

  pub Coordinate-iff :
      (ms : List (Bytes × Bytes)) (name c : Bytes)
      → (coordinate json ms name ≡ some c) ↔ Coordinate ms name c
  unfolding coordinate base64_decode
  Coordinate-iff ms name c = (read (text_member json ms name) refl, write)
    where
      read :
          (t : Bytes)
          → text_member json ms name ≡ t
          → full_length json (base64_decode (text_member json ms name)) ≡ some c
          → Coordinate ms name c
      read [] same h =
          let (e, l) = (full_length_iff (base64_decode (text_member json ms name)) c).0 h in
          let empty : c ≡ [] = some-injective _ _ (sym (sym (ap base64_decode same) ∙ e)) in
          let zero_long : length c ≡ 0 = ap length empty in absurd (omega arith)
      read (b ∷ t) same h =
          let (e, l) = (full_length_iff (base64_decode (text_member json ms name)) c).0 h in
          (b ∷ t, (Holds-iff ms name (b ∷ t) (λ k. cc)).0 same, sym (ap base64_decode same) ∙ e, l)

      write :
          Coordinate ms name c
          → full_length json (base64_decode (text_member json ms name)) ≡ some c
      write ([], holds, e, l) =
          let empty : c ≡ [] = some-injective _ _ (sym e) in
          let zero_long : length c ≡ 0 = ap length empty in absurd (omega arith)
      write (b ∷ t, holds, e, l) =
          let same = (Holds-iff ms name (b ∷ t) (λ k. cc)).1 holds in
          (full_length_iff (base64_decode (text_member json ms name)) c).1
            (ap base64_decode same ∙ e, l)
