-- ===== src/Trust/Canonical/Payload.antt =====
-- The payload of a signature against a description of what it leaves out.
-- What the canonicalizer documents: a canonical text is fixed by its members, and repeats no name.
use ai_catalog_go.Prelude.{
  arith, sym, Option-cases, false, true, inr, inl, ap, refl, All, Bool-cases, ◌∙◌, ◌≢◌, [], List,
  some, none, Option, if◌then◌else◌, ◌>>=◌, ◌∷◌, ◌≡◌,
}
use ai_catalog_go.Trust.Canonical.{
  put_signature, opens_object, strip_jws, strip_object, canonicalize_for_signature, sign_members,
  payload_of, set_member, drop_member, additional_signatures_member, jws_member, has_member,
  canonicalize, Jcs, signature_member,
}
use ai_catalog_go.Json.{Json}
use ai_catalog_go.Text.{text_eq_iff, text_eq, Bytes}
use ai_catalog_go.Jws.Parsing.{DistinctNames}
use ai_catalog_go.Jws.{find_member}
use ai_catalog_go.Trust.Canonical.Members.{
  drop-DistinctNames, set-find, drop-absent, find-drop, find-absent, set-absent,
}
use mathlib.Core.Option.{some-injective}
use mathlib.Core.Path.{subst}

pub record JcsLaws (json : Json) (jcs : Jcs) : Type 0 where
  pub restores :
      (source canonical : Bytes) (ms : List (Bytes × Bytes))
      → canonicalize jcs source ≡ some canonical
      → json.object canonical ≡ some ms
      → (jcs.marshal ms >>= canonicalize jcs) ≡ some canonical
  pub distinct :
      (source canonical : Bytes) (ms : List (Bytes × Bytes))
      → canonicalize jcs source ≡ some canonical
      → json.object canonical ≡ some ms
      → DistinctNames ms

module _ (json : Json) (jcs : Jcs) where
  -- The member `signature` without its `jws`, if it is an object that has one.
  abbrev pub without_jws : Option (List (Bytes × Bytes)) → Bytes → Option Bytes
  without_jws none raw = some raw
  without_jws (some signature) raw =
      if has_member jws_member signature
      then jcs.marshal (drop_member jws_member signature)
      else some raw

  -- The members that a signature covers, one at a time.
  abbrev pub signed_members : List (Bytes × Bytes) → Option (List (Bytes × Bytes))
  signed_members [] = some []
  signed_members ((k, v) ∷ ms) = signed_members ms >>= λ rest.
      if text_eq k additional_signatures_member
      then some rest
      else if text_eq k signature_member
      then (without_jws (json.object v) v >>= λ w. some ((k, w) ∷ rest))
      else some ((k, v) ∷ rest)

  -- Without a signature only the additional signatures are left out.
  signed_members-unsigned :
      (ms : List (Bytes × Bytes))
      → find_member signature_member ms ≡ none
      → signed_members ms ≡ some (drop_member additional_signatures_member ms)
  unfolding find_member drop_member
  signed_members-unsigned [] h = refl
  signed_members-unsigned ((k, v) ∷ ms) h = elim (Bool-cases (text_eq k signature_member)) [
    | inl t ↦ let k' : some v ≡ none = rw t at h in cc
    | inr t ↦ elim (Bool-cases (text_eq k additional_signatures_member)) [
      | inl u ↦ rw (u, signed_members-unsigned ms (rw t at h)) refl
      | inr u ↦ rw (u, t, signed_members-unsigned ms (rw t at h)) refl
    ]
  ]

  -- With a signature it is put back without its `jws`.
  abbrev put_back : List (Bytes × Bytes) → Option Bytes → Option (List (Bytes × Bytes))
  put_back ms none = none
  put_back ms (some w) = some (set_member signature_member w ms)

  put_back-cons :
      (k v : Bytes) (ms : List (Bytes × Bytes)) (o : Option Bytes)
      → text_eq k signature_member ≡ false
      → (put_back ms o >>= λ rest. some ((k, v) ∷ rest)) ≡ put_back ((k, v) ∷ ms) o
  unfolding set_member
  put_back-cons k v ms none t = refl
  put_back-cons k v ms (some w) t = rw t refl

  put_back-first :
      (k v : Bytes) (ms : List (Bytes × Bytes)) (o : Option Bytes)
      → text_eq k signature_member ≡ true
      → find_member signature_member ms ≡ none
      → (o >>= λ w. some ((k, w) ∷ ms)) ≡ put_back ((k, v) ∷ ms) o
  unfolding set_member
  put_back-first k v ms none t absent = refl
  put_back-first k v ms (some w) t absent =
      let kept = set-absent signature_member w ms absent in rw (t, kept) refl

  >>=-some : (o : Option (List (Bytes × Bytes))) → (o >>= λ rest. some rest) ≡ o
  >>=-some none = refl
  >>=-some (some ms) = refl

  signed_members-signed :
      (raw : Bytes) (ms : List (Bytes × Bytes))
      → DistinctNames ms
      → find_member signature_member ms ≡ some raw
      → signed_members ms
        ≡ put_back (drop_member additional_signatures_member ms) (without_jws (json.object raw) raw)
  unfolding find_member drop_member
  signed_members-signed raw [] d h = cc
  signed_members-signed raw ((k, v) ∷ ms) (fresh, d) h =
      elim (Bool-cases (text_eq k signature_member)) [
        | inl t ↦
            let same = (text_eq_iff k signature_member).0 t in
            let here : v ≡ raw = some-injective _ _ (rw t at h) in
            let absent =
              find-absent signature_member ms (subst (λ n. All (λ m. m.0 ≢ n) ms) same fresh) in
            let other : text_eq k additional_signatures_member ≡ false =
              ap (λ n. text_eq n additional_signatures_member) same ∙ refl in
            rw (other, signed_members-unsigned ms absent, t, here)
              (put_back-first k raw (drop_member additional_signatures_member ms)
                (without_jws (json.object raw) raw) t (find-drop ms ∙ absent))
        | inr t ↦ elim (Bool-cases (text_eq k additional_signatures_member)) [
          | inl u ↦ rw u (>>=-some (signed_members ms) ∙ signed_members-signed raw ms d (rw t at h))
          | inr u ↦
              rw (u, t)
                (ap (λ o. o >>= λ rest. some ((k, v) ∷ rest))
                    (signed_members-signed raw ms d (rw t at h))
                  ∙ put_back-cons k v (drop_member additional_signatures_member ms)
                      (without_jws (json.object raw) raw) t)
        ]
      ]

  -- The payload by the description: the covered members, written out and canonicalized.
  abbrev pub payload_of_members : Option (List (Bytes × Bytes)) → Option Bytes
  payload_of_members ms = ms >>= λ rest. jcs.marshal rest >>= canonicalize jcs

  module _ (canonical : Bytes) (ms : List (Bytes × Bytes)) (d : DistinctNames ms)
      (restored : (jcs.marshal ms >>= canonicalize jcs) ≡ some canonical) where
    covered : List (Bytes × Bytes)
    covered = drop_member additional_signatures_member ms

    -- Nothing is written out again where nothing was removed: the text would come back.
    payload_of-unstripped :
        payload_of json jcs canonical (has_member additional_signatures_member ms) (covered, false)
        ≡ payload_of_members (some covered)
    unfolding payload_of covered
    payload_of-unstripped = elim (Bool-cases (has_member additional_signatures_member ms)) [
      | inl t ↦ rw t refl
      | inr t ↦
          let whole = drop-absent additional_signatures_member ms t in rw (t, whole) (sym restored)
    ]

    strip_object-payload :
        (raw : Bytes) (o : Option (List (Bytes × Bytes)))
        → set_member signature_member raw covered ≡ covered
        → (strip_object json jcs covered o >>= λ s.
            payload_of json jcs canonical (has_member additional_signatures_member ms) s)
          ≡ payload_of_members (put_back covered (without_jws o raw))
    unfolding payload_of
    strip_object-payload raw none same = rw same payload_of-unstripped
    strip_object-payload raw (some s) same = elim (Bool-cases (has_member jws_member s)) [
      | inr t ↦ rw (t, same) payload_of-unstripped
      | inl t ↦ rw t (written (jcs.marshal (drop_member jws_member s)))
    ]
      where
        written :
            (o : Option Bytes)
            → (put_signature json jcs covered o >>= λ s.
                payload_of json jcs canonical (has_member additional_signatures_member ms) s)
              ≡ payload_of_members (put_back covered o)
        written none = refl
        written (some w) = ground arith

    sign_members-eq : sign_members json jcs canonical ms ≡ payload_of_members (signed_members ms)
    unfolding sign_members strip_jws covered
    sign_members-eq = elim (Option-cases (find_member signature_member ms)) [
      | inl e ↦ rw (find-drop ms, e, signed_members-unsigned ms e) payload_of-unstripped
      | inr (raw, e) ↦
          let same =
            set-find signature_member raw covered
              (drop-DistinctNames additional_signatures_member ms d) (find-drop ms ∙ e) in
          rw (find-drop ms, e, signed_members-signed raw ms d e)
            (strip_object-payload raw (json.object raw) same)
    ]

  -- For a text whose canonical form is an object, `CanonicalizeForSignature` returns what comes of
  -- leaving out the member `additionalSignatures` and the `jws` of the member `signature`, writing
  -- the rest out and canonicalizing it, also where it takes the short way because there is nothing
  -- to leave out. This rests on what the canonicalizer documents.
  pub canonicalize_for_signature_lem :
      JcsLaws json jcs
      → (source canonical : Bytes) (ms : List (Bytes × Bytes))
      → canonicalize jcs source ≡ some canonical
      → opens_object canonical ≡ true
      → json.object canonical ≡ some ms
      → canonicalize_for_signature json jcs source ≡ payload_of_members (signed_members ms)
  unfolding canonicalize_for_signature
  canonicalize_for_signature_lem laws source canonical ms e opens object =
      let d = laws.distinct source canonical ms e object in
      let restored = laws.restores source canonical ms e object in
      rw (e, opens, object) (sign_members-eq canonical ms d restored)
