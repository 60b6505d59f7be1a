-- ===== src/Validate/Did/Key.antt =====
-- Which key `selectKey` gives.
use ai_catalog_go.Prelude.{
  ◌>>=◌, append_assoc, append-nil, sym, any_iff, Some, any, >>=-eq-some, ◌∙◌, [], List, some, none,
  Option, false, true, Bool, inr, inl, ap, refl, select, Bool-cases, ◌||◌, ◌∷◌, ◌↔◌, ◌⊎◌, ◌++◌, ◌≡◌,
}
use ai_catalog_go.Validate.Did.{
  authorized_key, select_key, Found, methods_of, DidDocument, add_assertions, add_embedded,
  add_assertion, refers, DidJson, VerificationMethod, method_key, only_method,
}
use ai_catalog_go.Text.{text_eq_iff, text_eq, Bytes}
use ai_catalog_go.Json.{Json}
use ai_catalog_go.Validate.Did.Single.{
  Refers-on, OnlyOne-iff, OnlyOne, select-append, Refers-iff, Refers,
}
use ai_catalog_go.Validate.Did.Given.{
  only_method_iff, or_assoc, or_true, GivesKey-iff, GivesKey, or_false,
}

module _ (json : Json) (did_json : DidJson) where
  -- The methods that stand in `assertionMethod` themselves.
  abbrev pub embedded_at : Bytes → Option Bytes → List VerificationMethod
  embedded_at raw (some reference) = []
  embedded_at raw none = elim (did_json.embedded raw) [ none ↦ [] | some m ↦ m ∷ [] ]

  abbrev pub embedded_methods : List Bytes → List VerificationMethod
  embedded_methods [] = []
  embedded_methods (raw ∷ raws) = embedded_at raw (json.text raw) ++ embedded_methods raws

  -- An assertion method that authorizes the key: a reference to it, or the method itself.
  abbrev pub Authorizes : Bytes → Bytes → Bytes → Type 0
  Authorizes signer kid raw =
      ((reference : Bytes) × (json.text raw ≡ some reference) × Refers signer kid reference)
      ⊎ ((json.text raw ≡ none)
          × ((m : VerificationMethod) × (did_json.embedded raw ≡ some m) × Refers signer kid m.id))

  module _ (signer kid : Bytes) where
    abbrev wanted : VerificationMethod → Bool
    wanted m = refers signer kid m.id

    -- one round of the loop adds what stands there and whether it authorizes the key
    abbrev authorizes : Bytes → Option Bytes → Bool
    authorizes raw (some reference) = refers signer kid reference
    authorizes raw none = elim (did_json.embedded raw) [
      | none ↦ false
      | some m ↦ refers signer kid m.id
    ]

    add_assertion-eq :
        (ms : List VerificationMethod) (authorized : Bool) (raw : Bytes) (o : Option Bytes)
        → add_assertion json did_json signer kid (ms, authorized) raw o
          ≡ (ms ++ select wanted (embedded_at raw o), authorized || authorizes raw o)
    add_assertion-eq ms authorized raw (some reference) = rw (append-nil ms) refl
    add_assertion-eq ms authorized raw none = embed (did_json.embedded raw)
      where
        embed :
            (o : Option VerificationMethod)
            → add_embedded signer kid (ms, authorized) o ≡ (
              ms ++ select wanted (elim o [ none ↦ [] | some m ↦ m ∷ [] ]),
              authorized || elim o [ none ↦ false | some m ↦ refers signer kid m.id ],
            )
        embed none = rw (append-nil ms, or_false authorized) refl
        embed (some m) = elim (Bool-cases (refers signer kid m.id)) [
          | inl t ↦ rw (t, or_true authorized) refl
          | inr t ↦ rw (t, append-nil ms, or_false authorized) refl
        ]

    add_assertions-eq :
        (ms : List VerificationMethod) (authorized : Bool) (raws : List Bytes)
        → add_assertions json did_json signer kid (ms, authorized) raws ≡ (
          ms ++ select wanted (embedded_methods raws),
          authorized || any (λ raw. authorizes raw (json.text raw)) raws,
        )
    unfolding add_assertions
    add_assertions-eq ms authorized [] = rw (append-nil ms, or_false authorized) refl
    add_assertions-eq ms authorized (raw ∷ raws) =
        let here = embedded_at raw (json.text raw) in
        rw
          (
            add_assertion-eq ms authorized raw (json.text raw),
            add_assertions-eq (ms ++ select wanted here)
                (authorized || authorizes raw (json.text raw)) raws,
            or_assoc authorized (authorizes raw (json.text raw))
                (any (λ r. authorizes r (json.text r)) raws),
            select-append wanted (Refers-on signer kid) here (embedded_methods raws),
            append_assoc ms (select wanted here) (select wanted (embedded_methods raws)),
          )
          refl

    Authorizes-iff :
        (raw : Bytes) → (authorizes raw (json.text raw) ≡ true) ↔ Authorizes signer kid raw
    Authorizes-iff raw = (
      read (json.text raw) refl,
      elim [
        | inl (reference, e, r) ↦ ap (authorizes raw) e ∙ (Refers-iff signer kid reference).1 r
        | inr (e, (m, f, r)) ↦
            ap (authorizes raw) e ∙ (ap stands f ∙ (Refers-iff signer kid m.id).1 r)
      ],
    )
      where
        stands : Option VerificationMethod → Bool
        stands o = elim o [ none ↦ false | some m ↦ refers signer kid m.id ]

        read_embedded :
            (o : Option VerificationMethod)
            → did_json.embedded raw ≡ o
            → stands o ≡ true
            → (m : VerificationMethod) × (did_json.embedded raw ≡ some m) × Refers signer kid m.id
        read_embedded none e h = cc
        read_embedded (some m) e h = (m, e, (Refers-iff signer kid m.id).0 h)

        read :
            (o : Option Bytes)
            → json.text raw ≡ o
            → authorizes raw o ≡ true
            → Authorizes signer kid raw
        read none e h = inr (e, read_embedded (did_json.embedded raw) refl h)
        read (some reference) e h = inl (reference, e, (Refers-iff signer kid reference).0 h)

    -- A DID document of the signer that gives the key: exactly one method of the document has the
    -- identifier of the key, the document authorizes it for assertions, and it gives its key.
    pub record IsKeyOf (document jwk : Bytes) : Type 0 where
      pub parsed : DidDocument
      pub decoded : did_json.document document ≡ some parsed
      pub of_signer : parsed.id ≡ signer
      pub method : VerificationMethod
      pub only :
          OnlyOne
            (λ m. Refers signer kid m.id)
            (parsed.verification_method ++ embedded_methods parsed.assertion_method)
            method
      pub authorized : Some (Authorizes signer kid) parsed.assertion_method
      pub gives : GivesKey signer method jwk

    methods_of-eq :
        (d : DidDocument)
        → methods_of json did_json d signer kid ≡ (
          select wanted (d.verification_method ++ embedded_methods d.assertion_method),
          any (λ raw. authorizes raw (json.text raw)) d.assertion_method,
        )
    unfolding methods_of
    methods_of-eq d =
        rw
          (
            add_assertions-eq (select wanted d.verification_method) false d.assertion_method,
            select-append wanted (Refers-on signer kid) d.verification_method
                (embedded_methods d.assertion_method),
          )
          refl

    authorized_key_sound :
        (came : Found) (jwk : Bytes)
        → authorized_key json did_json signer came ≡ some jwk
        → (came.1 ≡ true) × ((m : VerificationMethod) × (came.0 ≡ m ∷ []) × GivesKey signer m jwk)
    authorized_key_sound (ms, false) jwk h = cc
    authorized_key_sound (ms, true) jwk h =
        let (m, one, key) = >>=-eq-some (only_method ms) (method_key signer) h in
        (refl, (m, (only_method_iff ms m).0 one, (GivesKey-iff signer m jwk).0 key))

    select_key_sound :
        (document jwk : Bytes)
        → select_key json did_json document signer kid ≡ some jwk
        → IsKeyOf document jwk
    unfolding select_key
    select_key_sound document jwk h =
        let (d, decoded, rest) = >>=-eq-some (did_json.document document) _ h in
        elim (Bool-cases (text_eq d.id signer)) [
          | inr t ↦ let k : none ≡ some jwk = rw t at rest in cc
          | inl t ↦
              let (came, (m, one, key)) =
                authorized_key_sound (methods_of json did_json d signer kid) jwk (rw t at rest) in
              let same = methods_of-eq d in
              record {
                parsed = d;
                decoded = decoded;
                of_signer = (text_eq_iff d.id signer).0 t;
                method = m;
                only =
                    (OnlyOne-iff wanted (Refers-on signer kid) _ m).0
                      (sym (ap (λ f. f.0) same) ∙ one);
                authorized =
                    (any_iff (λ raw. authorizes raw (json.text raw)) Authorizes-iff
                        d.assertion_method).0
                      (sym (ap (λ f. f.1) same) ∙ came);
                gives = key;
              }
        ]

    select_key_complete :
        (document jwk : Bytes)
        → IsKeyOf document jwk
        → select_key json did_json document signer kid ≡ some jwk
    unfolding select_key
    select_key_complete document jwk i =
        let one = (OnlyOne-iff wanted (Refers-on signer kid) _ i.method).1 i.only in
        let came =
          (any_iff (λ raw. authorizes raw (json.text raw)) Authorizes-iff
              i.parsed.assertion_method).1
            i.authorized in
        let key = (GivesKey-iff signer i.method jwk).1 i.gives in
        rw
          (
            i.decoded,
            (text_eq_iff i.parsed.id signer).1 i.of_signer,
            methods_of-eq i.parsed,
            one,
            came,
          )
          (ap (λ o. o >>= method_key signer) ((only_method_iff (i.method ∷ []) i.method).1 refl)
            ∙ key)

    -- `selectKey` gives a key exactly where the document is the signer's, exactly one of its methods,
    -- those embedded in `assertionMethod` included, has the identifier `kid`, `assertionMethod`
    -- refers to it or embeds it, and the method is controlled by the signer and has a key.
    pub select_key_iff :
        (document jwk : Bytes)
        → (select_key json did_json document signer kid ≡ some jwk) ↔ IsKeyOf document jwk
    select_key_iff document jwk = (select_key_sound document jwk, select_key_complete document jwk)
