-- ===== src/Jws/Parsing.antt =====
-- What a parsed header says.
-- No name stands twice.
use ai_catalog_go.Prelude.{
  Option, none, is_empty-eq-false_iff, is_empty, if◌then◌else◌, >>=-eq-some, map, Option-cases, ◌∙◌,
  arith, [], List, some, false, true, inr, inl, sym, refl, Some, All, Bool-cases, ◌∷◌, ◌↔◌, ◌⊎◌,
  ◌≡◌, ◌≢◌,
}
use mathlib.Core.Option.{some-injective}
use ai_catalog_go.Text.{codes, cut, text_eq, text_eq_iff, contains, Bytes}
use ai_catalog_go.Json.{Json}
use ai_catalog_go.Jws.{parse, decode_members, Header, find_member, no_repeats, string_member}
use mathlib.Core.Path.{subst}
use ai_catalog_go.Base64.{base64_decode}

abbrev pub DistinctNames : List (Bytes × Bytes) → Type 0
DistinctNames [] = Unit
DistinctNames ((k, v) ∷ ms) = All (λ m. m.0 ≢ k) ms × DistinctNames ms

contains_cons :
    (k : Bytes) (found : List Bytes) (s : Bytes)
    → (contains (k ∷ found) s ≡ false) ↔ ((s ≢ k) × (contains found s ≡ false))
unfolding contains
contains_cons k found s = (
  λ h. ((λ e. let t = (text_eq_iff k s).1 (sym e) in ground arith), ground arith),
  λ (p, q). elim (Bool-cases (text_eq k s)) [
    | inl t ↦ absurd (p (sym ((text_eq_iff k s).0 t)))
    | inr t ↦ ground arith
  ],
)

module _ (k : Bytes) (found : List Bytes) where
  unseen_cons :
      (ms : List (Bytes × Bytes))
      → All (λ m. contains (k ∷ found) m.0 ≡ false) ms
        ↔ (All (λ m. m.0 ≢ k) ms × All (λ m. contains found m.0 ≡ false) ms)
  unseen_cons [] = (λ _. (tt, tt), λ _. tt)
  unseen_cons (m ∷ ms) = (
    λ (h, hs).
        let (p, q) = (contains_cons k found m.0).0 h in
        let (ps, qs) = (unseen_cons ms).0 hs in ((p, ps), (q, qs)),
    λ ((p, ps), (q, qs)). ((contains_cons k found m.0).1 (p, q), (unseen_cons ms).1 (ps, qs)),
  )

-- The names found so far stand in no further member, and no name stands twice.
no_repeats_iff :
    (found : List Bytes) (ms : List (Bytes × Bytes))
    → (no_repeats found ms ≡ true) ↔ (DistinctNames ms × All (λ m. contains found m.0 ≡ false) ms)
unfolding no_repeats
no_repeats_iff found [] = (λ _. (tt, tt), λ _. refl)
no_repeats_iff found ((k, v) ∷ ms) =
    let (to, from) = no_repeats_iff (k ∷ found) ms in
    let (part, join) = unseen_cons k found ms in
    (
      λ h.
          let (distinct, unseen) = to (ground arith) in
          let (apart, older) = part unseen in ((apart, distinct), (ground arith, older)),
      λ ((apart, distinct), (unseen, older)).
          let rest = from (distinct, join (apart, older)) in ground arith,
    )

All-unseen : (ms : List (Bytes × Bytes)) → All (λ m. contains [] m.0 ≡ false) ms
unfolding contains
All-unseen [] = tt
All-unseen (m ∷ ms) = (refl, All-unseen ms)

module _ {v : Bytes} (a : Bytes) (o : Option Bytes) where
  given : (if is_empty a then none else o) ≡ some v → is_empty a ≡ false
  given h = ground arith

  else_case : (if is_empty a then none else o) ≡ some v → o ≡ some v
  else_case h = ground arith

module _ (json : Json) where
  -- What `stringMember` reads: "" with no member of the name, or what `json.Unmarshal` reads of it into
  -- a string variable, which is the string that it is, and "" for null.
  abbrev pub Reads : List (Bytes × Bytes) → Bytes → Bytes → Type 0
  Reads fields name v =
      (All (λ m. m.0 ≢ name) fields × (v ≡ []))
      ⊎ Some (λ m. (m.0 ≡ name) × (json.text m.1 ≡ some v)) fields

  module _ (k w name : Bytes) (ms : List (Bytes × Bytes)) where
    string_member_hit : text_eq k name ≡ true → string_member json ((k, w) ∷ ms) name ≡ json.text w
    unfolding string_member find_member
    string_member_hit t = rw (t, string_member)

    string_member_miss :
        text_eq k name ≡ false → string_member json ((k, w) ∷ ms) name ≡ string_member json ms name
    unfolding string_member find_member
    string_member_miss t = rw (t, string_member)

  string_member_sound :
      (fields : List (Bytes × Bytes)) (name v : Bytes)
      → string_member json fields name ≡ some v
      → Reads fields name v
  string_member_sound [] name v h = inl (tt, unfold string_member find_member in cc)
  string_member_sound ((k, w) ∷ ms) name v h = elim (Bool-cases (text_eq k name)) [
    | inl t ↦ inr (inl ((text_eq_iff k name).0 t, sym (string_member_hit k w name ms t) ∙ h))
    | inr t ↦ elim (string_member_sound ms name v (sym (string_member_miss k w name ms t) ∙ h)) [
      | inl (apart, e) ↦ inl (((λ e. cc ((text_eq_iff k name).1 e)), apart), e)
      | inr there ↦ inr (inr there)
    ]
  ]

  absent_after :
      (ms : List (Bytes × Bytes)) (name v : Bytes)
      → All (λ m. m.0 ≢ name) ms
      → ¬ Some (λ m. (m.0 ≡ name) × (json.text m.1 ≡ some v)) ms
  absent_after [] name v h s = s
  absent_after (m ∷ ms) name v (h, hs) (inl (e, p)) = h e
  absent_after (m ∷ ms) name v (h, hs) (inr s) = absent_after ms name v hs s

  string_member_complete :
      (fields : List (Bytes × Bytes)) (name v : Bytes)
      → DistinctNames fields
      → Reads fields name v
      → string_member json fields name ≡ some v
  string_member_complete [] name v d (inl (apart, e)) = unfold string_member find_member in rw e
  string_member_complete [] name v d (inr there) = absurd there
  string_member_complete ((k, w) ∷ ms) name v (dk, d) (inl ((h, apart), e)) =
      string_member_miss k w name ms (ground (arith, text_eq_iff k name))
      ∙ string_member_complete ms name v d (inl (apart, e))
  string_member_complete ((k, w) ∷ ms) name v (dk, d) (inr (inl (e, read))) =
      string_member_hit k w name ms ((text_eq_iff k name).1 e) ∙ read
  string_member_complete ((k, w) ∷ ms) name v (dk, d) (inr (inr there)) =
      elim (Bool-cases (text_eq k name)) [
        | inl t ↦ absurd (
            absent_after ms name v
              (subst (λ n. All (λ m. m.0 ≢ n) ms) ((text_eq_iff k name).0 t) dk) there)
        | inr t ↦ string_member_miss k w name ms t ∙ string_member_complete ms name v d (inr there)
      ]

  -- A protected header as it is written.
  pub record IsHeader (signature : Bytes) (h : Header) : Type 0 where
    pub raw : Bytes
    pub fields : List (Bytes × Bytes)
    pub encoded : base64_decode (cut signature b'.').0 ≡ some raw
    pub object : json.object raw ≡ some fields
    pub distinct : DistinctNames fields
    pub algorithm : Reads fields (codes "alg") h.algorithm
    pub some_algorithm : h.algorithm ≢ []
    pub key_id : Reads fields (codes "kid") h.key_id
    pub type : Reads fields (codes "typ") h.type
    pub names : h.members ≡ map (λ (m : Bytes × Bytes). m.0) fields

  decode_members_iff :
      (raw : Bytes) (fields : List (Bytes × Bytes))
      → (decode_members json raw ≡ some fields)
        ↔ ((json.object raw ≡ some fields) × DistinctNames fields)
  unfolding decode_members
  decode_members_iff raw fields = (
    λ h. elim (Option-cases (json.object raw)) [
      | inl missing ↦ absurd (ground arith)
      | inr (ms, e) ↦
          let same : ms ≡ fields = ground arith in
          (cc, rw same at ((no_repeats_iff [] ms).0 (ground arith)).0)
    ],
    λ (e, d). rw (e, (no_repeats_iff [] fields).1 (d, All-unseen fields)),
  )

  header_of_parts :
      (signature : Bytes) (h : Header) (raw : Bytes) (fields : List (Bytes × Bytes))
      (algorithm key_id type : Bytes)
      → base64_decode (cut signature b'.').0 ≡ some raw
      → decode_members json raw ≡ some fields
      → string_member json fields (codes "alg") ≡ some algorithm
      → is_empty algorithm ≡ false
      → string_member json fields (codes "kid") ≡ some key_id
      → string_member json fields (codes "typ") ≡ some type
      → some (record {
        algorithm = algorithm;
        key_id = key_id;
        type = type;
        members = map (λ (m : Bytes × Bytes). m.0) fields;
      })
        ≡ some h
      → IsHeader signature h
  header_of_parts signature h raw fields algorithm key_id type encoded decoded alg there kid typ
        same =
      let (object, distinct) = (decode_members_iff raw fields).0 decoded in
      subst (IsHeader signature) (some-injective _ _ same) (record {
        raw = raw;
        fields = fields;
        encoded = encoded;
        object = object;
        distinct = distinct;
        algorithm = string_member_sound fields (codes "alg") algorithm alg;
        some_algorithm = (is_empty-eq-false_iff algorithm).0 there;
        key_id = string_member_sound fields (codes "kid") key_id kid;
        type = string_member_sound fields (codes "typ") type typ;
        names = refl;
      })

  parse_sound :
      (signature : Bytes) (h : Header) → parse json signature ≡ some h → IsHeader signature h
  unfolding parse
  parse_sound signature h p =
      let (raw, encoded, p₁) = >>=-eq-some (base64_decode (cut signature b'.').0) _ p in
      let (fields, decoded, p₂) = >>=-eq-some (decode_members json raw) _ p₁ in
      let (algorithm, alg, p₃) = >>=-eq-some (string_member json fields (codes "alg")) _ p₂ in
      let (key_id, kid, p₄) =
        >>=-eq-some (if is_empty algorithm then none else string_member json fields (codes "kid")) _
          p₃ in
      let (type, typ, p₅) = >>=-eq-some (string_member json fields (codes "typ")) _ p₄ in
      header_of_parts signature h raw fields algorithm key_id type encoded decoded alg
        (given algorithm _ kid) (else_case algorithm _ kid) typ p₅

  parse_complete :
      (signature : Bytes) (h : Header) → IsHeader signature h → parse json signature ≡ some h
  unfolding parse
  parse_complete signature h i =
      let read = λ (name v : Bytes) (r : Reads i.fields name v).
        string_member_complete i.fields name v i.distinct r in
      rw (
        i.encoded,
        (decode_members_iff i.raw i.fields).1 (i.object, i.distinct),
        read (codes "alg") h.algorithm i.algorithm,
        (is_empty-eq-false_iff h.algorithm).1 i.some_algorithm,
        read (codes "kid") h.key_id i.key_id,
        read (codes "typ") h.type i.type,
        ← i.names,
      )

  -- `Parse` succeeds exactly where what stands before the first dot is base64url of one JSON object
  -- with no repeated name, whose members "alg", "kid" and "typ", where present, are each a string or
  -- null, with "alg" a string that is not empty; the header holds those strings, "" for a member that is
  -- missing or null, and all names.
  pub parse_iff :
      (signature : Bytes) (h : Header) → (parse json signature ≡ some h) ↔ IsHeader signature h
  parse_iff signature h = (parse_sound signature h, parse_complete signature h)
