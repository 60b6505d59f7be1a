-- ===== src/Discovery/Link/Selection.antt =====
-- Which parameters make a link.
-- The value of the first parameter named `rel`.
use ai_catalog_go.Prelude.{
  map, [], List, some, none, Option, false, inr, inl, ap, sym, refl, any-eq-false_iff, All,
  Bool-cases, if◌then◌else◌, ◌∙◌, ◌∷◌, ◌↔◌, ◌≡◌, ◌≢◌,
}
use ai_catalog_go.Text.{text_eq_iff, codes, text_eq, Bytes}
use ai_catalog_go.Discovery.Link.{Link, new_link, LinkParam, Strings, anchored, first_rel}
use mathlib.Core.Option.{some-injective}

pub data FirstRel (rel : Bytes) : List LinkParam → Type 0 where
  this :
      {p : LinkParam} {ps : List LinkParam}
      → p.name ≡ codes "rel"
      → p.value ≡ rel
      → FirstRel rel (p ∷ ps)
  later :
      {p : LinkParam} {ps : List LinkParam}
      → p.name ≢ codes "rel"
      → FirstRel rel ps
      → FirstRel rel (p ∷ ps)

first_rel_sound : (ps : List LinkParam) (rel : Bytes) → first_rel ps ≡ some rel → FirstRel rel ps
unfolding first_rel
first_rel_sound [] rel e = cc
first_rel_sound (p ∷ ps) rel e = elim (Bool-cases (text_eq p.name (codes "rel"))) [
  | inl t ↦ this ((text_eq_iff p.name (codes "rel")).0 t) (some-injective _ _ (rw t at e))
  | inr t ↦
      later (λ same. let t' = (text_eq_iff p.name (codes "rel")).1 same in cc)
        (first_rel_sound ps rel (rw t at e))
]

first_rel_complete : (ps : List LinkParam) (rel : Bytes) → FirstRel rel ps → first_rel ps ≡ some rel
unfolding first_rel
first_rel_complete [] rel f = elim f [ ]
first_rel_complete (p ∷ ps) rel (this e v) = rw ((text_eq_iff p.name (codes "rel")).1 e, v) refl
first_rel_complete (p ∷ ps) rel (later n f) = elim (Bool-cases (text_eq p.name (codes "rel"))) [
  | inl t ↦ absurd (n ((text_eq_iff p.name (codes "rel")).0 t))
  | inr t ↦ rw t (first_rel_complete ps rel f)
]

text_ne_iff : (s t : Bytes) → (text_eq s t ≡ false) ↔ (s ≢ t)
text_ne_iff s t = (
  λ h e. let k = (text_eq_iff s t).1 e in cc,
  λ n. elim (Bool-cases (text_eq s t)) [ inl k ↦ absurd (n ((text_eq_iff s t).0 k)) | inr k ↦ k ],
)

anchored_iff : (ps : List LinkParam) → (anchored ps ≡ false) ↔ All (λ p. p.name ≢ codes "anchor") ps
unfolding anchored
anchored_iff ps =
    any-eq-false_iff (λ p. text_eq p.name (codes "anchor"))
      (λ p. text_ne_iff p.name (codes "anchor")) ps

module _ (strings : Strings) where
  -- The link that a target and its parameters make.
  pub record IsLinkOf (target : Bytes) (ps : List LinkParam) (l : Link) : Type 0 where
    pub relations : Bytes
    pub first : FirstRel relations ps
    pub not_anchored : All (λ p. p.name ≢ codes "anchor") ps
    pub made : l ≡ record { target = target; rel = map strings.lower (strings.fields relations) }

  made : Bytes → List LinkParam → Option Bytes → Option Link
  made target ps none = none
  made target ps (some rel) =
      if anchored ps
      then none
      else some (record { target = target; rel = map strings.lower (strings.fields rel) })

  -- `newLink` makes a link exactly from parameters with a `rel` and no `anchor`: the relations are
  -- the lowered fields of the first `rel`, and the target is the given one.
  pub new_link_iff :
      (target : Bytes) (ps : List LinkParam) (l : Link)
      → (new_link strings target ps ≡ some l) ↔ IsLinkOf target ps l
  unfolding new_link made
  new_link_iff target ps l = (λ h. read (first_rel ps) refl h, λ i. write i)
    where
      read :
          (o : Option Bytes) → first_rel ps ≡ o → made target ps o ≡ some l → IsLinkOf target ps l
      read none same h = cc
      read (some rel) same h = elim (Bool-cases (anchored ps)) [
        | inl a ↦ let k : none ≡ some l = rw a at h in cc
        | inr a ↦ record {
          relations = rel;
          first = first_rel_sound ps rel same;
          not_anchored = (anchored_iff ps).0 a;
          made = sym (some-injective _ _ (rw a at h));
        }
      ]

      verdict :
          (o : Option Bytes) (rel : Bytes)
          → o ≡ some rel
          → anchored ps ≡ false
          → made target ps o
            ≡ some (record { target = target; rel = map strings.lower (strings.fields rel) })
      verdict none rel e a = cc
      verdict (some r) rel e a = let same = some-injective _ _ e in rw (same, a) refl

      write : IsLinkOf target ps l → new_link strings target ps ≡ some l
      write i =
          verdict (first_rel ps) i.relations (first_rel_complete ps i.relations i.first)
            ((anchored_iff ps).1 i.not_anchored)
          ∙ ap some (sym i.made)
