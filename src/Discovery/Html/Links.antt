-- ===== src/Discovery/Html/Links.antt =====
-- What the elements of a document point to, described apart from the code.
-- The values that a function finds in a list, in order.
use ai_catalog_go.Prelude.{
  arith, not, false, ap, any_iff, is_empty-eq-false_iff, is_empty_iff, is_empty, if◌then◌else◌,
  ◌&&◌, [], List, some, none, Option, true, inr, inl, sym, refl, Some, Option-cases, Bool-cases,
  ◌∙◌, ◌∷◌, ◌↔◌, ◌≡◌, ◌≢◌,
}
use ai_catalog_go.Discovery.Html.{has_rel, link_href, Token, Html, value_or_empty, start_tag}
use ai_catalog_go.Text.{codes, text_eq_iff, text_eq, Bytes}
use mathlib.Core.Path.{subst}
use ai_catalog_go.Jws.{find_member}
use ai_catalog_go.Discovery.Link.{Strings}
use mathlib.Core.Option.{some-injective}

unfoldable pub found_in {ℓ k} : {A : Type ℓ} {B : Type k} → (A → Option B) → List A → List B
found_in f [] = []
found_in f (x ∷ xs) = elim (f x) [ none ↦ found_in f xs | some y ↦ y ∷ found_in f xs ]

pub found_in-none {ℓ k} :
    {A : Type ℓ} {B : Type k} (f : A → Option B) (x : A) (xs : List A)
    → f x ≡ none
    → found_in f (x ∷ xs) ≡ found_in f xs
unfolding found_in
found_in-none f x xs e = rw (e, found_in) refl

pub found_in-some {ℓ k} :
    {A : Type ℓ} {B : Type k} (f : A → Option B) (x : A) (y : B) (xs : List A)
    → f x ≡ some y
    → found_in f (x ∷ xs) ≡ y ∷ found_in f xs
unfolding found_in
found_in-some f x y xs e = rw (e, found_in) refl

-- The value of an attribute: of the first of its name, or "" with none.
pub data IsValue (name : Bytes) : List (Bytes × Bytes) → Bytes → Type 0 where
  missing : IsValue name [] []
  here : (value : Bytes) (rest : List (Bytes × Bytes)) → IsValue name ((name, value) ∷ rest) value
  there :
      (other_name other_value value : Bytes) (rest : List (Bytes × Bytes))
      → other_name ≢ name
      → IsValue name rest value
      → IsValue name ((other_name, other_value) ∷ rest) value

-- What a relation finds in a list, in order: at most one value of each member.
pub data Collects {A B : Type 0} (P : A → B → Type 0) : List A → List B → Type 0 where
  done : Collects P [] []
  takes :
      (x : A) (y : B) (xs : List A) (ys : List B)
      → P x y
      → Collects P xs ys
      → Collects P (x ∷ xs) (y ∷ ys)
  skips :
      (x : A) (xs : List A) (ys : List B)
      → ((y : B) → ¬ P x y)
      → Collects P xs ys
      → Collects P (x ∷ xs) ys

pub found_in-Collects :
    {A B : Type 0} (P : A → B → Type 0) (f : A → Option B)
    → ((x : A) (y : B) → (f x ≡ some y) ↔ P x y)
    → (xs : List A) → Collects P xs (found_in f xs)
found_in-Collects P f k [] = unfold found_in in done
found_in-Collects P f k (x ∷ xs) = elim (Option-cases (f x)) [
  | inl e ↦ subst (Collects P (x ∷ xs)) (sym (found_in-none f x xs e)) (
      skips x xs _ (λ y p. let k' : none ≡ some y = sym e ∙ (k x y).1 p in cc)
        (found_in-Collects P f k xs))
  | inr (y, e) ↦
      subst (Collects P (x ∷ xs)) (sym (found_in-some f x y xs e))
        (takes x y xs _ ((k x y).0 e) (found_in-Collects P f k xs))
]

find_member-IsValue :
    (name : Bytes) (rest : List (Bytes × Bytes))
    → IsValue name rest (value_or_empty (find_member name rest))
unfolding find_member
find_member-IsValue name [] = missing
find_member-IsValue name ((k, v) ∷ rest) = elim (Bool-cases (text_eq k name)) [
  | inl t ↦
      rw t
        (subst (λ n. IsValue name ((n, v) ∷ rest) v) (sym ((text_eq_iff k name).0 t)) (here v rest))
  | inr t ↦
      let apart : k ≢ name = λ e. (let k' = (text_eq_iff k name).1 e in cc) in
      rw t (there k v _ rest apart (find_member-IsValue name rest))
]

IsValue-same :
    (name : Bytes) (rest : List (Bytes × Bytes)) (v : Bytes)
    → IsValue name rest v
    → value_or_empty (find_member name rest) ≡ v
unfolding find_member
IsValue-same name _ _ missing = refl
IsValue-same name _ _ (here v rest) = let t = (text_eq_iff name name).1 refl in rw t refl
IsValue-same name _ _ (there k w v rest n i) = elim (Bool-cases (text_eq k name)) [
  | inl t ↦ absurd (n ((text_eq_iff k name).0 t))
  | inr t ↦ rw t (IsValue-same name rest v i)
]

module _ (strings : Strings) (html : Html) where
  -- What a token points to with a relation type: a link element, whose href is not empty once trimmed,
  -- with the type among the words of its rel, letter case aside.
  pub record IsLinkTo (rel : Bytes) (token : Token) (href : Bytes) : Type 0 where
    pub attributes : List (Bytes × Bytes)
    pub address : Bytes
    pub relations : Bytes
    pub link : token ≡ start_tag (codes "link") attributes
    pub addressed : IsValue (codes "href") attributes address
    pub trimmed : href ≡ strings.trim_space address
    pub some_href : href ≢ []
    pub related : IsValue (codes "rel") attributes relations
    pub some_relation : Some (λ word. html.equal_fold word rel ≡ true) (strings.fields relations)

  has_rel_iff :
      (value rel : Bytes)
      → (has_rel strings html value rel ≡ true)
        ↔ Some (λ word. html.equal_fold word rel ≡ true) (strings.fields value)
  unfolding has_rel
  has_rel_iff value rel =
      any_iff (λ word. html.equal_fold word rel) (λ word. (λ h. h, λ h. h)) (strings.fields value)

  -- The test of `link_href`, on what the attributes hold.
  chosen_iff :
      (rel address relations href : Bytes)
      → ((if not (is_empty (strings.trim_space address)) && has_rel strings html relations rel
            then some (strings.trim_space address)
            else none)
          ≡ some href)
        ↔ ((href ≡ strings.trim_space address)
            × (href ≢ [])
            × Some (λ word. html.equal_fold word rel ≡ true) (strings.fields relations))
  chosen_iff rel address relations href =
      let (related, tested) = has_rel_iff relations rel in
      let (filled, given) = is_empty-eq-false_iff (strings.trim_space address) in
      elim (Bool-cases (is_empty (strings.trim_space address))) [
        | inl t ↦
            let blank = (is_empty_iff (strings.trim_space address)).0 t in
            rw t (λ e. absurd (ground arith), λ (e, n, s). absurd (n (e ∙ blank)))
        | inr t ↦ elim (Bool-cases (has_rel strings html relations rel)) [
          | inl h ↦
              rw (t, h)
                (
                  λ e.
                      let same = some-injective _ _ (sym e) in
                      (same, (λ n. filled t (sym same ∙ n)), related h),
                  λ (e, n, s). ap some (sym e),
                )
          | inr h ↦
              rw (t, h)
                (
                  λ e. absurd (ground arith),
                  λ (e, n, s). let k : false ≡ true = sym h ∙ tested s in cc,
                )
        ]
      ]

  pub link_href_iff :
      (rel : Bytes) (attributes : List (Bytes × Bytes)) (href : Bytes)
      → (link_href strings html rel attributes ≡ some href)
        ↔ IsLinkTo rel (start_tag (codes "link") attributes) href
  unfolding link_href has_rel
  link_href_iff rel attributes href =
      let address = value_or_empty (find_member (codes "href") attributes) in
      let relations = value_or_empty (find_member (codes "rel") attributes) in
      let (to, from) = chosen_iff rel address relations href in
      (
        λ e.
            let (same, given, related) = to e in
            record {
              attributes = attributes;
              address = address;
              relations = relations;
              link = refl;
              addressed = find_member-IsValue (codes "href") attributes;
              trimmed = same;
              some_href = given;
              related = find_member-IsValue (codes "rel") attributes;
              some_relation = related;
            },
        λ i.
            let same : attributes ≡ i.attributes = cc (i.link) in
            let a : address ≡ i.address =
              ap (λ x. value_or_empty (find_member (codes "href") x)) same
              ∙ IsValue-same (codes "href") i.attributes i.address i.addressed in
            let r : relations ≡ i.relations =
              ap (λ x. value_or_empty (find_member (codes "rel") x)) same
              ∙ IsValue-same (codes "rel") i.attributes i.relations i.related in
            from (
              i.trimmed ∙ ap strings.trim_space (sym a),
              i.some_href,
              subst (λ x. Some (λ word. html.equal_fold word rel ≡ true) (strings.fields x)) (sym r)
                  i.some_relation,
            ),
      )
