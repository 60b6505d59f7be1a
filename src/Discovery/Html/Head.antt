-- ===== src/Discovery/Html/Head.antt =====
-- The links of a document against a description over its head.
-- The tokens before the first end of a head or start of a body.
use ai_catalog_go.Prelude.{
  arith, true, ◌↔◌, ap, ◌∙◌, append_assoc, append-nil, [], List, some, none, Option, false, inr,
  inl, sym, refl, Bool-cases, if◌then◌else◌, ◌∷◌, ◌++◌, ◌≡◌,
}
use ai_catalog_go.Discovery.Html.{
  find_html_links, read_tokens, read_element, add_href, set_base, HtmlLinks, Found, link_href, Html,
  Token, start_tag, end_tag, other,
}
use ai_catalog_go.Text.{text_eq_iff, codes, Bytes, text_eq}
use ai_catalog_go.Discovery.Link.{Strings}
use ai_catalog_go.Jws.{find_member}
use mathlib.Core.Path.{subst}
use ai_catalog_go.Discovery.Html.Links.{
  found_in-Collects, Collects, link_href_iff, found_in-some, found_in-none, IsLinkTo, found_in,
}

unfoldable pub head_of : List Token → List Token
unfolding text_eq
head_of [] = []
head_of (other ∷ ts) = other ∷ head_of ts
head_of (end_tag name ∷ ts) =
    let rest = head_of ts in if text_eq name (codes "head") then [] else end_tag name ∷ rest
head_of (start_tag name attributes ∷ ts) =
    let rest = head_of ts in
    if text_eq name (codes "body") then [] else start_tag name attributes ∷ rest

-- The href of a base element, and that of a link element with the relation.
unfoldable pub base_of : Token → Option Bytes
base_of other = none
base_of (end_tag name) = none
base_of (start_tag name attributes) =
    if text_eq name (codes "base") then find_member (codes "href") attributes else none

abbrev pub first_or : Bytes → List Bytes → Bytes
first_or d [] = d
first_or d (x ∷ xs) = x

base_and_link : text_eq (codes "base") (codes "link") ≡ false
unfolding text_eq
base_and_link = refl

text_eq_link : text_eq (codes "link") (codes "link") ≡ true
unfolding text_eq
text_eq_link = refl

module _ (strings : Strings) (html : Html) where
  unfoldable pub href_of : Bytes → Token → Option Bytes
  href_of rel other = none
  href_of rel (end_tag name) = none
  href_of rel (start_tag name attributes) =
      if text_eq name (codes "link") then link_href strings html rel attributes else none

  -- What the loop returns, from what it holds and the rest of the head.
  abbrev pub described : Bytes → List Token → Found → HtmlLinks
  described rel ts f = record {
    base = if f.have_base then f.links.base else first_or f.links.base (found_in base_of ts);
    hrefs = f.links.hrefs ++ found_in (href_of rel) ts;
  }

  HtmlLinks-eq : (a b : HtmlLinks) → a.base ≡ b.base → a.hrefs ≡ b.hrefs → a ≡ b
  HtmlLinks-eq a b e f = cc

  described-nil : (rel : Bytes) (f : Found) → f.links ≡ described rel [] f
  unfolding found_in
  described-nil rel f =
      HtmlLinks-eq f.links (described rel [] f)
        (elim (Bool-cases f.have_base) [ inl t ↦ rw t refl | inr t ↦ rw t refl ])
        (sym (append-nil f.links.hrefs))

  -- How a token changes the description, from what is found in it.
  described-token :
      (rel : Bytes) (t : Token) (ts : List Token) (f g : Found)
      → (if g.have_base then g.links.base else first_or g.links.base (found_in base_of ts))
        ≡ (if f.have_base then f.links.base else first_or f.links.base (found_in base_of (t ∷ ts)))
      → g.links.hrefs ++ found_in (href_of rel) ts
        ≡ f.links.hrefs ++ found_in (href_of rel) (t ∷ ts)
      → described rel ts g ≡ described rel (t ∷ ts) f
  described-token rel t ts f g = HtmlLinks-eq (described rel ts g) (described rel (t ∷ ts) f)

  same_hrefs :
      (rel : Bytes) (t : Token) (ts : List Token) (hrefs : List Bytes)
      → href_of rel t ≡ none
      → hrefs ++ found_in (href_of rel) ts ≡ hrefs ++ found_in (href_of rel) (t ∷ ts)
  same_hrefs rel t ts hrefs h = ap (λ x. hrefs ++ x) (sym (found_in-none (href_of rel) t ts h))

  same_base :
      (t : Token) (ts : List Token) (f : Found)
      → base_of t ≡ none
      → (if f.have_base then f.links.base else first_or f.links.base (found_in base_of ts))
        ≡ (if f.have_base then f.links.base else first_or f.links.base (found_in base_of (t ∷ ts)))
  same_base t ts f e =
      ap (λ x. if f.have_base then f.links.base else first_or f.links.base x)
        (sym (found_in-none base_of t ts e))

  described-plain :
      (rel : Bytes) (t : Token) (ts : List Token) (f : Found)
      → base_of t ≡ none
      → href_of rel t ≡ none
      → described rel ts f ≡ described rel (t ∷ ts) f
  described-plain rel t ts f e h =
      described-token rel t ts f f (same_base t ts f e) (same_hrefs rel t ts f.links.hrefs h)

  set_base-hrefs : (b : Bytes) (f : Found) → (set_base (some b) f).links.hrefs ≡ f.links.hrefs
  set_base-hrefs b f = elim (Bool-cases f.have_base) [ inl y ↦ rw y refl | inr n ↦ rw n refl ]

  described-base :
      (rel : Bytes) (t : Token) (ts : List Token) (f : Found) (o : Option Bytes)
      → base_of t ≡ o
      → href_of rel t ≡ none
      → described rel ts (set_base o f) ≡ described rel (t ∷ ts) f
  described-base rel t ts f none e h = described-plain rel t ts f e h
  described-base rel t ts f (some b) e h =
      let g = set_base (some b) f in
      let first : b ≡ first_or f.links.base (found_in base_of (t ∷ ts)) =
        ap (first_or f.links.base) (sym (found_in-some base_of t b ts e)) in
      described-token rel t ts f g
        (elim (Bool-cases f.have_base) [ inl y ↦ rw y refl | inr n ↦ rw n first ])
        (ap (λ x. x ++ found_in (href_of rel) ts) (set_base-hrefs b f)
          ∙ same_hrefs rel t ts f.links.hrefs h)

  described-href :
      (rel : Bytes) (t : Token) (ts : List Token) (f : Found) (o : Option Bytes)
      → base_of t ≡ none
      → href_of rel t ≡ o
      → described rel ts (add_href strings html o f) ≡ described rel (t ∷ ts) f
  described-href rel t ts f none e h = described-plain rel t ts f e h
  described-href rel t ts f (some l) e h =
      described-token rel t ts f (add_href strings html (some l) f) (same_base t ts f e) (
        append_assoc f.links.hrefs (l ∷ []) (found_in (href_of rel) ts)
        ∙ ap (λ x. f.links.hrefs ++ x) (sym (found_in-some (href_of rel) t l ts h)))

  described-element :
      (rel name : Bytes) (attributes : List (Bytes × Bytes)) (ts : List Token) (f : Found)
      → described rel ts (read_element strings html rel name attributes f)
        ≡ described rel (start_tag name attributes ∷ ts) f
  unfolding read_element base_of href_of
  described-element rel name attributes ts f = elim (Bool-cases (text_eq name (codes "base"))) [
    | inl b ↦
        let l : text_eq name (codes "link") ≡ false =
          subst (λ n. text_eq n (codes "link") ≡ false)
            (sym ((text_eq_iff name (codes "base")).0 b)) base_and_link in
        rw b (
          described-base rel (start_tag name attributes) ts f
            (find_member (codes "href") attributes) (rw b refl) (rw l refl))
    | inr b ↦ elim (Bool-cases (text_eq name (codes "link"))) [
      | inl l ↦
          rw (b, l)
            (described-href rel (start_tag name attributes) ts f
              (link_href strings html rel attributes) (rw b refl) (rw l refl))
      | inr l ↦
          rw (b, l) (described-plain rel (start_tag name attributes) ts f (rw b refl) (rw l refl))
    ]
  ]

  read_tokens-described :
      (rel : Bytes) (ts : List Token) (f : Found)
      → read_tokens strings html rel ts f ≡ described rel (head_of ts) f
  unfolding read_tokens head_of base_of href_of
  read_tokens-described rel [] f = described-nil rel f
  read_tokens-described rel (other ∷ ts) f =
      read_tokens-described rel ts f ∙ described-plain rel other (head_of ts) f refl refl
  read_tokens-described rel (end_tag name ∷ ts) f =
      elim (Bool-cases (text_eq name (codes "head"))) [
        | inl t ↦ rw t (described-nil rel f)
        | inr t ↦ rw t (
            read_tokens-described rel ts f
            ∙ described-plain rel (end_tag name) (head_of ts) f refl refl)
      ]
  read_tokens-described rel (start_tag name attributes ∷ ts) f =
      elim (Bool-cases (text_eq name (codes "body"))) [
        | inl t ↦ rw t (described-nil rel f)
        | inr t ↦ rw t (
            read_tokens-described rel ts (read_element strings html rel name attributes f)
            ∙ described-element rel name attributes (head_of ts) f)
      ]

  href_of_iff :
      (rel : Bytes) (token : Token) (href : Bytes)
      → (href_of rel token ≡ some href) ↔ IsLinkTo strings html rel token href
  unfolding href_of
  href_of_iff rel other href = (λ e. absurd (ground arith), λ i. let l = i.link in cc)
  href_of_iff rel (end_tag name) href = (λ e. absurd (ground arith), λ i. let l = i.link in cc)
  href_of_iff rel (start_tag name attributes) href =
      elim (Bool-cases (text_eq name (codes "link"))) [
        | inl t ↦
            subst
              (λ n.
                (href_of rel (start_tag n attributes) ≡ some href)
                ↔ IsLinkTo strings html rel (start_tag n attributes) href)
              (sym ((text_eq_iff name (codes "link")).0 t))
              (rw text_eq_link (link_href_iff strings html rel attributes href))
        | inr t ↦ rw t (
          λ e. absurd (ground arith),
          λ i.
              let l : name ≡ codes "link" = cc (i.link) in
              let k : false ≡ true = sym t ∙ (text_eq_iff name (codes "link")).1 l in cc,
        )
      ]

  -- `findHTMLLinks` returns the href of the first base element of the head that has one, or "", and
  -- what the link elements of the head with the relation point to, in order: their hrefs, trimmed, if
  -- they are not empty. The head ends at its end tag or the body's start.
  pub find_html_links_lem :
      (body rel : Bytes)
      → ((find_html_links strings html body rel).base
          ≡ first_or [] (found_in base_of (head_of (html.tokens body))))
        × Collects
            (IsLinkTo strings html rel)
            (head_of (html.tokens body))
            (find_html_links strings html body rel).hrefs
  unfolding find_html_links
  find_html_links_lem body rel =
      let none_yet : Found = record {
        links = record { base = []; hrefs = [] };
        have_base = false;
      } in
      let e = read_tokens-described rel (html.tokens body) none_yet in
      (
        ap (λ l. l.base) e,
        subst (Collects (IsLinkTo strings html rel) (head_of (html.tokens body)))
            (sym (ap (λ l. l.hrefs) e))
            (found_in-Collects (IsLinkTo strings html rel) (href_of rel) (href_of_iff rel)
              (head_of (html.tokens body))),
      )
