-- ===== src/Discovery/Html.antt =====
-- discovery/html.go: what discovery reads from the head of an HTML document.
pub mod Links
pub mod Head
mod Tests
use ai_catalog_go.Prelude.{
  [], List, some, none, Option, not, false, true, Bool, any, is_empty, if◌then◌else◌, ◌&&◌, ◌∷◌,
  ◌++◌,
}
use ai_catalog_go.Text.{codes, text_eq, Bytes}
use ai_catalog_go.Discovery.Link.{Strings}
use ai_catalog_go.Jws.{find_member}

-- A token of the tokenizer of golang.org/x/net/html: names in lower case, attributes decoded and in
-- order, a self-closing tag as a start tag, and any token that is no tag as `other`.
pub data Token : Type 0 where
  other : Token
  end_tag : Bytes → Token
  start_tag : Bytes → List (Bytes × Bytes) → Token

-- The tokens of a body, up to the error token, and `strings.EqualFold`.
pub record Html : Type 0 where
  pub tokens : Bytes → List Token
  pub equal_fold : Bytes → Bytes → Bool

pub record HtmlLinks : Type 0 where
  pub base : Bytes
  pub hrefs : List Bytes

-- what the loop holds: the links, and whether there was a base
pub record Found : Type 0 where
  pub links : HtmlLinks
  pub have_base : Bool

abbrev pub set_base : Option Bytes → Found → Found
set_base none f = f
set_base (some href) f =
    if f.have_base
    then f
    else record { links = record { base = href; hrefs = f.links.hrefs }; have_base = true }

-- a missing value of a map is ""
abbrev pub value_or_empty : Option Bytes → Bytes
value_or_empty none = []
value_or_empty (some v) = v

module _ (strings : Strings) (html : Html) where
  unfoldable pub has_rel : Bytes → Bytes → Bool
  has_rel value rel = any (λ token. html.equal_fold token rel) (strings.fields value)

  -- the href of a link element with the relation type, if it has one
  unfoldable pub link_href : Bytes → List (Bytes × Bytes) → Option Bytes
  unfolding has_rel
  link_href rel attributes =
      let href = strings.trim_space (value_or_empty (find_member (codes "href") attributes)) in
      if not (is_empty href) && has_rel (value_or_empty (find_member (codes "rel") attributes)) rel
      then some href
      else none

  abbrev pub add_href : Option Bytes → Found → Found
  add_href none f = f
  add_href (some href) f = record {
    links = record { base = f.links.base; hrefs = f.links.hrefs ++ (href ∷ []) };
    have_base = f.have_base;
  }

  -- the switch on the name of an element that is not the body
  unfoldable pub read_element : Bytes → Bytes → List (Bytes × Bytes) → Found → Found
  unfolding link_href
  read_element rel name attributes f =
      if text_eq name (codes "base")
      then set_base (find_member (codes "href") attributes) f
      else if text_eq name (codes "link")
      then add_href (link_href rel attributes) f
      else f

  unfoldable pub read_tokens : Bytes → List Token → Found → HtmlLinks
  unfolding read_element
  read_tokens rel [] f = f.links
  read_tokens rel (other ∷ ts) f = read_tokens rel ts f
  read_tokens rel (end_tag name ∷ ts) f =
      let rest = read_tokens rel ts f in if text_eq name (codes "head") then f.links else rest
  read_tokens rel (start_tag name attributes ∷ ts) f =
      let rest = read_tokens rel ts (read_element rel name attributes f) in
      if text_eq name (codes "body") then f.links else rest

  unfoldable pub find_html_links : Bytes → Bytes → HtmlLinks
  unfolding read_tokens
  find_html_links body rel =
      read_tokens rel (html.tokens body)
        (record { links = record { base = []; hrefs = [] }; have_base = false })
