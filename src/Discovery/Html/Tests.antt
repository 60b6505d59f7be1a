-- ===== src/Discovery/Html/Tests.antt =====
-- The head of a document with two bases and three links: one is of another relation, and one stands
-- behind the head.
use ai_catalog_go.Jws.{find_member}
use ai_catalog_go.Prelude.{[], refl, ◌∷◌, ◌≡◌}
use ai_catalog_go.Discovery.Html.{Token, find_html_links, Html, start_tag, end_tag, other}
use ai_catalog_go.Discovery.Link.{Strings}
use ai_catalog_go.Text.{text_eq, codes, Bytes}
use ai_catalog_go.Discovery.Html.Links.{found_in}
use ai_catalog_go.Discovery.Html.Head.{find_html_links_lem, head_of, base_of, first_or}
use ai_catalog_go.Discovery.Html.Links.{IsLinkTo, Collects}

abbrev strings : Strings
strings = record { lower = λ s. s; trim_space = λ s. s; fields = λ s. s ∷ [] }

abbrev link_to : Bytes → Token
link_to href =
    start_tag (codes "link") ((codes "rel", codes "ai-catalog") ∷ (codes "href", href) ∷ [])

abbrev html : Html
html = record {
  tokens = λ body.
      start_tag (codes "base") ((codes "href", codes "/a/") ∷ [])
      ∷ other
      ∷ link_to body
      ∷ start_tag (codes "link") ((codes "rel", codes "icon") ∷ (codes "href", codes "i") ∷ [])
      ∷ start_tag (codes "base") ((codes "href", codes "/b/") ∷ [])
      ∷ end_tag (codes "head")
      ∷ link_to (codes "late")
      ∷ [];
  equal_fold = text_eq;
}

html_test :
    find_html_links strings html (codes "c.json") (codes "ai-catalog")
    ≡ record { base = codes "/a/"; hrefs = codes "c.json" ∷ [] }
unfolding find_html_links text_eq find_member
html_test = refl

find_html_links_lem_example :
    ((find_html_links strings html (codes "c.json") (codes "ai-catalog")).base
      ≡ first_or [] (found_in base_of (head_of (html.tokens (codes "c.json")))))
    × Collects
        (IsLinkTo strings html (codes "ai-catalog"))
        (head_of (html.tokens (codes "c.json")))
        (find_html_links strings html (codes "c.json") (codes "ai-catalog")).hrefs
find_html_links_lem_example = find_html_links_lem strings html (codes "c.json") (codes "ai-catalog")
