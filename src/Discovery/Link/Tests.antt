-- ===== src/Discovery/Link/Tests.antt =====
-- Link headers at concrete values, with plain stand-ins for the functions that read Unicode.
use ai_catalog_go.Text.{cut_prefix, cut}
use ai_catalog_go.Discovery.Link.{new_link, take_until, read_quoted}
use ai_catalog_go.Prelude.{some, ◌↔◌, arith, [], refl, ◌∷◌, ◌++◌, ◌≡◌}
use ai_catalog_go.Discovery.Link.{
  is_blank, trim_left, parse_links, parse_link_value, targets_with_rel, Strings,
}
use ai_catalog_go.Text.{lower_byte, split, codes, ascii_lower, Bytes}
use ai_catalog_go.Discovery.Link.Values.{parse_link_value-quoted, quoted}
use ai_catalog_go.Discovery.Link.Links.{parse_links-enough}
use ai_catalog_go.Discovery.Link.Selection.{new_link_iff, IsLinkOf}

abbrev plain : Strings
plain = record { lower = ascii_lower; trim_space = trim_left is_blank; fields = λ s. split s b' ' }

-- A quoted relation, junk, a link with an anchor, and a second relation that does not count.
abbrev header : Bytes
header =
    codes "<https://a>; rel="
    ++ quoted (codes "ai-catalog next")
    ++ codes ", junk, <https://b>; anchor=x; rel=ai-catalog,<https://c>;rel=next;rel=ai-catalog"

header_test : targets_with_rel plain (header ∷ []) (codes "ai-catalog") ≡ codes "https://a" ∷ []
unfolding targets_with_rel split ascii_lower lower_byte cut_prefix trim_left cut take_until
    read_quoted
header_test = refl

parse_link_value-quoted_example :
    parse_link_value (quoted (codes "a;b") ++ codes "; rel=x") ≡ (codes "a;b", codes "; rel=x")
parse_link_value-quoted_example = parse_link_value-quoted (codes "a;b") (codes "; rel=x")

parse_links-enough_example :
    parse_links plain 12 (codes "<a>;rel=x") ≡ parse_links plain 30 (codes "<a>;rel=x")
parse_links-enough_example =
    parse_links-enough plain 12 30 (codes "<a>;rel=x") (omega arith) (omega arith)

new_link_iff_example :
    (new_link plain (codes "a") (record { name = codes "rel"; value = codes "x" } ∷ [])
      ≡ some (record { target = codes "a"; rel = codes "x" ∷ [] }))
    ↔ IsLinkOf plain
        (codes "a")
        (record { name = codes "rel"; value = codes "x" } ∷ [])
        (record { target = codes "a"; rel = codes "x" ∷ [] })
new_link_iff_example =
    new_link_iff plain (codes "a") (record { name = codes "rel"; value = codes "x" } ∷ [])
      (record { target = codes "a"; rel = codes "x" ∷ [] })
