-- ===== src/Discovery/Link/Values.antt =====
-- Values of link parameters, printed as quoted strings.
-- A value in the text of a quoted string: a quote or a backslash stands behind a backslash.
use ai_catalog_go.Prelude.{
  arith, append_assoc, [], false, inr, inl, refl, Bool-cases, if◌then◌else◌, ◌==◌, ◌||◌, ◌∷◌, ◌++◌,
  ◌≡◌,
}
use ai_catalog_go.Text.{cut_prefix, Bytes}
use ai_catalog_go.Discovery.Link.{escape_byte, quote_byte, parse_link_value, read_quoted}

abbrev pub escape : Bytes → Bytes
escape [] = []
escape (c ∷ s) =
    let rest = escape s in
    if c == quote_byte || c == escape_byte then escape_byte ∷ (c ∷ rest) else c ∷ rest

abbrev pub quoted : Bytes → Bytes
quoted v = quote_byte ∷ (escape v ++ (quote_byte ∷ []))

read_quoted-escape :
    (v rest : Bytes) → read_quoted false (escape v ++ (quote_byte ∷ rest)) ≡ (v, rest)
unfolding read_quoted
read_quoted-escape [] rest = refl
read_quoted-escape (c ∷ v) rest = elim (Bool-cases (c == quote_byte || c == escape_byte)) [
  | inl h ↦ rw (h, read_quoted-escape v rest) refl
  | inr h ↦
      let q : (c == quote_byte) ≡ false = ground arith in
      let b : (c == escape_byte) ≡ false = ground arith in
      rw (h, q, b, read_quoted-escape v rest) refl
]

-- A value printed as a quoted string reads back as itself, and the reader stops behind it.
pub parse_link_value-quoted : (v rest : Bytes) → parse_link_value (quoted v ++ rest) ≡ (v, rest)
unfolding parse_link_value cut_prefix
parse_link_value-quoted v rest =
    rw (append_assoc (escape v) (quote_byte ∷ []) rest, read_quoted-escape v rest) refl
