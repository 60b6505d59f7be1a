-- ===== src/Identity.antt =====
-- internal/identity/identity.go: the identifier rules of the did:web Publisher Profile.
-- `Publisher` and `ValidPublisher` return `(value, ok)` or an error as an `Option` or a `Bool`.
pub mod Domain
pub mod Labels
mod Tests
use ai_catalog_go.Prelude.{
  ℕ, ◌-◌, ◌+◌, ◌*◌, Bool, true, false, not, ◌&&◌, ◌||◌, Option, none, some, [], ◌∷◌, ◌++◌, length,
  ltb, leb, ◌==◌, if◌then◌else◌, all, any, is_empty, is_some, ◌>>=◌,
}
use ai_catalog_go.Text.{Bytes, codes, text_eq, split, cut, cut_prefix, contains_any}
use ai_catalog_go.Regex.{Regex, seq, star, match, class, optional}

abbrev pub urn_air_prefix : Bytes
urn_air_prefix = codes "urn:air:"

abbrev pub did_web_prefix : Bytes
did_web_prefix = codes "did:web:"

-- [a-z0-9] and [a-z0-9-]
abbrev pub alnum : Regex
alnum = class ((b'a', b'z') ∷ (b'0', b'9') ∷ [])

abbrev pub alnum_dash : Regex
alnum_dash = class ((b'a', b'z') ∷ (b'0', b'9') ∷ (b'-', b'-') ∷ [])

-- [a-z0-9]([a-z0-9-]*[a-z0-9])?
abbrev pub label : Regex
label = seq alnum (optional (seq (star alnum_dash) alnum))

-- ^label(\.label)*$
abbrev pub domain : Regex
domain = seq label (star (seq (class ((b'.', b'.') ∷ [])) label))

abbrev nonempty : Bytes → Option Bytes
nonempty s = if is_empty s then none else some s

-- The publisher component of urn:air:{publisher}:{namespace}:{name}.
unfoldable pub publisher : Bytes → Option Bytes
unfolding cut_prefix cut
publisher identifier = do rest ← cut_prefix identifier urn_air_prefix; nonempty (cut rest b':').0

abbrev pub max_name_len : ℕ
max_name_len = 253

abbrev pub max_label_len : ℕ
max_label_len = 63

-- `netip.ParseAddr` succeeds. A text with a colon would be read as IPv6 and one with `%` refused;
-- the code asks only of texts that match `domain`, which hold neither, so an address is four
-- octets in decimal, with no leading zero, between dots.
octet_value : ℕ → Bytes → ℕ
octet_value n [] = n
octet_value n (c ∷ s) = octet_value (n * 10 + (c - b'0')) s

has_leading_zero : Bytes → Bool
has_leading_zero [] = false
has_leading_zero (c ∷ s) = c == b'0' && not (is_empty s)

is_octet : Bytes → Bool
is_octet s =
    not (is_empty s)
    && all (λ c. leb b'0' c && leb c b'9') s
    && not (has_leading_zero s)
    && leb (octet_value 0 s) 255

unfoldable pub is_address : Bytes → Bool
unfolding is_octet octet_value has_leading_zero split
is_address s = let parts = split s b'.' in length parts == 4 && all is_octet parts

unfoldable pub valid_publisher : Bytes → Bool
unfolding match split is_address
valid_publisher p =
    if ltb max_name_len (length p) || not (match domain p)
    then false
    else if any (λ l. ltb max_label_len (length l)) (split p b'.')
    then false
    else not (is_address p)

unfoldable pub did : Bytes → Bytes
did p = did_web_prefix ++ p

unfoldable pub root_did_web : Bytes → Bool
unfolding cut_prefix valid_publisher
root_did_web value = elim (cut_prefix value did_web_prefix) [
  | none ↦ false
  | some p ↦ valid_publisher p
]
