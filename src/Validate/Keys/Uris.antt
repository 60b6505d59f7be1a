-- ===== src/Validate/Keys/Uris.antt =====
-- What counts as an absolute URI, and as an extension key that is a URL.
use ai_catalog_go.Prelude.{
  inr, inl, Bool-cases, ◌++◌, arith, [], false, true, refl, ℕ, All, ◌≤◌, ◌∷◌, ◌↔◌, ◌⊎◌, ◌≡◌, ◌≢◌,
}
use ai_catalog_go.Regex.{
  match, anything, literal, class, empty_matches, plus, Matches, accepts, ByteClass, star_more,
  star_done, seq_matches, byte_matches, star, byte,
}
use ai_catalog_go.Text.{codes, Bytes}
use ai_catalog_go.Validate.Keys.{
  is_extension_key, reverse_dns_key, url_key, is_absolute_uri, absolute_uri, authority_stops,
  scheme, space_spans, scheme_spans, letter_spans,
}
use ai_catalog_go.Regex.Matching.{match_iff}

abbrev pub IsLetter : ℕ → Type 0
IsLetter c = ((b'A' ≤ c) × (c ≤ b'Z')) ⊎ ((b'a' ≤ c) × (c ≤ b'z'))

abbrev pub IsSchemeByte : ℕ → Type 0
IsSchemeByte c = IsLetter c ⊎ (((b'0' ≤ c) × (c ≤ b'9')) ⊎ ((c ≡ b'+') ⊎ ((c ≡ b'.') ⊎ (c ≡ b'-'))))

-- A letter, and then letters, digits, plus signs, dots and dashes.
abbrev pub IsScheme : Bytes → Type 0
IsScheme [] = ⊥
IsScheme (c ∷ s) = IsLetter c × All IsSchemeByte s

-- No tab, line feed, form feed, carriage return or space.
abbrev pub NoSpace : ℕ → Type 0
NoSpace c = (c ≢ 9) × (c ≢ 10) × (c ≢ 12) × (c ≢ 13) × (c ≢ b' ')

-- A byte of the authority of a URL.
abbrev pub IsAuthorityByte : ℕ → Type 0
IsAuthorityByte c = (c ≢ b'/') × (c ≢ b'?') × (c ≢ b'#') × NoSpace c

module _ (k : ByteClass) {P : ℕ → Type 0} (e : (c : ℕ) → (accepts k c ≡ true) ↔ P c) where
  star-All : {s : Bytes} → Matches (star (byte k)) s → All P s
  star-All star_done = tt
  star-All (star_more t u e' (byte_matches {c} h) n) = rw e' ((e c).0 h, star-All n)

  All-star : (s : Bytes) → All P s → Matches (star (byte k)) s
  All-star [] h = star_done
  All-star (c ∷ s) (h, hs) = star_more (c ∷ []) s refl (byte_matches ((e c).1 h)) (All-star s hs)

  byte_one : {s : Bytes} → Matches (byte k) s → (c : ℕ) × (s ≡ c ∷ []) × P c
  byte_one (byte_matches {c} h) = (c, refl, (e c).0 h)

  -- One byte of the class or more.
  plus-All : {s : Bytes} → Matches (plus (byte k)) s → (s ≢ []) × All P s
  plus-All (seq_matches t u e' m n) =
      let (c, one, h) = byte_one m in rw (e', one) ((λ e. cc), (h, star-All n))

  All-plus : (s : Bytes) → s ≢ [] → All P s → Matches (plus (byte k)) s
  All-plus [] n h = absurd (n refl)
  All-plus (c ∷ s) n (h, hs) =
      seq_matches (c ∷ []) s refl (byte_matches ((e c).1 h)) (All-star s hs)

IsLetter-iff :
    (c : ℕ) → (accepts (record { negated = false; spans = letter_spans }) c ≡ true) ↔ IsLetter c
unfolding accepts
IsLetter-iff c = (λ h. ground arith, λ h. ground arith)

scheme_iff :
    (c : ℕ) → (accepts (record { negated = false; spans = scheme_spans }) c ≡ true) ↔ IsSchemeByte c
unfolding accepts
scheme_iff c = (λ h. ground arith, λ h. ground arith)

NoSpace-iff :
    (c : ℕ) → (accepts (record { negated = true; spans = space_spans }) c ≡ true) ↔ NoSpace c
unfolding accepts
NoSpace-iff c = (λ h. ground arith, λ h. ground arith)

authority_iff :
    (c : ℕ)
    → (accepts (record { negated = true; spans = authority_stops }) c ≡ true) ↔ IsAuthorityByte c
unfolding accepts
authority_iff c = (λ h. ground arith, λ h. ground arith)

Matches-scheme_iff : (s : Bytes) → Matches scheme s ↔ IsScheme s
Matches-scheme_iff s = (to, from s)
  where
    to : {s : Bytes} → Matches scheme s → IsScheme s
    to (seq_matches t u e m n) =
        let (c, one, h) = byte_one _ IsLetter-iff m in rw (e, one) (h, star-All _ scheme_iff n)

    from : (s : Bytes) → IsScheme s → Matches scheme s
    from [] h = absurd h
    from (c ∷ s) (h, hs) =
        seq_matches (c ∷ []) s refl (byte_matches ((IsLetter-iff c).1 h))
          (All-star _ scheme_iff s hs)

byte_literal : {b : ℕ} {s : Bytes} → Matches (class ((b, b) ∷ [])) s → s ≡ b ∷ []
unfolding accepts
byte_literal (byte_matches {c} h) = ground arith

literal_byte : (b : ℕ) → Matches (class ((b, b) ∷ [])) (b ∷ [])
unfolding accepts
literal_byte b = byte_matches (ground arith)

Matches-literal : (l : Bytes) {s : Bytes} → Matches (literal l) s → s ≡ l
Matches-literal [] empty_matches = refl
Matches-literal (c ∷ l) (seq_matches t u e m n) = rw (e, byte_literal m, Matches-literal l n)

literal-Matches : (l : Bytes) → Matches (literal l) l
literal-Matches [] = empty_matches
literal-Matches (c ∷ l) = seq_matches (c ∷ []) l refl (literal_byte c) (literal-Matches l)

anything-Matches : (s : Bytes) → Matches anything s
unfolding accepts
anything-Matches [] = star_done
anything-Matches (c ∷ s) = star_more (c ∷ []) s refl (byte_matches refl) (anything-Matches s)

-- A scheme, a colon, and a rest that is not empty and holds no space.
pub record IsAbsoluteUri (value : Bytes) : Type 0 where
  pub scheme_part : Bytes
  pub rest : Bytes
  pub spelled : value ≡ scheme_part ++ (b':' ∷ rest)
  pub is_scheme : IsScheme scheme_part
  pub some_rest : rest ≢ []
  pub no_space : All NoSpace rest

uri_sound : {value : Bytes} → Matches absolute_uri value → IsAbsoluteUri value
uri_sound (seq_matches t u e m (seq_matches v w f colon n)) =
    let (some_rest, no_space) = plus-All _ NoSpace-iff n in
    record {
      scheme_part = t;
      rest = w;
      spelled = rw (e, f, byte_literal colon);
      is_scheme = (Matches-scheme_iff t).0 m;
      some_rest = some_rest;
      no_space = no_space;
    }

uri_complete : (value : Bytes) → IsAbsoluteUri value → Matches absolute_uri value
uri_complete value i =
    seq_matches i.scheme_part (b':' ∷ i.rest) i.spelled
      ((Matches-scheme_iff i.scheme_part).1 i.is_scheme)
      (seq_matches (b':' ∷ []) i.rest refl (literal_byte b':')
        (All-plus _ NoSpace-iff i.rest i.some_rest i.no_space))

-- `isAbsoluteURI` accepts exactly a scheme, a colon and a rest that is not empty and holds no
-- white space.
pub is_absolute_uri_iff : (value : Bytes) → (is_absolute_uri value ≡ true) ↔ IsAbsoluteUri value
unfolding is_absolute_uri
is_absolute_uri_iff value =
    let (sound, complete) = match_iff absolute_uri value in
    (λ h. uri_sound (sound h), λ i. complete (uri_complete value i))

-- A URL with an authority: a scheme, `://` and a byte that an authority can begin with.
pub record IsUrl (key : Bytes) : Type 0 where
  pub scheme_part : Bytes
  pub first : ℕ
  pub rest : Bytes
  pub spelled : key ≡ scheme_part ++ (codes "://" ++ (first ∷ rest))
  pub is_scheme : IsScheme scheme_part
  pub authority : IsAuthorityByte first

IsUrl-sound : {key : Bytes} → Matches url_key key → IsUrl key
IsUrl-sound
      (seq_matches t u e m
        (seq_matches v w f slashes (seq_matches x y g (seq_matches p q k one more) n))) =
    let (c, is_c, h) = byte_one _ authority_iff one in
    record {
      scheme_part = t;
      first = c;
      rest = q ++ y;
      spelled = rw (e, f, Matches-literal (codes "://") slashes, g, k, is_c);
      is_scheme = (Matches-scheme_iff t).0 m;
      authority = h;
    }

url_complete : (key : Bytes) → IsUrl key → Matches url_key key
url_complete key i =
    seq_matches i.scheme_part (codes "://" ++ (i.first ∷ i.rest)) i.spelled
      ((Matches-scheme_iff i.scheme_part).1 i.is_scheme)
      (seq_matches (codes "://") (i.first ∷ i.rest) refl (literal-Matches (codes "://")) (
        seq_matches (i.first ∷ []) i.rest refl
          (All-plus _ authority_iff (i.first ∷ []) (λ e. cc) (i.authority, tt))
          (anything-Matches i.rest)))

-- An extension key is a URL with an authority, or a reverse-DNS name as the expression for those
-- describes it.
abbrev pub IsExtensionKey : Bytes → Type 0
IsExtensionKey key = IsUrl key ⊎ Matches reverse_dns_key key

-- `isExtensionKey` accepts exactly the URLs with an authority and the reverse-DNS names: a scheme,
-- `://` and a byte that is no delimiter and no white space, or a key that the expression for
-- reverse-DNS names describes.
pub is_extension_key_iff : (key : Bytes) → (is_extension_key key ≡ true) ↔ IsExtensionKey key
unfolding is_extension_key
is_extension_key_iff key =
    let (url, url') = match_iff url_key key in
    let (dns, dns') = match_iff reverse_dns_key key in
    (
      λ h. elim (Bool-cases (match url_key key)) [
        | inl t ↦ inl (IsUrl-sound (url t))
        | inr t ↦ inr (dns (ground arith))
      ],
      elim [
        | inl u ↦ let t = url' (url_complete key u) in ground arith
        | inr d ↦ let t = dns' d in ground arith
      ],
    )
