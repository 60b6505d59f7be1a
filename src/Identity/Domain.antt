-- ===== src/Identity/Domain.antt =====
-- What the expression `domain` matches: dot-separated labels, described with no expression.
use ai_catalog_go.Prelude.{
  ℕ, ◌≤◌, ◌≡◌, ◌≢◌, refl, ap, ◌↔◌, ◌⊎◌, inl, List, [], ◌∷◌, ◌++◌, append-nil, arith, All,
  All-append, All-map,
}
use mathlib.Core.Path.{subst}
use ai_catalog_go.Text.{Bytes, Lacks, split}
use ai_catalog_go.Text.Splitting.{separated, separated-split, split_at, split_lacking, split-ne-nil}
use ai_catalog_go.Regex.{
  Regex, class, seq, star, accepts, Matches, empty_matches, byte_matches, seq_matches, left_matches,
  right_matches, star_done, star_more,
}
use ai_catalog_go.Identity.{alnum, alnum_dash, label, domain}

abbrev pub IsAlnum : ℕ → Type 0
IsAlnum c = ((b'a' ≤ c) × (c ≤ b'z')) ⊎ ((b'0' ≤ c) × (c ≤ b'9'))

abbrev pub IsLabelByte : ℕ → Type 0
IsLabelByte c = IsAlnum c ⊎ (c ≡ b'-')

abbrev pub StartsAlnum : Bytes → Type 0
StartsAlnum [] = ⊥
StartsAlnum (c ∷ s) = IsAlnum c

abbrev pub EndsAlnum : Bytes → Type 0
EndsAlnum [] = ⊥
EndsAlnum (c ∷ []) = IsAlnum c
EndsAlnum (c ∷ d ∷ s) = EndsAlnum (d ∷ s)

-- A label: letters, digits and dashes, with no dash at either end.
pub record IsLabel (l : Bytes) : Type 0 where
  pub allowed : All IsLabelByte l
  pub starts : StartsAlnum l
  pub ends : EndsAlnum l

Matches-alnum : {s : Bytes} → Matches alnum s → (c : ℕ) × (s ≡ c ∷ []) × IsAlnum c
unfolding accepts
Matches-alnum (byte_matches {c = c} h) = (c, refl, ground arith)

alnum-Matches : (c : ℕ) → IsAlnum c → Matches alnum (c ∷ [])
unfolding accepts
alnum-Matches c h = byte_matches (ground arith)

Matches-alnum_dash : {s : Bytes} → Matches (star alnum_dash) s → All IsLabelByte s
unfolding accepts
Matches-alnum_dash star_done = tt
Matches-alnum_dash (star_more t u e (byte_matches {c} h) n) =
    rw e (ground arith, Matches-alnum_dash n)

alnum_dash-Matches : (s : Bytes) → All IsLabelByte s → Matches (star alnum_dash) s
unfolding accepts
alnum_dash-Matches [] h = star_done
alnum_dash-Matches (c ∷ s) (h, hs) =
    star_more (c ∷ []) s refl (byte_matches (ground arith)) (alnum_dash-Matches s hs)

EndsAlnum-concat : (s : Bytes) (c : ℕ) → IsAlnum c → EndsAlnum (s ++ (c ∷ []))
EndsAlnum-concat [] c h = h
EndsAlnum-concat (d ∷ []) c h = h
EndsAlnum-concat (d ∷ e ∷ s) c h = EndsAlnum-concat (e ∷ s) c h

-- What stands before the last byte of a text, and the last byte.
split_last :
    (c : ℕ) (s : Bytes)
    → EndsAlnum (c ∷ s)
    → (t : Bytes) × (d : ℕ) × (c ∷ s ≡ t ++ (d ∷ [])) × IsAlnum d
split_last c [] h = ([], c, refl, h)
split_last c (d ∷ s) h =
    let (t, e, same, last) = split_last d s h in (c ∷ t, e, ap (λ v. c ∷ v) same, last)

module _ {c : ℕ} (start : IsAlnum c) where
  -- A start, allowed bytes and an end make a label.
  IsLabel-of_parts :
      (s : Bytes) (d : ℕ) → All IsLabelByte s → IsAlnum d → IsLabel (c ∷ (s ++ (d ∷ [])))
  IsLabel-of_parts s d h last = record {
    allowed = (inl start, All-append _ s (d ∷ []) h (inl last, tt));
    starts = start;
    ends = EndsAlnum-concat (c ∷ s) d last;
  }

  IsLabel-single : IsLabel (c ∷ [])
  IsLabel-single = record { allowed = (inl start, tt); starts = start; ends = start }

Matches-IsLabel_tail :
    {c : ℕ} {s : Bytes} → IsAlnum c → Matches (seq (star alnum_dash) alnum) s → IsLabel (c ∷ s)
Matches-IsLabel_tail start (seq_matches t u e m n) =
    let (d, one, last) = Matches-alnum n in
    rw (e, one) (IsLabel-of_parts start t d (Matches-alnum_dash m) last)

Matches-label : {s : Bytes} → Matches label s → IsLabel s
Matches-label (seq_matches t u e m (left_matches n)) =
    let (c, one, start) = Matches-alnum m in rw (e, one) (Matches-IsLabel_tail start n)
Matches-label (seq_matches t u e m (right_matches empty_matches)) =
    let (c, one, start) = Matches-alnum m in rw (e, one) (IsLabel-single start)

allowed_parts : (s t : Bytes) → All IsLabelByte (s ++ t) → All IsLabelByte s × All IsLabelByte t
allowed_parts [] t h = (tt, h)
allowed_parts (c ∷ s) t (h, hs) = let (hs', ht) = allowed_parts s t hs in ((h, hs'), ht)

label-Matches : (s : Bytes) → IsLabel s → Matches label s
label-Matches [] l = absurd l.starts
label-Matches (c ∷ []) l =
    seq_matches (c ∷ []) [] refl (alnum-Matches c l.starts) (right_matches empty_matches)
label-Matches (c ∷ d ∷ s) l =
    let (t, e, same, last) = split_last d s l.ends in
    let allowed : All IsLabelByte (t ++ (e ∷ [])) = subst (All IsLabelByte) same l.allowed.1 in
    seq_matches (c ∷ []) (d ∷ s) refl (alnum-Matches c l.starts) (
      left_matches (
        seq_matches t (e ∷ []) same (alnum_dash-Matches t (allowed_parts t (e ∷ []) allowed).0)
          (alnum-Matches e last)))

IsLabelByte-ne-dot : (c : ℕ) → IsLabelByte c → c ≢ b'.'
IsLabelByte-ne-dot c h = ground arith

IsLabel-Lacks : (s : Bytes) → IsLabel s → Lacks b'.' s
IsLabel-Lacks s l = All-map IsLabelByte-ne-dot s l.allowed

-- More labels, each behind a dot.
abbrev dotted : Regex
dotted = star (seq (class ((b'.', b'.') ∷ [])) label)

Matches-dotted :
    (l : Bytes) {s : Bytes} → IsLabel l → Matches dotted s → All IsLabel (split (l ++ s) b'.')
unfolding accepts
Matches-dotted l h star_done = rw (append-nil, split_lacking b'.' l (IsLabel-Lacks l h)) (h, tt)
Matches-dotted l h (star_more t u e (seq_matches v w f (byte_matches {c} dot) m) n) =
    let is_dot : c ≡ b'.' = ground arith in
    rw (e, f, is_dot, split_at b'.' l (w ++ u) (IsLabel-Lacks l h))
      (h, Matches-dotted w (Matches-label m) n)

Matches-domain : {s : Bytes} → Matches domain s → All IsLabel (split s b'.')
Matches-domain (seq_matches t u e m n) = rw e (Matches-dotted t (Matches-label m) n)

dotted-Matches : (ps : List Bytes) → All IsLabel ps → Matches dotted (separated b'.' ps)
unfolding accepts
dotted-Matches [] h = star_done
dotted-Matches (p ∷ ps) (h, hs) =
    star_more (b'.' ∷ p) (separated b'.' ps) refl
      (seq_matches (b'.' ∷ []) p refl (byte_matches refl) (label-Matches p h))
      (dotted-Matches ps hs)

domain_of_parts :
    (s : Bytes) (ps : List Bytes)
    → ps ≢ []
    → separated b'.' ps ≡ b'.' ∷ s
    → All IsLabel ps
    → Matches domain s
domain_of_parts s [] some_part e h = absurd (some_part refl)
domain_of_parts s (p ∷ ps) some_part e (h, hs) =
    seq_matches p (separated b'.' ps) (cc) (label-Matches p h) (dotted-Matches ps hs)

-- The expression matches exactly the texts whose parts between dots are labels.
pub Matches-domain_iff : (s : Bytes) → Matches domain s ↔ All IsLabel (split s b'.')
Matches-domain_iff s = (
  Matches-domain,
  domain_of_parts s (split s b'.') (split-ne-nil b'.' s) (separated-split b'.' s),
)
