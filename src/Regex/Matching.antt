-- ===== src/Regex/Matching.antt =====
-- The matcher decides the relation `Matches`.
use ai_catalog_go.Prelude.{
  ℕ, ◌≡◌, refl, sym, ap, ◌↔◌, ◌⊎◌, inl, inr, true, [], ◌∷◌, ◌++◌, arith, Bool-cases,
}
use ai_catalog_go.Text.{Bytes}
use ai_catalog_go.Regex.{
  ByteClass, Regex, nothing, empty, byte, seq, either, star, accepts, Matches, empty_matches,
  byte_matches, seq_matches, left_matches, right_matches, star_done, star_more, nullable, derive,
  match,
}

nullable_sound : (r : Regex) → nullable r ≡ true → Matches r []
unfolding nullable
nullable_sound nothing h = cc
nullable_sound empty h = empty_matches
nullable_sound (byte k) h = cc
nullable_sound (seq r q) h =
    seq_matches [] [] refl (nullable_sound r (ground arith)) (nullable_sound q (ground arith))
nullable_sound (either r q) h = elim (Bool-cases (nullable r)) [
  | inl e ↦ left_matches (nullable_sound r e)
  | inr e ↦ right_matches (nullable_sound q (ground arith))
]
nullable_sound (star r) h = star_done

-- A text that two texts spell, when it is empty.
nil_of_append : (t u : Bytes) → [] ≡ t ++ u → (t ≡ []) × (u ≡ [])
nil_of_append [] u h = (refl, sym h)
nil_of_append (c ∷ t) u h = cc

nullable_complete : {r : Regex} {s : Bytes} → Matches r s → s ≡ [] → nullable r ≡ true
unfolding nullable
nullable_complete empty_matches h = refl
nullable_complete (byte_matches a) h = cc
nullable_complete (seq_matches t u e m n) h =
    let (p, q) = nil_of_append t u (cc) in
    ground (arith, nullable_complete m p, nullable_complete n q)
nullable_complete (left_matches m) h = ground (arith, nullable_complete m h)
nullable_complete (right_matches m) h = ground (arith, nullable_complete m h)
nullable_complete star_done h = refl
nullable_complete (star_more t u e m n) h = refl

-- The cases of `derive`, each from what holds of the parts.
module _ (c : ℕ) where
  sound_byte :
      {k : ByteClass} {s : Bytes} → accepts k c ≡ true → Matches empty s → Matches (byte k) (c ∷ s)
  sound_byte e empty_matches = byte_matches e

  sound_nothing : {r : Regex} {s : Bytes} → Matches nothing s → Matches r (c ∷ s)
  sound_nothing m = elim m [ ]

  module _ {r : Regex} (ih : (s : Bytes) → Matches (derive c r) s → Matches r (c ∷ s)) where
    sound_seq : {q : Regex} {s : Bytes} → Matches (seq (derive c r) q) s → Matches (seq r q) (c ∷ s)
    sound_seq (seq_matches t u e m n) = seq_matches (c ∷ t) u (ap (λ v. c ∷ v) e) (ih t m) n

    sound_either :
        {q : Regex} {s : Bytes}
        → nullable r ≡ true
        → ((s : Bytes) → Matches (derive c q) s → Matches q (c ∷ s))
        → Matches (either (seq (derive c r) q) (derive c q)) s
        → Matches (seq r q) (c ∷ s)
    sound_either e jh (left_matches m) = sound_seq m
    sound_either {s} e jh (right_matches m) =
        seq_matches [] (c ∷ s) refl (nullable_sound r e) (jh s m)

derive_sound : (c : ℕ) (r : Regex) (s : Bytes) → Matches (derive c r) s → Matches r (c ∷ s)
unfolding derive
derive_sound c nothing s m = elim m [ ]
derive_sound c empty s m = sound_nothing c m
derive_sound c (byte k) s m = elim (Bool-cases (accepts k c)) [
  | inl e ↦ sound_byte c e (rw e at m)
  | inr e ↦ sound_nothing c (rw e at m)
]
derive_sound c (seq r q) s m = elim (Bool-cases (nullable r)) [
  | inl e ↦ sound_either c (derive_sound c r) e (derive_sound c q) (rw e at m)
  | inr e ↦ sound_seq c (derive_sound c r) (rw e at m)
]
derive_sound c (either r q) s (left_matches m) = left_matches (derive_sound c r s m)
derive_sound c (either r q) s (right_matches m) = right_matches (derive_sound c q s m)
derive_sound c (star r) s (seq_matches t u e m n) =
    star_more (c ∷ t) u (ap (λ v. c ∷ v) e) (derive_sound c r t m) n

-- A text that begins with `c`, cut in two: the cut is at the start, or behind `c`.
cons_of_append :
    (c : ℕ) (s t u : Bytes)
    → c ∷ s ≡ t ++ u
    → ((t ≡ []) × (u ≡ c ∷ s)) ⊎ ((t' : Bytes) × (t ≡ c ∷ t') × (s ≡ t' ++ u))
cons_of_append c s [] u h = inl (refl, sym h)
cons_of_append c s (d ∷ t) u h = inr (t, cc, cc)

derive_complete :
    (c : ℕ) {r : Regex} {v : Bytes} → Matches r v → (s : Bytes) → v ≡ c ∷ s → Matches (derive c r) s
unfolding derive
derive_complete c empty_matches s h = absurd (cc)
derive_complete c (byte_matches {k} {c = d} a) s h =
    let same : d ≡ c = cc in let done : s ≡ [] = cc in rw (← same, a, done) empty_matches
derive_complete c (seq_matches {r} {q} t u e m n) s h = elim (cons_of_append c s t u (cc)) [
  | inl (at_start, rest) ↦
      rw (nullable_complete m at_start) (right_matches (derive_complete c n s rest))
  | inr (t', behind, rest) ↦
      let first = seq_matches {q = q} t' u rest (derive_complete c m t' behind) n in
      elim (Bool-cases (nullable r)) [ inl e ↦ rw e (left_matches first) | inr e ↦ rw e first ]
]
derive_complete c (left_matches m) s h = left_matches (derive_complete c m s h)
derive_complete c (right_matches m) s h = right_matches (derive_complete c m s h)
derive_complete c star_done s h = absurd (cc)
derive_complete c (star_more t u e m n) s h = elim (cons_of_append c s t u (cc)) [
  | inl (at_start, rest) ↦ derive_complete c n s rest
  | inr (t', behind, rest) ↦ seq_matches t' u rest (derive_complete c m t' behind) n
]

match_sound : (r : Regex) (s : Bytes) → match r s ≡ true → Matches r s
unfolding match
match_sound r [] h = nullable_sound r h
match_sound r (c ∷ s) h = derive_sound c r s (match_sound (derive c r) s h)

match_complete : (r : Regex) (s : Bytes) → Matches r s → match r s ≡ true
unfolding match
match_complete r [] m = nullable_complete m refl
match_complete r (c ∷ s) m = match_complete (derive c r) s (derive_complete c m s refl)

-- The matcher answers true exactly on the texts that match.
pub match_iff : (r : Regex) (s : Bytes) → (match r s ≡ true) ↔ Matches r s
match_iff r s = (match_sound r s, match_complete r s)
