-- ===== src/Jws/Forms.antt =====
-- Which compact serializations are detached.
use ai_catalog_go.Prelude.{
  arith, append-nil, [], List, true, refl, All, is_empty-eq-false_iff, is_empty_iff, ◌∷◌, ◌↔◌, ◌++◌,
  ◌≡◌, ◌≢◌,
}
use ai_catalog_go.Text.{split, Lacks, Bytes}
use ai_catalog_go.Jws.{three_parts, detached}
use ai_catalog_go.Text.Splitting.{split-Lacks, split_lacking, separated-split, split_at, separated}

three_parts_iff :
    (ps : List Bytes)
    → (three_parts ps ≡ true)
      ↔ ((a : Bytes) × (c : Bytes) × (ps ≡ a ∷ [] ∷ c ∷ []) × (a ≢ []) × (c ≢ []))
three_parts_iff [] = (λ h. cc, λ (a, c, e, p, q). cc)
three_parts_iff (a ∷ []) = (λ h. cc, λ (a, c, e, p, q). cc)
three_parts_iff (a ∷ b ∷ []) = (λ h. cc, λ (a, c, e, p, q). cc)
three_parts_iff (a ∷ b ∷ c ∷ d ∷ ps) = (λ h. cc, λ (a, c, e, p, q). cc)
three_parts_iff (a ∷ b ∷ c ∷ []) = (
  λ h.
      let none_there : b ≡ [] = (is_empty_iff b).0 (ground arith) in
      (
        a,
        c,
        cc,
        (is_empty-eq-false_iff a).0 (ground arith),
        (is_empty-eq-false_iff c).0 (ground arith),
      ),
  λ (x, y, e, p, q).
      let same_a : a ≡ x = cc in
      let same_b : b ≡ [] = cc in
      let same_c : c ≡ y = cc in
      rw (same_a, same_b, same_c, (is_empty-eq-false_iff x).1 p, (is_empty-eq-false_iff y).1 q),
)

-- A header and a signature, neither empty and with no dot, around an empty payload.
abbrev pub IsDetached : Bytes → Type 0
IsDetached s =
    (header : Bytes) × (signature : Bytes) × (s ≡ header ++ (b'.' ∷ (b'.' ∷ signature)))
    × (header ≢ [])
    × (signature ≢ [])
    × Lacks b'.' header
    × Lacks b'.' signature

IsDetached-of_parts :
    (s a c : Bytes) → split s b'.' ≡ a ∷ [] ∷ c ∷ [] → a ≢ [] → c ≢ [] → IsDetached s
IsDetached-of_parts s a c e p q =
    let spelled : separated b'.' (a ∷ [] ∷ c ∷ []) ≡ b'.' ∷ s = rw e at (separated-split b'.' s) in
    let lacking : All (Lacks b'.') (a ∷ [] ∷ c ∷ []) = rw e at (split-Lacks b'.' s) in
    (a, c, cc (append-nil c), p, q, lacking.0, lacking.1.1.0)

detached_sound : (s : Bytes) → detached s ≡ true → IsDetached s
unfolding detached
detached_sound s h =
    let (a, c, e, p, q) = (three_parts_iff (split s b'.')).0 (ground arith) in
    IsDetached-of_parts s a c e p q

detached_complete : (s : Bytes) → IsDetached s → detached s ≡ true
unfolding detached
detached_complete s (a, c, e, p, q, la, lc) =
    let parts : split s b'.' ≡ a ∷ [] ∷ c ∷ [] =
      rw (e, split_at b'.' a (b'.' ∷ c) la, split_at b'.' [] c tt, split_lacking b'.' c lc) in
    rw (parts, (three_parts_iff (a ∷ [] ∷ c ∷ [])).1 (a, c, refl, p, q))

-- `Detached` accepts exactly a header and a signature, neither empty and with no dot in either,
-- around an empty payload.
pub detached_iff : (s : Bytes) → (detached s ≡ true) ↔ IsDetached s
detached_iff s = (detached_sound s, detached_complete s)
