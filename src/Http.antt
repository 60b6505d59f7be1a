-- ===== src/Http.antt =====
-- What the packages discovery and provider read of an HTTP response: the bytes of a body that come
-- before its end or an error.
use ai_catalog_go.Prelude.{
  leb, ◌+◌, true, inr, inl, sym, Bool-cases, ◌↔◌, arith, [], List, some, none, Option, Bool, ap,
  refl, suc, zero, ℕ, take, length, ltb, if◌then◌else◌, ◌&&◌, ◌≤◌, ◌∷◌, ◌≡◌,
}
use ai_catalog_go.Text.{Bytes}
use mathlib.Core.Option.{some-injective}

pub record Stream : Type 0 where
  pub bytes : Bytes
  pub fails : Bool

-- `io.ReadAll`, of the whole and of a `io.LimitReader`, which asks for no more once it has its limit
unfoldable pub read_all : Stream → Option Bytes
read_all s = if s.fails then none else some s.bytes

unfoldable pub read_limited : ℕ → Stream → Option Bytes
read_limited limit s =
    if s.fails && ltb (length s.bytes) limit then none else some (take limit s.bytes)

-- An `http.Response`, over the URLs of net/url.
pub record HttpResponse (Url : Type 0) : Type 0 where
  pub status_code : ℕ
  pub url : Url
  pub content_type : Bytes
  pub link_headers : List Bytes
  pub body : Stream

pub take-all : {A : Type 0} (n : ℕ) (xs : List A) → length xs ≤ n → take n xs ≡ xs
take-all zero [] h = refl
take-all (suc n) [] h = refl
take-all zero (x ∷ xs) h = absurd (omega (arith, h))
take-all (suc n) (x ∷ xs) h = ap (λ ys. x ∷ ys) (take-all n xs (omega (arith, h)))

pub length-take : {A : Type 0} (n : ℕ) (xs : List A) → n ≤ length xs → length (take n xs) ≡ n
length-take zero xs h = refl
length-take (suc n) [] h = omega (arith, h)
length-take (suc n) (x ∷ xs) h = ap suc (length-take n xs (omega (arith, h)))

-- A stream is read up to a limit exactly where no error comes before the limit.
pub read_limited_iff :
    (n : ℕ) (s : Stream) (b : Bytes)
    → (read_limited n s ≡ some b) ↔ ((s.fails ≡ true → n ≤ length s.bytes) × (b ≡ take n s.bytes))
unfolding read_limited
read_limited_iff n s b = elim (Bool-cases (s.fails && ltb (length s.bytes) n)) [
  | inl t ↦ rw t (
    λ e. cc,
    λ (h, e). let f : s.fails ≡ true = ground arith in let l = h f in absurd (ground arith),
  )
  | inr t ↦ rw t (λ e. ((λ f. ground arith), sym (some-injective _ _ e)), λ (h, e). ap some (sym e))
]

pub length-take-le : {A : Type 0} (n : ℕ) (xs : List A) → length (take n xs) ≤ n
length-take-le zero xs = omega arith
length-take-le (suc n) [] = omega arith
length-take-le (suc n) (x ∷ xs) = let h = length-take-le n xs in omega arith

pub short-take : {A : Type 0} (n : ℕ) (xs : List A) → length (take (n + 1) xs) ≤ n → length xs ≤ n
short-take n xs h = elim (Bool-cases (leb (length xs) n)) [
  | inl t ↦ ground arith
  | inr t ↦
      let k : n + 1 ≤ length xs = ground arith in
      let e = length-take (n + 1) xs k in absurd (omega (arith, h, e))
]
