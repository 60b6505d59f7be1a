-- ===== src/Discovery/Fetcher/Limit.antt =====
-- Which responses the default fetcher of discovery returns.
use ai_catalog_go.Prelude.{
  ltb-eq-false_iff, ℕ, ◌<◌, arith, some, none, Option, false, true, inr, inl, ap, sym, refl, length,
  Bool-cases, ltb, ◌∙◌, ◌+◌, ◌≤◌, ◌↔◌, ◌≡◌,
}
use ai_catalog_go.Http.{take-all, short-take, read_limited_iff, read_limited, HttpResponse}
use ai_catalog_go.Discovery.Search.{scheme_https, Response}
use ai_catalog_go.Discovery.Fetcher.{
  max_redirects, read_body, check_redirect, http_fetch_page, response_of, max_body_bytes,
  within_limit,
}
use ai_catalog_go.Text.{text_eq, text_eq_iff, Bytes}
use mathlib.Core.Path.{subst}
use mathlib.Core.Option.{some-injective}

module _ {Url : Type 0} where
  within_limit_iff :
      (r : HttpResponse Url) (page : Response Url)
      → (within_limit r (read_limited (max_body_bytes + 1) r.body) ≡ some page) ↔ (
          (r.body.fails ≡ false)
          × (length r.body.bytes ≤ max_body_bytes)
          × (page ≡ response_of r r.body.bytes))
  within_limit_iff r page = (
    λ e. by_read (read_limited (max_body_bytes + 1) r.body) refl e,
    λ (f, fits, same).
        let whole : read_limited (max_body_bytes + 1) r.body ≡ some r.body.bytes =
          (read_limited_iff (max_body_bytes + 1) r.body r.body.bytes).1 (
            λ t. let k : false ≡ true = sym f ∙ t in cc,
            sym (take-all (max_body_bytes + 1) r.body.bytes (omega (arith, fits))),
          ) in
        let small = (ltb-eq-false_iff max_body_bytes (length r.body.bytes)).1 fits in
        rw (whole, small) (ap some (sym same)),
  )
    where
      by_read :
          (o : Option Bytes)
          → read_limited (max_body_bytes + 1) r.body ≡ o
          → within_limit r o ≡ some page
          → (r.body.fails ≡ false)
            × (length r.body.bytes ≤ max_body_bytes)
            × (page ≡ response_of r r.body.bytes)
      by_read none p e = cc
      by_read (some body) p e =
          let (readable, cut_off) = (read_limited_iff (max_body_bytes + 1) r.body body).0 p in
          elim (Bool-cases (ltb max_body_bytes (length body))) [
            | inl t ↦ let k : none ≡ some page = rw t at e in cc
            | inr t ↦
                let short = (ltb-eq-false_iff max_body_bytes (length body)).0 t in
                let fits =
                  short-take max_body_bytes r.body.bytes
                    (subst (λ b. length b ≤ max_body_bytes) cut_off short) in
                let whole : body ≡ r.body.bytes =
                  cut_off ∙ take-all (max_body_bytes + 1) r.body.bytes (omega (arith, fits)) in
                let same : some (response_of r body) ≡ some page = rw t at e in
                let sound : r.body.fails ≡ false = elim (Bool-cases r.body.fails) [
                  | inl f ↦ let h = readable f in absurd (omega (arith, h, fits))
                  | inr f ↦ f
                ] in
                (sound, fits, sym (some-injective _ _ same) ∙ ap (response_of r) whole)
          ]

  -- The default fetcher of discovery returns exactly the responses whose body has at most 10 MiB and is
  -- read without an error, with the whole body.
  pub http_fetch_page_iff :
      (client : Url → Option (HttpResponse Url)) (url : Url) (page : Response Url)
      → (http_fetch_page client url ≡ some page) ↔ (
          (r : HttpResponse Url) × (client url ≡ some r)
          × (r.body.fails ≡ false)
          × (length r.body.bytes ≤ max_body_bytes)
          × (page ≡ response_of r r.body.bytes))
  unfolding http_fetch_page
  http_fetch_page_iff client url page = by_response (client url)
    where
      by_response :
          (o : Option (HttpResponse Url))
          → (read_body o ≡ some page) ↔ (
              (r : HttpResponse Url) × (o ≡ some r)
              × (r.body.fails ≡ false)
              × (length r.body.bytes ≤ max_body_bytes)
              × (page ≡ response_of r r.body.bytes))
      by_response none = (λ e. cc, λ (r, e, f, l, s). cc)
      by_response (some r) =
          let (to, from) = within_limit_iff r page in
          (
            λ e. let (f, l, s) = to e in (r, refl, f, l, s),
            λ (q, e, f, l, s). from (
                subst
                  (λ x.
                    (x.body.fails ≡ false)
                    × (length x.body.bytes ≤ max_body_bytes)
                    × (page ≡ response_of x x.body.bytes))
                  (some-injective _ _ (sym e)) (f, l, s)),
          )

-- The default client of discovery follows a redirect exactly where it leads to https and fewer than
-- ten requests came before it.
pub check_redirect_iff :
    (scheme : Bytes) (via : ℕ)
    → (check_redirect scheme via ≡ true) ↔ ((scheme ≡ scheme_https) × (via < max_redirects))
unfolding check_redirect
check_redirect_iff scheme via =
    let (to, from) = text_eq_iff scheme scheme_https in
    (
      λ h. elim (Bool-cases (text_eq scheme scheme_https)) [
        | inl t ↦ let k = rw t at h in (to t, ground arith)
        | inr t ↦ let k : false ≡ true = rw t at h in cc
      ],
      λ (e, l). let t = from e in rw t (ground arith),
    )
