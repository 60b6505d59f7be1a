-- ===== src/Discovery/Search/Listing.antt =====
-- That every candidate is in the list of URLs that a search tries.
use ai_catalog_go.Prelude.{
  arith, map, [], List, some, none, Option, false, true, inr, inl, ap, sym, refl, Some,
  is_empty-eq-false_iff, is_empty, Bool-cases, ◌∙◌, ◌∷◌, ◌⊎◌, ◌++◌, ◌≡◌, ◌≢◌,
}
use ai_catalog_go.Discovery.Search.{
  html_base, linked, link_relation, html_candidates, bases, at_well_known, add_candidate,
  candidates_after, same_origin, link_candidates, Response, is_html, candidates_in, Method,
  Candidate, Web, html_link, link_header,
}
use ai_catalog_go.Discovery.Search.Catalogs.{
  success_iff, IsCandidate, IsBase, IsHtml, Succeeds, well_known_at_reached, well_known_at_start,
  by_element, by_header, element, unreadable, own,
}
use ai_catalog_go.Text.{text_eq_iff, text_eq, Bytes, codes}
use ai_catalog_go.Discovery.Link.{targets_with_rel}
use mathlib.Core.Option.{some-injective}
use mathlib.Core.Path.{subst}

-- Some member of either part is one of the whole.
Some-append :
    {A : Type 0} (P : A → Type 0) (xs ys : List A) → Some P xs ⊎ Some P ys → Some P (xs ++ ys)
Some-append P [] ys (inl s) = absurd s
Some-append P [] ys (inr s) = s
Some-append P (x ∷ xs) ys (inl (inl p)) = inl p
Some-append P (x ∷ xs) ys (inl (inr s)) = inr (Some-append P xs ys (inl s))
Some-append P (x ∷ xs) ys (inr s) = inr (Some-append P xs ys (inr s))

module _ {Url : Type 0} (web : Web Url) where
  open web use {strings, html, media_type, scheme, host, parse_in, at_path}

  abbrev pub Listed : Url → List (Candidate Url) → Type 0
  Listed u cs = Some (λ c. c.url ≡ u) cs

  add_candidate-Listed :
      (u : Url) (method : Method) (o : Option Url) (cs : List (Candidate Url))
      → (o ≡ some u) ⊎ Listed u cs
      → Listed u (add_candidate web method o cs)
  add_candidate-Listed u method none cs (inl e) = cc
  add_candidate-Listed u method none cs (inr s) = s
  add_candidate-Listed u method (some v) cs (inl e) = inl (some-injective _ _ e)
  add_candidate-Listed u method (some v) cs (inr s) = inr s

  candidates_in-Listed :
      (base : Url) (method : Method) (targets : List Bytes) (target : Bytes) (u : Url)
      → Some (λ t. t ≡ target) targets
      → parse_in base target ≡ some u
      → Listed u (candidates_in web base method targets)
  unfolding candidates_in
  candidates_in-Listed base method [] target u s e = absurd s
  candidates_in-Listed base method (t ∷ ts) target u (inl same) e =
      add_candidate-Listed u method (parse_in base t) _ (inl (ap (parse_in base) same ∙ e))
  candidates_in-Listed base method (t ∷ ts) target u (inr s) e =
      add_candidate-Listed u method (parse_in base t) _
        (inr (candidates_in-Listed base method ts target u s e))

  IsHtml-is_html : (r : Response Url) → IsHtml web r → is_html web r ≡ true
  unfolding is_html text_eq
  IsHtml-is_html r (inl e) = rw (e, is_html) refl
  IsHtml-is_html r (inr e) = rw (e, is_html) refl

  IsBase-html_base :
      (r : Response Url) (href : Bytes) (b : Url)
      → IsBase web r href b
      → html_base web r.url href ≡ b
  IsBase-html_base r href b (own e) = rw e refl
  IsBase-html_base r href b (unreadable e) = elim (Bool-cases (is_empty href)) [
    | inl t ↦ rw t refl
    | inr t ↦ rw (t, e) refl
  ]
  IsBase-html_base r href b (element _ n e) = rw ((is_empty-eq-false_iff href).1 n, e) refl

  link_candidates-Listed :
      (r : Response Url) (u : Url)
      → Listed u (
          candidates_in web r.url link_header
            (targets_with_rel strings r.link_headers link_relation))
        ⊎ (IsHtml web r × Listed u (html_candidates web r))
      → Listed u (link_candidates web r)
  unfolding link_candidates
  link_candidates-Listed r u (inl s) = elim (Bool-cases (is_html web r)) [
    | inl t ↦ rw t (Some-append (λ c. c.url ≡ u) _ _ (inl s))
    | inr t ↦ rw t s
  ]
  link_candidates-Listed r u (inr (i, s)) =
      rw (IsHtml-is_html r i) (Some-append (λ c. c.url ≡ u) _ _ (inr s))

  linked-Listed :
      (reply : Option (Response Url)) (r : Response Url) (u : Url)
      → reply ≡ some r
      → Succeeds web r
      → Listed u (link_candidates web r)
      → Listed u (linked web reply)
  linked-Listed none r u e s l = cc
  linked-Listed (some q) r u e s l =
      let same = some-injective _ _ (sym e) in
      let t = (success_iff web q).1 (subst (Succeeds web) same s) in
      rw t (subst (λ x. Listed u (link_candidates web x)) same l)

  at_well_known-Listed :
      (bases : List Url) (b u : Url)
      → Some (λ x. x ≡ b) bases
      → u ≡ at_path b (codes "/.well-known/ai-catalog.json")
      → Listed u (map (at_well_known web) bases)
  at_well_known-Listed [] b u s e = absurd s
  at_well_known-Listed (x ∷ xs) b u (inl same) e =
      inl (ap (λ y. at_path y (codes "/.well-known/ai-catalog.json")) same ∙ sym e)
  at_well_known-Listed (x ∷ xs) b u (inr s) e = inr (at_well_known-Listed xs b u s e)

  start_in_bases :
      (start : Url) (reply : Option (Response Url)) → Some (λ x. x ≡ start) (bases web start reply)
  start_in_bases start none = inl refl
  start_in_bases start (some r) = elim (Bool-cases (same_origin web r.url start)) [
    | inl t ↦ rw t (inl refl)
    | inr t ↦ rw t (inr (inl refl))
  ]

  other_origin :
      (a b : Url) → (scheme a ≢ scheme b) ⊎ (host a ≢ host b) → same_origin web a b ≡ false
  unfolding same_origin
  other_origin a b (inl n) = elim (Bool-cases (text_eq (scheme a) (scheme b))) [
    | inl t ↦ absurd (n ((text_eq_iff (scheme a) (scheme b)).0 t))
    | inr t ↦ ground arith
  ]
  other_origin a b (inr n) = elim (Bool-cases (text_eq (host a) (host b))) [
    | inl t ↦ absurd (n ((text_eq_iff (host a) (host b)).0 t))
    | inr t ↦ ground arith
  ]

  reached_in_bases :
      (start : Url) (reply : Option (Response Url)) (r : Response Url)
      → reply ≡ some r
      → (scheme r.url ≢ scheme start) ⊎ (host r.url ≢ host start)
      → Some (λ x. x ≡ r.url) (bases web start reply)
  reached_in_bases start none r e n = cc
  reached_in_bases start (some q) r e n =
      let same = some-injective _ _ (sym e) in
      let t = other_origin r.url start n in
      subst (λ x. Some (λ y. y ≡ r.url) (bases web start (some x))) same (rw t (inl refl))

  -- Every candidate is tried after the URL that was given.
  pub IsCandidate-Listed :
      (start : Url) (reply : Option (Response Url)) (u : Url)
      → IsCandidate web start reply u
      → Listed u (candidates_after web start reply)
  unfolding candidates_after html_candidates
  IsCandidate-Listed start reply u (by_header r target e s m p) =
      Some-append (λ c. c.url ≡ u) (linked web reply) _
        (inl (
          linked-Listed reply r u e s (
            link_candidates-Listed r u
              (inl (candidates_in-Listed r.url link_header _ target u m p)))))
  IsCandidate-Listed start reply u (by_element r base href e s i b m p) =
      let same = IsBase-html_base r _ base b in
      let listed : Listed u (html_candidates web r) =
        candidates_in-Listed (html_base web r.url _) html_link _ href u m
          (subst (λ x. parse_in x href ≡ some u) (sym same) p) in
      Some-append (λ c. c.url ≡ u) (linked web reply) _
        (inl (linked-Listed reply r u e s (link_candidates-Listed r u (inr (i, listed)))))
  IsCandidate-Listed start reply u (well_known_at_start e) =
      Some-append (λ c. c.url ≡ u) (linked web reply) _
        (inr (at_well_known-Listed (bases web start reply) start u (start_in_bases start reply) e))
  IsCandidate-Listed start reply u (well_known_at_reached r e n same) =
      Some-append (λ c. c.url ≡ u) (linked web reply) _
        (inr (
          at_well_known-Listed (bases web start reply) r.url u (reached_in_bases start reply r e n)
            same))
