-- ===== src/Identity/Labels.antt =====
-- `ValidPublisher`, `RootDIDWeb` and `Publisher` against the rules they state.
use ai_catalog_go.Prelude.{
  ap, ◌∙◌, Bool-cases, ◌⊎◌, ◌++◌, ◌≢◌, some, ◌≤◌, ◌≡◌, refl, ◌↔◌, inl, inr, true, false, List, [],
  ◌∷◌, arith, All, any, length, ltb, Option-cases,
}
use ai_catalog_go.Text.{
  cut_not_found, cut_found, cut_at, cut_missing, cut, Lacks, Bytes, split, cut_prefix,
  cut_prefix_iff,
}
use ai_catalog_go.Regex.{match}
use ai_catalog_go.Regex.Matching.{match_iff}
use ai_catalog_go.Identity.{
  publisher, nonempty, urn_air_prefix, did_web_prefix, domain, max_label_len, is_address,
  valid_publisher, root_did_web, did,
}
use ai_catalog_go.Identity.Domain.{IsLabel, Matches-domain_iff}
use mathlib.Core.Path.{subst}

-- A domain that can stand in a root did:web DID.
pub record IsPublisher (p : Bytes) : Type 0 where
  pub name_fits : length p ≤ 253
  pub labels : All IsLabel (split p b'.')
  pub labels_fit : All (λ l. length l ≤ 63) (split p b'.')
  pub no_address : is_address p ≡ false

any-long_iff :
    (ls : List Bytes)
    → (any (λ l. ltb max_label_len (length l)) ls ≡ false) ↔ All (λ l. length l ≤ 63) ls
any-long_iff [] = (λ _. tt, λ _. refl)
any-long_iff (l ∷ ls) = (
  λ h. (ground arith, (any-long_iff ls).0 (ground arith)),
  λ h. ground (arith, (any-long_iff ls).1 h.1),
)

match-domain_iff : (p : Bytes) → (match domain p ≡ true) ↔ All IsLabel (split p b'.')
match-domain_iff p =
    let (sound, complete) = match_iff domain p in
    let (to, from) = Matches-domain_iff p in (λ h. to (sound h), λ h. complete (from h))

valid_publisher_sound : (p : Bytes) → valid_publisher p ≡ true → IsPublisher p
unfolding valid_publisher
valid_publisher_sound p h = record {
  name_fits = ground arith;
  labels = (match-domain_iff p).0 (ground arith);
  labels_fit = (any-long_iff (split p b'.')).0 (ground arith);
  no_address = ground arith;
}

valid_publisher_complete : (p : Bytes) → IsPublisher p → valid_publisher p ≡ true
unfolding valid_publisher
valid_publisher_complete p v =
    let matched = (match-domain_iff p).1 v.labels in
    let short = (any-long_iff (split p b'.')).1 v.labels_fit in
    let fits = v.name_fits in let other = v.no_address in ground arith

-- `ValidPublisher` accepts exactly the names of at most 253 bytes whose parts between dots are
-- labels of at most 63 bytes, that are no IP address in dotted decimal.
pub valid_publisher_iff : (p : Bytes) → (valid_publisher p ≡ true) ↔ IsPublisher p
valid_publisher_iff p = (valid_publisher_sound p, valid_publisher_complete p)

-- `RootDIDWeb` accepts exactly the DIDs that `DID` makes of a valid publisher.
pub root_did_web_iff :
    (value : Bytes) → (root_did_web value ≡ true) ↔ ((p : Bytes) × (value ≡ did p) × IsPublisher p)
unfolding root_did_web did
root_did_web_iff value = (
  λ h. elim (Option-cases (cut_prefix value did_web_prefix)) [
    | inl missing ↦ absurd (ground arith)
    | inr (p, found) ↦
        (p, (cut_prefix_iff value did_web_prefix p).0 found, valid_publisher_sound p (ground arith))
  ],
  λ (p, same, v).
      rw ((cut_prefix_iff value did_web_prefix p).1 same) (valid_publisher_complete p v),
)

-- The identifier carries `p` where a `urn:air:` identifier carries its publisher.
abbrev pub Publishes : Bytes → Bytes → Type 0
Publishes identifier p =
    (identifier ≡ urn_air_prefix ++ p)
    ⊎ ((rest : Bytes) × (identifier ≡ urn_air_prefix ++ (p ++ (b':' ∷ rest))))

cut_colon :
    (s : Bytes)
    → Lacks b':' (cut s b':').0
      × ((s ≡ (cut s b':').0) ⊎ (s ≡ (cut s b':').0 ++ (b':' ∷ (cut s b':').1)))
cut_colon s = elim (Bool-cases (cut s b':').2) [
  | inl found ↦ let (spelled, lacking) = cut_found s b':' found in (lacking, inr spelled)
  | inr missing ↦ let (whole, lacking) = cut_not_found s b':' missing in (lacking, inl whole)
]

nonempty_iff : (s p : Bytes) → (nonempty s ≡ some p) ↔ ((s ≡ p) × (p ≢ []))
nonempty_iff [] p = (λ h. cc, λ (e, n). absurd (n (cc)))
nonempty_iff (c ∷ s) p = (λ h. (cc, λ e. cc), λ (e, n). cc)

publisher_sound :
    (identifier p : Bytes)
    → publisher identifier ≡ some p
    → (p ≢ []) × Lacks b':' p × Publishes identifier p
unfolding publisher
publisher_sound identifier p h = elim (Option-cases (cut_prefix identifier urn_air_prefix)) [
  | inl missing ↦ absurd (ground arith)
  | inr (rest, found) ↦
      let (first, some_name) = (nonempty_iff (cut rest b':').0 p).0 (rw found at h) in
      let whole = (cut_prefix_iff identifier urn_air_prefix rest).0 found in
      let (lacking, parts) = cut_colon rest in
      (
        some_name,
        subst (Lacks b':') first lacking,
        elim parts [
          | inl e ↦ inl (whole ∙ ap (λ v. urn_air_prefix ++ v) (e ∙ first))
          | inr e ↦ inr (
            (cut rest b':').1,
            whole
                ∙ ap (λ v. urn_air_prefix ++ v)
                    (e ∙ ap (λ v. v ++ (b':' ∷ (cut rest b':').1)) first),
          )
        ],
      )
]

publisher_complete :
    (identifier p : Bytes)
    → (p ≢ []) × Lacks b':' p × Publishes identifier p
    → publisher identifier ≡ some p
unfolding publisher
publisher_complete identifier p (some_name, lacking, inl e) =
    rw ((cut_prefix_iff identifier urn_air_prefix p).1 e, cut_missing p b':' lacking)
      ((nonempty_iff p p).1 (refl, some_name))
publisher_complete identifier p (some_name, lacking, inr (rest, e)) =
    rw ((cut_prefix_iff identifier urn_air_prefix _).1 e, cut_at p rest b':' lacking)
      ((nonempty_iff p p).1 (refl, some_name))

-- `Publisher` returns `p` exactly when the identifier begins with `urn:air:` followed by `p`, which
-- is not empty and holds no colon, and by the end of the identifier or a colon.
pub publisher_iff :
    (identifier p : Bytes)
    → (publisher identifier ≡ some p) ↔ ((p ≢ []) × Lacks b':' p × Publishes identifier p)
publisher_iff identifier p = (publisher_sound identifier p, publisher_complete identifier p)
