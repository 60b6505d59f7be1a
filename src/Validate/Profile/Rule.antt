-- ===== src/Validate/Profile/Rule.antt =====
-- The rules of the did:web signer profile.
-- A key of the signer: its DID, `#` and a fragment that is not empty and is one.
use ai_catalog_go.Prelude.{
  arith, [], some, none, Option, not, false, true, inr, inl, refl, ℕ, any-eq-false_iff, All, any,
  is_empty-eq-false_iff, Bool-cases, ◌==◌, ◌&&◌, ◌↔◌, ◌⊎◌, ◌++◌, ◌≡◌, ◌≢◌,
}
use ai_catalog_go.Validate.Codes.{profile_header, profile_key_id, profile_algorithm, profile_signer}
use ai_catalog_go.Text.{
  text_eq_iff, cut_prefix_iff, text_eq, cut_prefix, contains_any, codes, Bytes,
}
use ai_catalog_go.Catalog.{CatalogEntry, Signature}
use ai_catalog_go.Validate.Profile.{
  key_source_members, profile_algorithm_name, names_signer, good_fragment, is_publisher,
  check_signer_profile, selects_fragment,
}
use ai_catalog_go.Jws.{has, forbidden, Header}
use ai_catalog_go.Identity.{root_did_web, publisher, did}
use mathlib.Core.Option.{some-injective}
use ai_catalog_go.Validate.Report.Advises.{
  Advises-for_each, Advises-unless, Advises-then, Advises-iff, Advises,
}
use ai_catalog_go.Identity.Labels.{root_did_web_iff, valid_publisher_iff, IsPublisher}

abbrev pub IsFragmentByte : ℕ → Type 0
IsFragmentByte c = c ≢ b'/' × (c ≢ b'?' × c ≢ b'#')

abbrev pub SelectsKey : Bytes → Bytes → Type 0
SelectsKey signer key_id =
    (fragment : Bytes) × (key_id ≡ (signer ++ codes "#") ++ fragment)
    × (fragment ≢ [])
    × All IsFragmentByte fragment

-- A signature and its header that follow the profile.
pub record FollowsProfile (s : Signature) (h : Header) : Type 0 where
  pub root_signer : (p : Bytes) × (s.signer ≡ did p) × IsPublisher p
  pub algorithm : (h.algorithm ≡ profile_algorithm_name) ⊎ (forbidden h.algorithm ≡ true)
  pub key : SelectsKey s.signer h.key_id
  pub no_key_sources : All (λ m. has h m ≡ false) key_source_members

IsFragmentByte-iff : (c : ℕ) → (any (λ d. c == d) (codes "/?#") ≡ false) ↔ IsFragmentByte c
IsFragmentByte-iff c = (λ h. ground arith, λ h. ground arith)

contains_any_iff : (s : Bytes) → (contains_any s (codes "/?#") ≡ false) ↔ All IsFragmentByte s
unfolding contains_any
contains_any_iff s = any-eq-false_iff (λ c. any (λ d. c == d) (codes "/?#")) IsFragmentByte-iff s

good_fragment_iff :
    (o : Option Bytes)
    → (good_fragment o ≡ true) ↔ ((f : Bytes) × (o ≡ some f) × (f ≢ []) × All IsFragmentByte f)
good_fragment_iff none = (λ h. cc, λ (f, e, n, a). cc)
good_fragment_iff (some f) = (
  λ h. (f, refl, (is_empty-eq-false_iff f).0 (ground arith), (contains_any_iff f).0 (ground arith)),
  λ (g, e, n, a).
      let same = some-injective _ _ e in
      rw same (ground (arith, (is_empty-eq-false_iff g).1 n, (contains_any_iff g).1 a)),
)

pub selects_fragment_iff :
    (signer key_id : Bytes) → (selects_fragment signer key_id ≡ true) ↔ SelectsKey signer key_id
unfolding selects_fragment
selects_fragment_iff signer key_id =
    let prefix = signer ++ codes "#" in
    let (to, from) = good_fragment_iff (cut_prefix key_id prefix) in
    (
      λ h. let (f, e, n, a) = to h in (f, (cut_prefix_iff key_id prefix f).0 e, n, a),
      λ (f, e, n, a). from (f, (cut_prefix_iff key_id prefix f).1 e, n, a),
    )

algorithm_iff :
    (a : Bytes)
    → ((not (text_eq a profile_algorithm_name) && not (forbidden a)) ≡ false)
      ↔ ((a ≡ profile_algorithm_name) ⊎ (forbidden a ≡ true))
algorithm_iff a = (
  λ h. elim (Bool-cases (text_eq a profile_algorithm_name)) [
    | inl t ↦ inl ((text_eq_iff a profile_algorithm_name).0 t)
    | inr t ↦ inr (ground arith)
  ],
  elim [
    | inl e ↦ ground (arith, (text_eq_iff a profile_algorithm_name).1 e)
    | inr f ↦ ground arith
  ],
)

-- `checkSignerProfile` adds no warning exactly where the signature and its header follow the
-- profile: the signer is the DID of a valid publisher, the algorithm is ES256 or one that is
-- rejected elsewhere, the key is the signer's with a fragment, and no member names another source
-- of keys.
pub Advises-check_signer_profile :
    (s : Signature) (h : Header) (path : Bytes)
    → Advises (check_signer_profile s h path) (FollowsProfile s h)
unfolding check_signer_profile
Advises-check_signer_profile s h path =
    Advises-iff
      (
        λ (r, (a, (k, n))). record { root_signer = r; algorithm = a; key = k; no_key_sources = n },
        λ f. (f.root_signer, (f.algorithm, (f.key, f.no_key_sources))),
      )
      (Advises-then
        (Advises-unless (not (root_did_web s.signer)) profile_signer (path ++ codes ".signer") (
          λ e. (root_did_web_iff s.signer).0 (ground arith),
          λ p. ground (arith, (root_did_web_iff s.signer).1 p),
        ))
        (Advises-then
          (Advises-unless _ profile_algorithm (path ++ codes ".jws") (algorithm_iff h.algorithm))
          (Advises-then
            (Advises-unless (not (selects_fragment s.signer h.key_id)) profile_key_id
              (path ++ codes ".jws")
              (
                λ e. (selects_fragment_iff s.signer h.key_id).0 (ground arith),
                λ p. ground (arith, (selects_fragment_iff s.signer h.key_id).1 p),
              ))
            (Advises-for_each 0 key_source_members λ i m.
              Advises-unless (has h m) profile_header (path ++ codes ".jws") (λ e. e, λ e. e)))))

names_signer_iff :
    (signer : Bytes) (o : Option Bytes)
    → (names_signer signer o ≡ true)
      ↔ ((p : Bytes) × (o ≡ some p) × IsPublisher p × (signer ≡ did p))
names_signer_iff signer none = (λ h. cc, λ (p, e, v, s). cc)
names_signer_iff signer (some p) = (
  λ h. (
    p,
    refl,
    (valid_publisher_iff p).0 (ground arith),
    (text_eq_iff signer (did p)).0 (ground arith),
  ),
  λ (q, e, v, s).
      let same = some-injective _ _ e in
      rw same (ground (arith, (valid_publisher_iff q).1 v, (text_eq_iff signer (did q)).1 s)),
)

-- `isPublisher` accepts exactly a signer that is the root did:web DID of the publisher named in the
-- identifier of the entry, where that publisher is a valid one.
pub is_publisher_iff :
    (e : CatalogEntry) (signer : Bytes)
    → (is_publisher e signer ≡ true)
      ↔ ((p : Bytes) × (publisher e.identifier ≡ some p) × IsPublisher p × (signer ≡ did p))
unfolding is_publisher
is_publisher_iff e signer = names_signer_iff signer (publisher e.identifier)
