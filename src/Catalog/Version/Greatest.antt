-- ===== src/Catalog/Version/Greatest.antt =====
-- Which entry `GetLatest` chooses.
-- What golang.org/x/mod/semver documents of `Compare`: it is a total order on the classes of
-- versions with equal precedence.
use ai_catalog_go.Prelude.{
  sym, All-map, ◌∙◌, [], List, Bool, inr, inl, All, Bool-cases, ◌∷◌, ◌++◌, arith, some, none,
  Option, false, true, refl, ◌↔◌, ◌≡◌, ◌≢◌,
}
use ai_catalog_go.Catalog.Version.{
  versions, get_latest, choose, updated_after, Times, Semver, greater, equal, less,
}
use ai_catalog_go.Text.{text_eq_iff, text_eq, Bytes}
use ai_catalog_go.Catalog.Version.Latest.{choose-greatest, greatest, later, later_keys}
use ai_catalog_go.Catalog.Models.{AiCatalog, CatalogEntry}
use ai_catalog_go.Catalog.Query.Laws.{select-eq-nil_iff}
use ai_catalog_go.Catalog.Version.Order.{IsLater}
use ai_catalog_go.Catalog.Version.Preference.{later_iff}

pub record SemverLaws (semver : Semver) : Type 0 where
  pub flip : (a b : Bytes) → (semver.compare a b ≡ greater) ↔ (semver.compare b a ≡ less)
  pub trans_greater :
      (a b c : Bytes)
      → semver.compare a b ≡ greater
      → semver.compare b c ≢ less
      → semver.compare a c ≡ greater
  pub trans_equal :
      (a b c : Bytes) → semver.compare a b ≡ equal → semver.compare a c ≡ semver.compare b c

-- `r` is in the list, greater than all before it and not exceeded by what stands behind it.
pub record FirstGreatest (gt : CatalogEntry → CatalogEntry → Bool) (es : List CatalogEntry)
    (r : CatalogEntry) : Type 0 where
  pub before : List CatalogEntry
  pub after : List CatalogEntry
  pub split : es ≡ before ++ (r ∷ after)
  pub earlier : All (λ e. gt r e ≡ true) before
  pub rest : All (λ e. gt e r ≡ false) after

module _ (semver : Semver) (times : Times) (laws : SemverLaws semver) where
  later_keys_asym :
      (k l : Option Bytes) (a b : CatalogEntry)
      → later_keys semver times k l a b ≡ true
      → later_keys semver times l k b a ≡ false
  unfolding later_keys updated_after
  later_keys_asym (some k) (some l) a b h = ground (arith, laws.flip k l, laws.flip l k)
  later_keys_asym (some k) none a b h = refl
  later_keys_asym none (some l) a b h = cc
  later_keys_asym none none a b h = ground arith

  -- What is later than `b` is later than all that is not later than `b`.
  later_keys_trans :
      (k l m : Option Bytes) (a b c : CatalogEntry)
      → later_keys semver times k l a b ≡ true
      → later_keys semver times m l c b ≡ false
      → later_keys semver times k m a c ≡ true
  unfolding later_keys updated_after
  later_keys_trans (some k) (some l) (some m) a b c h g =
      ground (arith, laws.flip m l, laws.flip l m, laws.trans_greater k l m, laws.trans_equal k l m)
  later_keys_trans (some k) l none a b c h g = refl
  later_keys_trans (some k) none (some m) a b c h g = cc
  later_keys_trans none (some l) m a b c h g = cc
  later_keys_trans none none (some m) a b c h g = cc
  later_keys_trans none none none a b c h g = ground arith

  abbrev Later : CatalogEntry → CatalogEntry → Type 0
  Later a b = later semver times a b ≡ true

  later_asym : (a b : CatalogEntry) → Later a b → later semver times b a ≡ false
  unfolding later
  later_asym a b = later_keys_asym _ _ a b

  later_trans : (a b c : CatalogEntry) → Later a b → later semver times c b ≡ false → Later a c
  unfolding later
  later_trans a b c = later_keys_trans _ _ _ a b c

  -- A new head that the next entry exceeds.
  cons_loser :
      (b e r : CatalogEntry) (es before after : List CatalogEntry)
      → Later e b
      → e ∷ es ≡ before ++ (r ∷ after)
      → All (Later r) before
      → All (λ x. later semver times x r ≡ false) after
      → FirstGreatest (later semver times) (b ∷ (e ∷ es)) r
  cons_loser b e r es [] after wins same h k =
      let first : e ≡ r = cc in
      record {
        before = b ∷ [];
        after = after;
        split = cc;
        earlier = (rw first at wins, tt);
        rest = k;
      }
  cons_loser b e r es (x ∷ before) after wins same (h, hs) k =
      let first : x ≡ e = cc in
      let beats : Later r e = rw first at h in
      record {
        before = b ∷ (x ∷ before);
        after = after;
        split = cc;
        earlier = (later_trans r e b beats (later_asym e b wins), (h, hs));
        rest = k;
      }

  -- A second entry that does not exceed the head.
  insert_second :
      (b e r : CatalogEntry) (es before after : List CatalogEntry)
      → later semver times e b ≡ false
      → b ∷ es ≡ before ++ (r ∷ after)
      → All (Later r) before
      → All (λ x. later semver times x r ≡ false) after
      → FirstGreatest (later semver times) (b ∷ (e ∷ es)) r
  insert_second b e r es [] after stays same h k =
      let first : b ≡ r = cc in
      record {
        before = [];
        after = e ∷ after;
        split = cc;
        earlier = tt;
        rest = (rw first at stays, k);
      }
  insert_second b e r es (x ∷ before) after stays same (h, hs) k =
      let first : x ≡ b = cc in
      let beats : Later r b = rw first at h in
      record {
        before = x ∷ (e ∷ before);
        after = after;
        split = cc;
        earlier = (h, (later_trans r b e beats stays, hs));
        rest = k;
      }

  greatest-First :
      (b : CatalogEntry) (es : List CatalogEntry)
      → FirstGreatest (later semver times) (b ∷ es) (greatest semver times b es)
  unfolding greatest
  greatest-First b [] = record { before = []; after = []; split = refl; earlier = tt; rest = tt }
  greatest-First b (e ∷ es) = elim (Bool-cases (later semver times e b)) [
    | inl wins ↦
        let f = greatest-First e es in
        rw wins (cons_loser b e _ es f.before f.after wins f.split f.earlier f.rest)
    | inr stays ↦
        let f = greatest-First b es in
        rw stays (insert_second b e _ es f.before f.after stays f.split f.earlier f.rest)
  ]

  choose-First :
      (es : List CatalogEntry)
      → es ≢ []
      → (r : CatalogEntry) × (choose semver times es ≡ some r)
        × FirstGreatest (later semver times) es r
  choose-First [] h = absurd (h refl)
  choose-First (e ∷ es) h =
      (greatest semver times e es, choose-greatest semver times e es, greatest-First e es)

-- Of the entries: `r` is later than all before it, and none behind it is later than `r`.
pub record IsLatest (semver : Semver) (times : Times) (es : List CatalogEntry) (r : CatalogEntry)
    : Type 0 where
  pub before : List CatalogEntry
  pub after : List CatalogEntry
  pub split : es ≡ before ++ (r ∷ after)
  pub earlier : All (λ e. IsLater semver times r e) before
  pub rest : All (λ e. ¬ IsLater semver times e r) after

FirstGreatest-IsLatest :
    (semver : Semver) (times : Times) (es : List CatalogEntry) (r : CatalogEntry)
    → FirstGreatest (later semver times) es r
    → IsLatest semver times es r
FirstGreatest-IsLatest semver times es r f = record {
  before = f.before;
  after = f.after;
  split = f.split;
  earlier = All-map (λ e h. (later_iff semver times r e).0 h) f.before f.earlier;
  rest =
      All-map (λ e h i. let k : false ≡ true = sym h ∙ (later_iff semver times e r).1 i in cc)
        f.after f.rest;
}

-- Where semantic versions are totally ordered: if the catalog has an entry with the identifier,
-- `GetLatest` returns one, later than all entries with that identifier before it in the document, and
-- none behind it is later. An entry is later than another if it has a valid semantic version and the
-- other has none, if its version is greater, or if it was updated later and both have equal versions
-- or both have none; a time of update that does not parse is the zero time.
pub get_latest-First :
    (semver : Semver) (times : Times) (c : AiCatalog) (id : Bytes)
    → SemverLaws semver
    → versions c id ≢ []
    → (r : CatalogEntry) × (get_latest semver times c id ≡ some r)
      × IsLatest semver times (versions c id) r
unfolding get_latest
get_latest-First semver times c id laws h =
    let (r, same, f) = choose-First semver times laws (versions c id) h in
    (r, same, FirstGreatest-IsLatest semver times (versions c id) r f)

choose-eq-none_iff :
    (semver : Semver) (times : Times) (es : List CatalogEntry)
    → (choose semver times es ≡ none) ↔ (es ≡ [])
choose-eq-none_iff semver times [] = (λ _. refl, λ _. unfold choose in refl)
choose-eq-none_iff semver times (e ∷ es) = (λ h. cc (choose-greatest semver times e es), λ h. cc)

versions-eq-nil_iff :
    (c : AiCatalog) (id : Bytes) → (versions c id ≡ []) ↔ All (λ x. x.identifier ≢ id) c.entries
unfolding versions
versions-eq-nil_iff c id =
    select-eq-nil_iff (λ e. text_eq e.identifier id) (λ e. text_eq_iff e.identifier id) c.entries

-- `GetLatest` finds nothing exactly when no entry has the identifier.
pub get_latest-eq-none_iff :
    (semver : Semver) (times : Times) (c : AiCatalog) (id : Bytes)
    → (get_latest semver times c id ≡ none) ↔ All (λ x. x.identifier ≢ id) c.entries
unfolding get_latest
get_latest-eq-none_iff semver times c id =
    let (to, from) = choose-eq-none_iff semver times (versions c id) in
    let (none_selected, all_skipped) = versions-eq-nil_iff c id in
    (λ h. none_selected (to h), λ h. from (all_skipped h))
