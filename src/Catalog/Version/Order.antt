-- ===== src/Catalog/Version/Order.antt =====
-- Which of two entries `GetLatest` prefers, described apart from the code.
use ai_catalog_go.Prelude.{
  arith, [], some, none, true, inr, inl, ap, sym, refl, ℕ, All, is_empty-eq-false_iff, ltb_iff,
  Option-cases, Bool-cases, ◌∙◌, ◌==◌, ◌||◌, ◌<◌, ◌∷◌, ◌↔◌, ◌⊎◌, ◌++◌, ◌≡◌, ◌≢◌,
}
use ai_catalog_go.Catalog.Version.{
  updated_after, updated_at, semver_key, Times, trim_v, Semver, greater, equal,
}
use ai_catalog_go.Text.{Bytes}
use ai_catalog_go.Catalog.Models.{CatalogEntry}

-- What stands in front of a version: letters v alone.
abbrev pub IsPrefix : Bytes → Type 0
IsPrefix s = All (λ c. (c ≡ b'v') ⊎ (c ≡ b'V')) s

-- What does not begin with a letter v.
pub data IsBare : Bytes → Type 0 where
  empty : IsBare []
  begins : (c : ℕ) (s : Bytes) → c ≢ b'v' → c ≢ b'V' → IsBare (c ∷ s)

trim_v-bare : (s : Bytes) → IsBare s → trim_v s ≡ s
trim_v-bare [] b = refl
trim_v-bare _ (begins c s n m) = ground arith

trim_v-append : (before s : Bytes) → IsPrefix before → IsBare s → trim_v (before ++ s) ≡ s
trim_v-append [] s p b = trim_v-bare s b
trim_v-append (c ∷ before) s (p, ps) b =
    let rest = trim_v-append before s ps b in elim p [ inl v ↦ rw v rest | inr v ↦ rw v rest ]

-- A text is a prefix and what `trim_v` leaves.
record Trimmed (s : Bytes) : Type 0 where
  before : Bytes
  split : s ≡ before ++ trim_v s
  all_v : IsPrefix before
  bare : IsBare (trim_v s)

trim_v-Trimmed : (s : Bytes) → Trimmed s
trim_v-Trimmed [] = record { before = []; split = refl; all_v = tt; bare = empty }
trim_v-Trimmed (c ∷ s) = elim (Bool-cases (c == b'v' || c == b'V')) [
  | inl t ↦
      let r = trim_v-Trimmed s in
      let v : (c ≡ b'v') ⊎ (c ≡ b'V') = ground arith in
      record {
        before = c ∷ r.before;
        split = rw t (ap (λ x. c ∷ x) r.split);
        all_v = (v, r.all_v);
        bare = rw t r.bare;
      }
  | inr t ↦ record {
    before = [];
    split = rw t refl;
    all_v = tt;
    bare = rw t (begins c s (ground arith) (ground arith));
  }
]

module _ (semver : Semver) (times : Times) where
  -- The semantic version of a text that is not empty: a v and what follows its letters v, if that is
  -- valid.
  pub record IsVersion (version key : Bytes) : Type 0 where
    pub prefix : Bytes
    pub number : Bytes
    pub given : version ≢ []
    pub split : version ≡ prefix ++ number
    pub all_v : IsPrefix prefix
    pub bare : IsBare number
    pub made : key ≡ b'v' ∷ number
    pub valid : semver.is_valid key ≡ true

  abbrev pub Unversioned : Bytes → Type 0
  Unversioned version = (key : Bytes) → ¬ IsVersion version key

  -- When an entry was updated: at its timestamp, or at the zero time if that does not parse.
  pub data IsUpdated (e : CatalogEntry) : ℕ → Type 0 where
    at_time : (t : ℕ) → times.parse e.updated_at ≡ some t → IsUpdated e t
    never : times.parse e.updated_at ≡ none → IsUpdated e times.zero_time

  pub record IsNewer (a b : CatalogEntry) : Type 0 where
    pub time : ℕ
    pub other_time : ℕ
    pub updated : IsUpdated a time
    pub other_updated : IsUpdated b other_time
    pub after : other_time < time

  -- An entry with a semantic version comes before one without; of two with one, the greater version,
  -- and at the same version the newer update; of two without, the newer update.
  pub data IsLater (a b : CatalogEntry) : Type 0 where
    versioned : (k : Bytes) → IsVersion a.version k → Unversioned b.version → IsLater a b
    greater_version :
        (k l : Bytes)
        → IsVersion a.version k
        → IsVersion b.version l
        → semver.compare k l ≡ greater
        → IsLater a b
    same_version :
        (k l : Bytes)
        → IsVersion a.version k
        → IsVersion b.version l
        → semver.compare k l ≡ equal
        → IsNewer a b
        → IsLater a b
    unversioned : Unversioned a.version → Unversioned b.version → IsNewer a b → IsLater a b

  pub semver_key_sound :
      (version key : Bytes) → semver_key semver times version ≡ some key → IsVersion version key
  unfolding semver_key
  semver_key_sound version key e =
      let t = trim_v-Trimmed version in
      let made : key ≡ b'v' ∷ trim_v version = ground arith in
      let valid : semver.is_valid (b'v' ∷ trim_v version) ≡ true = ground arith in
      record {
        prefix = t.before;
        number = trim_v version;
        given = (is_empty-eq-false_iff version).0 (ground arith);
        split = t.split;
        all_v = t.all_v;
        bare = t.bare;
        made = made;
        valid = rw made valid;
      }

  pub semver_key_complete :
      (version key : Bytes) → IsVersion version key → semver_key semver times version ≡ some key
  unfolding semver_key
  semver_key_complete version key i =
      let trimmed : trim_v version ≡ i.number =
        ap trim_v i.split ∙ trim_v-append i.prefix i.number i.all_v i.bare in
      let filled = (is_empty-eq-false_iff version).1 i.given in
      let valid : semver.is_valid (b'v' ∷ i.number) ≡ true = rw i.made at i.valid in
      rw (filled, trimmed, valid) (ap some (sym i.made))

  pub no_key : (version : Bytes) → semver_key semver times version ≡ none → Unversioned version
  no_key version e key i = let k = sym e ∙ semver_key_complete version key i in cc

  updated_at-IsUpdated : (e : CatalogEntry) → IsUpdated e (updated_at semver times e)
  unfolding updated_at
  updated_at-IsUpdated e = elim (Option-cases (times.parse e.updated_at)) [
    | inl n ↦ rw (n, updated_at) (never n)
    | inr (t, s) ↦ rw (s, updated_at) (at_time t s)
  ]

  IsUpdated-same : (e : CatalogEntry) (t : ℕ) → IsUpdated e t → updated_at semver times e ≡ t
  unfolding updated_at
  IsUpdated-same e _ (at_time t s) = rw (s, updated_at) refl
  IsUpdated-same e _ (never n) = rw (n, updated_at) refl

  pub updated_after_iff :
      (a b : CatalogEntry) → (updated_after semver times a b ≡ true) ↔ IsNewer a b
  unfolding updated_after
  updated_after_iff a b = (
    λ h. record {
      time = updated_at semver times a;
      other_time = updated_at semver times b;
      updated = updated_at-IsUpdated a;
      other_updated = updated_at-IsUpdated b;
      after = (ltb_iff (updated_at semver times b) (updated_at semver times a)).0 h;
    },
    λ n.
        let s = IsUpdated-same a n.time n.updated in
        let o = IsUpdated-same b n.other_time n.other_updated in let l = n.after in ground arith,
  )
