-- ===== src/Validate/Document/Rules.antt =====
-- Which of its parts an entry passes with.
use ai_catalog_go.Prelude.{
  sym, arith, [], List, some, none, Option, not, false, true, Bool, inr, inl, refl, all,
  is_empty-eq-false_iff, is_empty, ◌&&◌, ◌∷◌, ◌↔◌, ◌⊎◌, ◌≡◌, ◌≢◌,
}
use ai_catalog_go.Validate.Codes.{
  policy_urls, publisher_member, entry_artifact, entry_member, host_member,
}
use ai_catalog_go.Validate.Document.{
  validate_artifact_source, validate_host, validate_publisher, validate_required_entry_fields,
}
use ai_catalog_go.Text.{codes, Bytes}
use ai_catalog_go.Json.{last_member, Json}
use ai_catalog_go.Catalog.{Members, HostInfo, Publisher, CatalogEntry}
use ai_catalog_go.Validate.Keys.{
  policy_urls_key, validate_policy_urls, policy_valid, member_is_string,
}
use ai_catalog_go.Validate.Report.Enforces.{
  Enforces-pass, Enforces-error, Enforces-if, Enforces-iff, Enforces-when_some, Enforces-unless,
  IfSome, Enforces-then, Enforces,
}
use mathlib.Core.Path.{subst}
use ai_catalog_go.Validate.Document.Walk.{IsNamedPublisher, HasOneSource, IsPolicy}
use mathlib.Core.Option.{some-injective}
use ai_catalog_go.Jws.{find_member}

pub Enforces-validate_required_entry_fields :
    (e : CatalogEntry) (path : Bytes)
    → Enforces (validate_required_entry_fields e path) ((e.identifier ≢ []) × (e.type ≢ []))
unfolding validate_required_entry_fields
Enforces-validate_required_entry_fields e path =
    Enforces-then (Enforces-unless _ entry_member _ (is_empty-eq-false_iff e.identifier))
      (Enforces-unless _ entry_member _ (is_empty-eq-false_iff e.type))

pub Enforces-validate_publisher :
    (publisher : Option Publisher) (path : Bytes)
    → Enforces (validate_publisher publisher path) (IfSome IsNamedPublisher publisher)
unfolding validate_publisher
Enforces-validate_publisher publisher path = Enforces-when_some publisher λ p.
    Enforces-iff
      (
        λ (i, d). record { some_identifier = i; some_display_name = d },
        λ r. (r.some_identifier, r.some_display_name),
      )
      (Enforces-then (Enforces-unless _ publisher_member _ (is_empty-eq-false_iff p.identifier))
        (Enforces-unless _ publisher_member _ (is_empty-eq-false_iff p.display_name)))

pub Enforces-validate_host :
    (host : Option HostInfo) (path : Bytes)
    → Enforces (validate_host host path) (IfSome (λ h. h.display_name ≢ []) host)
unfolding validate_host
Enforces-validate_host host path =
    Enforces-when_some host
      λ h. Enforces-unless _ host_member _ (is_empty-eq-false_iff h.display_name)

source_iff :
    (u c : Bytes)
    → (((not (is_empty u) && not (is_empty c)) ≡ false)
        × ((not (not (is_empty u)) && not (not (is_empty c))) ≡ false))
      ↔ (((u ≢ []) × (c ≡ [])) ⊎ ((u ≡ []) × (c ≢ [])))
source_iff [] [] =
    (λ (_, h). cc, elim [ inl (n, _) ↦ absurd (n refl) | inr (_, n) ↦ absurd (n refl) ])
source_iff [] (b ∷ c) = (λ _. inr (refl, λ e. cc), λ _. (refl, refl))
source_iff (b ∷ u) [] = (λ _. inl ((λ e. cc), refl), λ _. (refl, refl))
source_iff (b ∷ u) (d ∷ c) =
    (λ (h, _). cc, elim [ inl (_, e) ↦ absurd (cc) | inr (e, _) ↦ absurd (cc) ])

pub Enforces-validate_artifact_source :
    (e : CatalogEntry) (path : Bytes) → Enforces (validate_artifact_source e path) (HasOneSource e)
unfolding validate_artifact_source
Enforces-validate_artifact_source e path =
    Enforces-iff
      (
        elim [
          | inl (_, x) ↦ absurd x
          | inr (_, inl (_, x)) ↦ absurd x
          | inr (both, inr (neither, _)) ↦ (source_iff e.url e.content).0 (both, neither)
        ],
        λ s.
            let (both, neither) = (source_iff e.url e.content).1 s in inr (both, inr (neither, tt)),
      )
      (Enforces-if (not (is_empty e.url) && not (is_empty e.content))
        (Enforces-error entry_artifact path)
        (Enforces-if (not (not (is_empty e.url)) && not (not (is_empty e.content)))
          (Enforces-error entry_artifact path) Enforces-pass))

module _ (json : Json) where
  string_iff :
      (o : Option Bytes)
      → (member_is_string json o ≡ true) ↔ ((v : Bytes) → o ≡ some v → json.is_string v ≡ true)
  string_iff none = (λ _ v e. cc, λ _. refl)
  string_iff (some w) =
      (λ h v e. subst (λ x. json.is_string x ≡ true) (some-injective _ _ e) h, λ f. f w refl)

  IsPolicy-iff : (raw : Bytes) → (not (policy_valid json raw) ≡ false) ↔ IsPolicy json raw
  unfolding policy_valid
  IsPolicy-iff raw = (λ h. read (json.object raw) refl h, write)
    where
      names : List Bytes
      names = codes "privacyPolicyUrl" ∷ codes "termsOfServiceUrl" ∷ []

      all_strings : List (Bytes × Bytes) → Bool
      all_strings ms = all (λ name. member_is_string json (last_member name ms)) names

      read :
          (o : Option (List (Bytes × Bytes)))
          → json.object raw ≡ o
          → not (elim o [ some ms ↦ all_strings ms | none ↦ false ]) ≡ false
          → IsPolicy json raw
      read none same h = cc
      read (some ms) same h = record {
        members = ms;
        is_object = same;
        privacy = (string_iff (last_member (codes "privacyPolicyUrl") ms)).0 (ground arith);
        terms = (string_iff (last_member (codes "termsOfServiceUrl") ms)).0 (ground arith);
      }

      verdict :
          (o : Option (List (Bytes × Bytes))) (ms : List (Bytes × Bytes))
          → o ≡ some ms
          → all_strings ms ≡ true
          → not (elim o [ some l ↦ all_strings l | none ↦ false ]) ≡ false
      verdict none ms e h = cc
      verdict (some l) ms e h =
          subst (λ x. not (all_strings x) ≡ false) (sym (some-injective _ _ e)) (ground arith)

      write : IsPolicy json raw → not (policy_valid json raw) ≡ false
      write i = verdict (json.object raw) i.members i.is_object (
          ground (
            arith,
            (string_iff (last_member (codes "privacyPolicyUrl") i.members)).1 i.privacy,
            (string_iff (last_member (codes "termsOfServiceUrl") i.members)).1 i.terms,
          ))

  pub Enforces-validate_policy_urls :
      (extensions : Members) (path : Bytes)
      → Enforces
          (validate_policy_urls json extensions path)
          (IfSome (IsPolicy json) (find_member policy_urls_key extensions))
  unfolding validate_policy_urls
  Enforces-validate_policy_urls extensions path =
      Enforces-when_some (find_member policy_urls_key extensions)
        λ raw. Enforces-unless _ policy_urls path (IsPolicy-iff raw)
