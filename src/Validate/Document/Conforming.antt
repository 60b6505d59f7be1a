-- ===== src/Validate/Document/Conforming.antt =====
-- Which documents pass.
use ai_catalog_go.Prelude.{
  arith, [], not, true, refl, suc, zero, ℕ, All, is_empty_iff, is_empty, All-members_iff, ◌&&◌, ◌+◌,
  ◌≤◌, ◌↔◌, ◌++◌, ◌≡◌, ◌≢◌,
}
use ai_catalog_go.Validate.Codes.{identifier_not_uri}
use ai_catalog_go.Validate.Document.Walk.{IsLevel, IsEntry, Inside, Conforms, nested, here}
use ai_catalog_go.Json.{Json}
use ai_catalog_go.Catalog.Version.{Times}
use ai_catalog_go.Validate.Document.{
  empty_validator, Visit, validate, validate_catalog, validate_level, validate_entry,
}
use ai_catalog_go.Catalog.{CatalogEntry, AiCatalog}
use ai_catalog_go.Validate.SpecVersion.Rule.{Enforces-validate_spec_version, IsSpecVersion}
use ai_catalog_go.Text.{codes, Bytes}
use ai_catalog_go.Validate.Report.Enforces.{
  Enforces-warn_if, Enforces-for_each, Enforces-when_some, Enforces-then, Enforces-iff, Enforces,
  IfSome,
}
use ai_catalog_go.Validate.Document.Nested.{Enforces-validate_nested_catalog, NestedPasses, Visits}
use ai_catalog_go.Validate.Signature.Rule.{
  Enforces-validate_signature, Enforces-validate_timestamp, IsSignature,
}
use ai_catalog_go.Validate.Signature.{catalog_jws_type}
use ai_catalog_go.Validate.Document.Rules.{
  Enforces-validate_publisher, Enforces-validate_policy_urls, Enforces-validate_host,
  Enforces-validate_artifact_source, Enforces-validate_required_entry_fields,
}
use ai_catalog_go.Validate.Manifest.Rule.{Enforces-validate_extension_keys, HasExtensionKeys}
use ai_catalog_go.Validate.Entries.Unique.{Enforces-validate_entry_uniqueness, Unique}
use ai_catalog_go.Validate.Report.{pass}
use ai_catalog_go.Validate.Manifest.Trust.{Enforces-validate_entry_trust}
use ai_catalog_go.Catalog.Query.{contains_text}

module _ (json : Json) (times : Times) (now max_depth : ℕ) where
  Enforces-validate_entry :
      (visit : Visit) (e : CatalogEntry) (path : Bytes) (depth : ℕ)
      → Visits json times now max_depth visit depth
      → Enforces
          (validate_entry json times now max_depth visit e path depth)
          (IsEntry json times e × NestedPasses json times now max_depth depth e)
  unfolding validate_entry
  Enforces-validate_entry visit e path depth w =
      Enforces-iff
        (
          λ ((i, t), (s, (u, (k, (y, (p, (r, (n, _)))))))). (
            record {
              some_identifier = i;
              some_type = t;
              one_source = s;
              updated = u;
              extension_keys = k;
              policy = y;
              publisher_valid = p;
              trust = r;
            },
            n,
          ),
          λ (r, n). (
            (r.some_identifier, r.some_type),
            (
              r.one_source,
              (r.updated, (r.extension_keys, (r.policy, (r.publisher_valid, (r.trust, (n, tt)))))),
            ),
          ),
        )
        (Enforces-then (Enforces-validate_required_entry_fields e path) (
          Enforces-then (Enforces-validate_artifact_source e path) (
            Enforces-then (Enforces-validate_timestamp times e.updated_at _) (
              Enforces-then (Enforces-validate_extension_keys e.extensions _) (
                Enforces-then (Enforces-validate_policy_urls json e.extensions _) (
                  Enforces-then (Enforces-validate_publisher e.publisher _) (
                    Enforces-then (Enforces-validate_entry_trust json times now e path) (
                      Enforces-then
                        (Enforces-validate_nested_catalog json times now max_depth visit e path
                          depth w)
                        (Enforces-warn_if
                          (not (is_empty e.identifier)
                            && not (contains_text e.identifier (codes ":")))
                          identifier_not_uri (path ++ codes ".identifier"))))))))))

  -- A catalog and those below it, by its members.
  abbrev LevelPasses : ℕ → AiCatalog → Type 0
  LevelPasses depth c =
      IsSpecVersion c.spec_version
      × (IfSome (λ h. h.display_name ≢ []) c.host
          × (IfSome (IsSignature json times catalog_jws_type) c.signature
              × (HasExtensionKeys c.extensions
                  × (Unique c.entries
                      × All
                          (λ e.
                            IsEntry json times e × NestedPasses json times now max_depth depth e)
                          c.entries))))

  level_iff :
      (depth : ℕ) (c : AiCatalog) → LevelPasses depth c ↔ Conforms json times max_depth c depth
  level_iff depth c = (λ l d depth' i. read l d depth' i, λ f. write f)
    where
      read :
          LevelPasses depth c
          → (d : AiCatalog) (depth' : ℕ) → Inside json c depth d depth'
          → IsLevel json times max_depth d depth'
      read (v, (h, (s, (k, (u, es))))) d depth' here = record {
        spec_version_valid = v;
        host_named = h;
        signature_valid = s;
        extension_keys = k;
        unique = u;
        entries_valid = λ e m. let (r, n) = (All-members_iff _ c.entries).0 es e m in (r, n.0);
      }
      read (v, (h, (s, (k, (u, es))))) d depth' (nested e n m is given parsed inner) =
          ((All-members_iff _ c.entries).0 es e m).1.1 n is given parsed d depth' inner

      write : Conforms json times max_depth c depth → LevelPasses depth c
      write f =
          let l = f c depth here in
          (
            l.spec_version_valid,
            (
              l.host_named,
              (
                l.signature_valid,
                (
                  l.extension_keys,
                  (
                    l.unique,
                    (All-members_iff _ c.entries).1 λ e m.
                        let (r, n) = l.entries_valid e m in
                        (
                          r,
                          (
                            n,
                            λ n is given parsed d depth' inner.
                                f d depth' (nested e n m is given parsed inner),
                          ),
                        ),
                  ),
                ),
              ),
            ),
          )

  Enforces-validate_level :
      (visit : Visit) (c : AiCatalog) (path : Bytes) (depth : ℕ)
      → Visits json times now max_depth visit depth
      → Enforces
          (validate_level json times now max_depth visit c path depth)
          (Conforms json times max_depth c depth)
  unfolding validate_level
  Enforces-validate_level visit c path depth w = Enforces-iff (level_iff depth c) (
      Enforces-then (Enforces-validate_spec_version c.spec_version _) (
        Enforces-then (Enforces-validate_host c.host _) (
          Enforces-then
            (Enforces-when_some c.signature
              λ s. Enforces-validate_signature json times s catalog_jws_type _)
            (Enforces-then (Enforces-validate_extension_keys c.extensions _) (
              Enforces-then (Enforces-validate_entry_uniqueness c.entries path) (
                Enforces-for_each 0 c.entries λ i e. Enforces-validate_entry visit e _ depth w))))))

  -- With fuel for the depths that are left, `validateCatalog` reports no error exactly where every
  -- catalog that stands in the given one follows the rules at its depth.
  pub Enforces-validate_catalog :
      (fuel : ℕ) (c : AiCatalog) (path : Bytes) (depth : ℕ)
      → max_depth ≤ fuel + depth
      → Enforces
          (validate_catalog json times now max_depth fuel c path depth)
          (Conforms json times max_depth c depth)
  unfolding validate_catalog
  Enforces-validate_catalog zero c path depth enough =
      Enforces-validate_level (λ _ _ _. pass) c path depth λ shallow. absurd (omega arith)
  Enforces-validate_catalog (suc fuel) c path depth enough =
      Enforces-validate_level (validate_catalog json times now max_depth fuel) c path depth
        λ shallow n path'. Enforces-validate_catalog fuel n path' (depth + 1) (omega arith)

  -- `Validate` reports a valid document exactly where the document and every catalog that stands in
  -- it, at its depth, follow the rules.
  pub validate-IsValid_iff :
      (c : AiCatalog)
      → ((validate json times now max_depth c).is_valid ≡ true) ↔ Conforms json times max_depth c 0
  unfolding validate
  validate-IsValid_iff c =
      let e = Enforces-validate_catalog max_depth c (codes "catalog") 0 (omega arith) in
      (
        λ h. (e.sound empty_validator ((is_empty_iff _).0 h)).1,
        λ p. (is_empty_iff _).1 (e.complete empty_validator refl p),
      )
