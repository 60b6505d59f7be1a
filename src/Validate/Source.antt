-- ===== src/Validate/Source.antt =====
-- validate/source.go: the validation of what a source loads.
use ai_catalog_go.Prelude.{ok, err, Bool, ℕ, Either}
use ai_catalog_go.Json.{Json}
use ai_catalog_go.Catalog.Version.{Times}
use ai_catalog_go.Catalog.Source.{Source, SourceError}
use ai_catalog_go.Validate.Document.{Result, validate}
use ai_catalog_go.Catalog.{AiCatalog}

module _ (json : Json) (times : Times) (now max_depth : ℕ) where
  abbrev pub validate_loaded : Either SourceError AiCatalog → Either SourceError Result
  validate_loaded (err e) = err e
  validate_loaded (ok c) = ok (validate json times now max_depth c)

  -- the function `Source`, for a context
  unfoldable pub validate_source : Bool → Source → Either SourceError Result
  unfolding validate
  validate_source is_done s = validate_loaded (s.load is_done)
