-- ===== src/Catalog/Source.antt =====
-- catalog/source.go, and the parsers of catalog/catalog.go. A context is whether it is done.
use ai_catalog_go.Prelude.{ok, err, some, none, Option, false, true, Bool, Either, ◌≡◌}
use ai_catalog_go.Catalog.Models.{AiCatalog}
use ai_catalog_go.Text.{Bytes}
use ai_catalog_go.Json.{Json}
use ai_catalog_go.Http.{read_all, Stream}

pub data SourceError : Type 0 where
  context_done read_catalog fetch_catalog parse_catalog : SourceError

-- The interfaces `Source` and `RawSource`.
pub record Source : Type 0 where
  pub load : Bool → Either SourceError AiCatalog

pub record RawSource : Type 0 where
  pub source : Source
  pub raw : Bool → Either SourceError Bytes

-- What a source of a document promises: the catalog and the bytes it was read from while the context
-- is not done, as often as they are asked for, and else the error of the context.
pub record Serves (s : RawSource) (document : Bytes) (c : AiCatalog) : Type 0 where
  pub loads : s.source.load false ≡ ok c
  pub raws : s.raw false ≡ ok document
  pub load_cancelled : s.source.load true ≡ err context_done
  pub raw_cancelled : s.raw true ≡ err context_done

module _ (json : Json) where
  abbrev pub parsed : Option AiCatalog → Either SourceError AiCatalog
  parsed none = err parse_catalog
  parsed (some c) = ok c

  -- `Parse` and `ParseString`
  unfoldable pub parse_text : Bytes → Either SourceError AiCatalog
  parse_text text = parsed (json.catalog text)

  abbrev pub parse_read : Option Bytes → Either SourceError AiCatalog
  parse_read none = err read_catalog
  parse_read (some text) = parse_text text

  -- `ParseReader`, and `ParseFile` for the function that reads a file
  unfoldable pub parse_reader : Stream → Either SourceError AiCatalog
  unfolding parse_text
  parse_reader r = parse_read (read_all r)

  unfoldable pub parse_file : (Bytes → Option Bytes) → Bytes → Either SourceError AiCatalog
  unfolding parse_text
  parse_file read_file path = parse_read (read_file path)
