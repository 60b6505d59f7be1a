-- ===== src/Json.antt =====
-- What the code uses of the package encoding/json, as a record of functions: each field is one way
-- in which the code calls it. A JSON text is its bytes, as a `json.RawMessage` is.
use ai_catalog_go.Prelude.{[], some, none, if◌then◌else◌, ◌∷◌, List, Bool, Option}
use ai_catalog_go.Text.{text_eq, Bytes}
use ai_catalog_go.Catalog.{AiCatalog}

pub record Json : Type 0 where
  -- `json.Unmarshal` into an `AICatalog`
  pub catalog : Bytes → Option AiCatalog
  -- the members of a text that is one JSON object and no more, in the order of the text, repeated
  -- names kept: what the tokens of a `json.Decoder` spell
  pub object : Bytes → Option (List (Bytes × Bytes))
  -- `json.Unmarshal` into a string, where null gives ""
  pub text : Bytes → Option Bytes
  -- whether a value decodes to a Go string in an `any`
  pub is_string : Bytes → Bool
  -- `json.Unmarshal` into a slice of strings, where null gives the empty one
  pub texts : Bytes → Option (List Bytes)

-- The value that a Go map holds for a name: the last of a repeated name.
unfoldable pub last_member : Bytes → List (Bytes × Bytes) → Option Bytes
last_member name [] = none
last_member name ((k, v) ∷ ms) = elim (last_member name ms) [
  | some w ↦ some w
  | none ↦ if text_eq k name then some v else none
]
