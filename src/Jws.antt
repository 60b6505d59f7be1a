-- ===== src/Jws.antt =====
-- internal/jws/jws.go: JWS protected headers. An error is `none`.
pub mod Forms
pub mod Parsing
mod Tests
use ai_catalog_go.Prelude.{
  map, [], List, some, none, Option, not, false, true, Bool, ℕ, is_empty, length, ◌>>=◌,
  if◌then◌else◌, ◌==◌, ◌&&◌, ◌∷◌,
}
use ai_catalog_go.Text.{cut, codes, text_eq, equal_fold, split, contains, Bytes}
use ai_catalog_go.Json.{Json}
use ai_catalog_go.Base64.{base64_decode}

-- A decoded protected header; `members` holds the names of all its members.
pub record Header : Type 0 where
  pub algorithm : Bytes
  pub key_id : Bytes
  pub type : Bytes
  pub members : List Bytes

unfoldable pub has : Header → Bytes → Bool
unfolding contains text_eq
has h name = contains h.members name

abbrev pub compact_parts : ℕ
compact_parts = 3

abbrev three_parts : List Bytes → Bool
three_parts (a ∷ b ∷ c ∷ []) = not (is_empty a) && is_empty b && not (is_empty c)
three_parts _ = false

unfoldable pub detached : Bytes → Bool
unfolding split
detached signature =
    let parts = split signature b'.' in length parts == compact_parts && three_parts parts

unfoldable pub forbidden : Bytes → Bool
unfolding equal_fold
forbidden algorithm = equal_fold algorithm (codes "none")

-- the first member of a name
unfoldable pub find_member : Bytes → List (Bytes × Bytes) → Option Bytes
unfolding text_eq
find_member name [] = none
find_member name ((k, v) ∷ ms) =
    let rest = find_member name ms in if text_eq k name then some v else rest

-- the loop of `decodeMembers`: a name that was found before is refused
no_repeats : List Bytes → List (Bytes × Bytes) → Bool
unfolding contains text_eq
no_repeats found [] = true
no_repeats found ((k, v) ∷ ms) = not (contains found k) && no_repeats (k ∷ found) ms

module _ (json : Json) where
  unfoldable pub decode_members : Bytes → Option (List (Bytes × Bytes))
  unfolding no_repeats
  decode_members raw = do ms ← json.object raw; if no_repeats [] ms then some ms else none

  unfoldable pub string_member : List (Bytes × Bytes) → Bytes → Option Bytes
  unfolding find_member
  string_member fields name = elim (find_member name fields) [
    | none ↦ some []
    | some raw ↦ json.text raw
  ]

  unfoldable pub parse : Bytes → Option Header
  parse signature = do
    raw ← base64_decode (cut signature b'.').0
    fields ← decode_members raw
    algorithm ← string_member fields (codes "alg")
    key_id ← if is_empty algorithm then none else string_member fields (codes "kid")
    type ← string_member fields (codes "typ")
    some (record {
      algorithm = algorithm;
      key_id = key_id;
      type = type;
      members = map (λ (m : Bytes × Bytes). m.0) fields;
    })
