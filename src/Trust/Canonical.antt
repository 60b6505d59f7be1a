-- ===== src/Trust/Canonical.antt =====
-- trust/canonical.go: the payload that a signature covers. Every error is `none`. A decoded object
-- is its members; no name is repeated in a canonical text.
pub mod Members
pub mod Payload
pub mod Manifest
mod Tests
use ai_catalog_go.Prelude.{
  [], List, some, none, Option, not, false, true, Bool, is_some, if◌then◌else◌, ◌>>=◌, ◌==◌, ◌&&◌,
  ◌∷◌,
}
use ai_catalog_go.Text.{text_eq, codes, Bytes}
use ai_catalog_go.Json.{Json}
use ai_catalog_go.Jws.{find_member}

-- `utf8.Valid`, `json.Valid`, `jsoncanonicalizer.Transform` and `json.Marshal` of an object's
-- members.
pub record Jcs : Type 0 where
  pub valid_utf8 : Bytes → Bool
  pub valid : Bytes → Bool
  pub transform : Bytes → Option Bytes
  pub marshal : List (Bytes × Bytes) → Option Bytes

abbrev pub signature_member : Bytes
signature_member = codes "signature"

abbrev pub jws_member : Bytes
jws_member = codes "jws"

abbrev pub additional_signatures_member : Bytes
additional_signatures_member = codes "additionalSignatures"

-- `delete`, and the assignment to a member that is there
unfoldable pub drop_member : Bytes → List (Bytes × Bytes) → List (Bytes × Bytes)
drop_member name [] = []
drop_member name ((k, v) ∷ ms) =
    let rest = drop_member name ms in if text_eq k name then rest else (k, v) ∷ rest

unfoldable pub set_member : Bytes → Bytes → List (Bytes × Bytes) → List (Bytes × Bytes)
set_member name w [] = []
set_member name w ((k, v) ∷ ms) =
    let rest = set_member name w ms in if text_eq k name then (k, w) ∷ rest else (k, v) ∷ rest

abbrev pub has_member : Bytes → List (Bytes × Bytes) → Bool
has_member name ms = is_some (find_member name ms)

-- `len(canonical) == 0 || canonical[0] != '{'`
abbrev pub opens_object : Bytes → Bool
opens_object [] = false
opens_object (c ∷ s) = c == b'{'

module _ (jcs : Jcs) where
  unfoldable pub canonicalize : Bytes → Option Bytes
  canonicalize text =
      if not (jcs.valid_utf8 text)
      then none
      else if not (jcs.valid text)
      then none
      else jcs.transform text

module _ (json : Json) (jcs : Jcs) where
  -- the object after `stripJWS`, and whether it removed a member
  abbrev pub Stripped : Type 0
  Stripped = List (Bytes × Bytes) × Bool

  abbrev pub put_signature : List (Bytes × Bytes) → Option Bytes → Option Stripped
  put_signature ms none = none
  put_signature ms (some stripped) = some (set_member signature_member stripped ms, true)

  abbrev pub strip_object : List (Bytes × Bytes) → Option (List (Bytes × Bytes)) → Option Stripped
  strip_object ms none = some (ms, false)
  strip_object ms (some signature) =
      if not (has_member jws_member signature)
      then some (ms, false)
      else put_signature ms (jcs.marshal (drop_member jws_member signature))

  abbrev pub strip_raw : List (Bytes × Bytes) → Option Bytes → Option Stripped
  strip_raw ms none = some (ms, false)
  strip_raw ms (some raw) = strip_object ms (json.object raw)

  unfoldable pub strip_jws : List (Bytes × Bytes) → Option Stripped
  strip_jws ms = strip_raw ms (find_member signature_member ms)

  unfoldable pub payload_of : Bytes → Bool → Stripped → Option Bytes
  payload_of canonical has_additional (rest, stripped) =
      if not has_additional && not stripped
      then some canonical
      else jcs.marshal rest >>= canonicalize jcs

  unfoldable pub sign_members : Bytes → List (Bytes × Bytes) → Option Bytes
  unfolding strip_jws
  sign_members canonical ms = do
    stripped ← strip_jws (drop_member additional_signatures_member ms)
    payload_of canonical (has_member additional_signatures_member ms) stripped

  unfoldable pub canonicalize_for_signature : Bytes → Option Bytes
  unfolding sign_members
  canonicalize_for_signature text = do
    canonical ← canonicalize jcs text
    if not (opens_object canonical)
        then some canonical
        else (json.object canonical >>= λ ms. sign_members canonical ms)
