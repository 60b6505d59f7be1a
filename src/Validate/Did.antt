-- ===== src/Validate/Did.antt =====
-- validate/did.go: the DID document of a signer and the key that it gives. An error is `none`.
pub mod Single
pub mod Address
pub mod Given
pub mod Key
use ai_catalog_go.Prelude.{
  [], List, some, none, Option, not, false, true, Bool, select, is_empty, if◌then◌else◌, ◌>>=◌,
  ◌||◌, ◌∷◌, ◌++◌,
}
use ai_catalog_go.Validate.Report.{◌>>◌}
use ai_catalog_go.Text.{text_eq, codes, cut_prefix, Bytes}
use ai_catalog_go.Catalog.Query.{has_prefix}
use ai_catalog_go.Json.{Json}
use ai_catalog_go.Identity.{root_did_web, did_web_prefix}

pub record VerificationMethod : Type 0 where
  pub id : Bytes
  pub controller : Bytes
  pub public_key_jwk : Bytes

pub record DidDocument : Type 0 where
  pub id : Bytes
  pub verification_method : List VerificationMethod
  pub assertion_method : List Bytes

-- `json.Unmarshal` into the two types.
pub record DidJson : Type 0 where
  pub document : Bytes → Option DidDocument
  pub embedded : Bytes → Option VerificationMethod

unfoldable pub did_document_url : Bytes → Option Bytes
did_document_url signer = do
  domain ← cut_prefix signer did_web_prefix
  if not (root_did_web signer)
      then none
      else some (codes "https://" ++ (domain ++ codes "/.well-known/did.json"))

-- the closure `resolve` of `methodsOf`
unfoldable pub resolve_reference : Bytes → Bytes → Bytes
unfolding has_prefix
resolve_reference signer reference =
    if has_prefix reference (codes "#") then signer ++ reference else reference

abbrev pub refers : Bytes → Bytes → Bytes → Bool
refers signer kid reference = text_eq (resolve_reference signer reference) kid

-- the methods that were found, and whether the key is authorized
abbrev pub Found : Type 0
Found = List VerificationMethod × Bool

abbrev pub add_embedded : Bytes → Bytes → Found → Option VerificationMethod → Found
add_embedded signer kid found none = found
add_embedded signer kid (ms, authorized) (some m) =
    if refers signer kid m.id then (ms ++ (m ∷ []), true) else (ms, authorized)

unfoldable pub only_method : List VerificationMethod → Option VerificationMethod
only_method (m ∷ []) = some m
only_method _ = none

-- the controller and the key of the one method
unfoldable pub method_key : Bytes → VerificationMethod → Option Bytes
method_key signer m =
    if not (text_eq m.controller signer)
    then none
    else if is_empty m.public_key_jwk || text_eq m.public_key_jwk (codes "null")
    then none
    else some m.public_key_jwk

module _ (json : Json) (did_json : DidJson) where
  -- one round of the second loop: a reference, or a method that stands there itself
  abbrev pub add_assertion : Bytes → Bytes → Found → Bytes → Option Bytes → Found
  add_assertion signer kid (ms, authorized) raw (some reference) =
      (ms, authorized || refers signer kid reference)
  add_assertion signer kid found raw none = add_embedded signer kid found (did_json.embedded raw)

  unfoldable pub add_assertions : Bytes → Bytes → Found → List Bytes → Found
  add_assertions signer kid found [] = found
  add_assertions signer kid found (raw ∷ raws) =
      add_assertions signer kid (add_assertion signer kid found raw (json.text raw)) raws

  unfoldable pub methods_of : DidDocument → Bytes → Bytes → Found
  unfolding add_assertions
  methods_of d signer kid =
      add_assertions signer kid (select (λ m. refers signer kid m.id) d.verification_method, false)
        d.assertion_method

  abbrev pub authorized_key : Bytes → Found → Option Bytes
  authorized_key signer (ms, authorized) =
      if not authorized then none else (only_method ms >>= method_key signer)

  unfoldable pub select_key : Bytes → Bytes → Bytes → Option Bytes
  select_key document signer kid = do
    parsed ← did_json.document document
    if not (text_eq parsed.id signer)
        then none
        else authorized_key signer (methods_of parsed signer kid)
