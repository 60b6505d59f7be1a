-- ===== src/Trust/Canonical/Manifest.antt =====
-- trust/canonical.go: `CanonicalizeTrustManifest`, with `UnmarshalJSON` and `Raw` of catalog/models.go.
-- The bytes of a manifest that was not decoded are empty, as no JSON text is.
pub mod Decoded
mod Tests
use ai_catalog_go.Prelude.{[], some, none, Option, not, Bool, is_empty, if◌then◌else◌, ◌>>=◌, ◌&&◌}
use ai_catalog_go.Catalog.{TrustManifest}
use ai_catalog_go.Text.{codes, Bytes, text_eq}
use ai_catalog_go.Json.{Json}
use ai_catalog_go.Trust.Canonical.{canonicalize_for_signature, Jcs}

-- What the code calls on a manifest: `json.Unmarshal` onto the fields of one, `json.Marshal`,
-- `reflect.DeepEqual`, `IsZero`, and `bytes.TrimSpace`; and what `json.Unmarshal` passes to the
-- method `UnmarshalJSON`: of a valid text its value, without the space around it.
pub record ManifestJson : Type 0 where
  pub value_text : Bytes → Option Bytes
  pub decode_onto : TrustManifest → Bytes → Option TrustManifest
  pub encode : TrustManifest → Option Bytes
  pub deep_equal : TrustManifest → TrustManifest → Bool
  pub is_zero : TrustManifest → Bool
  pub trim_space : Bytes → Bytes

-- a manifest of which no field is set
abbrev pub zero_manifest : TrustManifest
zero_manifest = record {
  contributor = [];
  subject = none;
  signature = none;
  additional_signatures = [];
  trust_schema = none;
  attestations = [];
  provenance = [];
  extensions = [];
  raw = [];
}

module _ (manifest_json : ManifestJson) where
  open manifest_json use {value_text, decode_onto, encode, deep_equal, is_zero, trim_space}

  -- the bytes that `UnmarshalJSON` keeps of what it decodes onto a manifest
  unfoldable pub kept_bytes : TrustManifest → Bytes → Bytes
  unfolding text_eq
  kept_bytes m text =
      if is_zero m && not (text_eq (trim_space text) (codes "null")) then text else []

  unfoldable pub unmarshal : TrustManifest → Bytes → Option TrustManifest
  unfolding kept_bytes
  unmarshal m text =
      decode_onto m text >>= λ decoded. some (record decoded { raw = kept_bytes m text })

  -- `json.Unmarshal` into a manifest, which calls `UnmarshalJSON`
  unfoldable pub decode_text : TrustManifest → Bytes → Option TrustManifest
  unfolding unmarshal
  decode_text m text = value_text text >>= unmarshal m

  -- the method `Raw`
  unfoldable pub raw_bytes : TrustManifest → Option Bytes
  raw_bytes m = if is_empty m.raw then none else some m.raw

  abbrev pub unless_stale : TrustManifest → Bytes → Option TrustManifest → Option Bytes
  unless_stale m text none = none
  unless_stale m text (some decoded) = if deep_equal decoded m then some text else none

  unfoldable pub decoded_bytes : TrustManifest → Option Bytes
  unfolding raw_bytes decode_text
  decoded_bytes m = raw_bytes m >>= λ text. unless_stale m text (decode_text zero_manifest text)

  abbrev pub or_encoded : TrustManifest → Option Bytes → Option Bytes
  or_encoded m none = encode m
  or_encoded m (some text) = some text

  unfoldable pub canonicalize_trust_manifest : Json → Jcs → TrustManifest → Option Bytes
  unfolding decoded_bytes
  canonicalize_trust_manifest json jcs m =
      or_encoded m (decoded_bytes m) >>= canonicalize_for_signature json jcs
