-- ===== src/Validate/Did/Address.antt =====
-- Where the DID document of a signer stands.
use ai_catalog_go.Prelude.{
  some, none, true, inr, inl, sym, refl, >>=-eq-some, Bool-cases, ◌↔◌, ◌++◌, ◌≡◌,
}
use ai_catalog_go.Text.{cut_prefix_iff, cut_prefix, codes, Bytes}
use ai_catalog_go.Identity.{valid_publisher, did_web_prefix, did, root_did_web}
use ai_catalog_go.Validate.Did.{did_document_url}
use ai_catalog_go.Identity.Labels.{valid_publisher_iff, root_did_web_iff, IsPublisher}
use mathlib.Core.Option.{some-injective}

abbrev pub did_document_of : Bytes → Bytes
did_document_of domain = codes "https://" ++ (domain ++ codes "/.well-known/did.json")

root_domain :
    (signer domain : Bytes)
    → cut_prefix signer did_web_prefix ≡ some domain
    → root_did_web signer ≡ true
    → (signer ≡ did domain) × IsPublisher domain
unfolding root_did_web did
root_domain signer domain e h =
    let whole = (cut_prefix_iff signer did_web_prefix domain).0 e in
    let valid : valid_publisher domain ≡ true = rw e at h in
    (whole, (valid_publisher_iff domain).0 valid)

-- The address is that of the well-known document at the domain of the root did:web DID.
pub did_document_url_iff :
    (signer address : Bytes)
    → (did_document_url signer ≡ some address) ↔ (
        (domain : Bytes) × (signer ≡ did domain)
        × IsPublisher domain
        × (address ≡ did_document_of domain))
unfolding did_document_url did
did_document_url_iff signer address = (
  λ h.
      let (domain, cut_off, rest) = >>=-eq-some (cut_prefix signer did_web_prefix) _ h in
      elim (Bool-cases (root_did_web signer)) [
        | inl t ↦
            let (whole, valid) = root_domain signer domain cut_off t in
            let same : some (did_document_of domain) ≡ some address = rw t at rest in
            (domain, whole, valid, sym (some-injective _ _ same))
        | inr t ↦ let k : none ≡ some address = rw t at rest in cc
      ],
  λ (domain, whole, valid, same).
      let root = (root_did_web_iff signer).1 (domain, whole, valid) in
      rw ((cut_prefix_iff signer did_web_prefix domain).1 whole, root, same) refl,
)
