-- ===== src/Identity/Tests.antt =====
-- Identifiers of identity_test.go, and the theorems at concrete identifiers.
use ai_catalog_go.Prelude.{refl, [], none, false, some, true, ◌↔◌, ◌≡◌}
use ai_catalog_go.Text.{codes, Bytes}
use ai_catalog_go.Identity.{did, root_did_web, valid_publisher, publisher}
use ai_catalog_go.Identity.Labels.{root_did_web_iff, valid_publisher_iff, IsPublisher}

abbrev acme : Bytes
acme = codes "acme.com"

publisher_tests :
    (publisher (codes "urn:air:acme.com:agent:finance") ≡ some acme)
    × (publisher (codes "urn:air:acme.com") ≡ some acme)
    × (publisher (codes "urn:air::agent:finance") ≡ none)
    × (publisher (codes "URN:AIR:acme.com:agent:finance") ≡ none)
    × (publisher (codes "urn:example:agent") ≡ none)
unfolding publisher
publisher_tests = (refl, refl, refl, refl, refl)

valid_publisher_tests :
    (valid_publisher acme ≡ true)
    × (valid_publisher (codes "xn--bcher-kva.com") ≡ true)
    × (valid_publisher (codes "localhost") ≡ true)
    × (valid_publisher (codes "Acme.com") ≡ false)
    × (valid_publisher (codes "acme.com:8443") ≡ false)
    × (valid_publisher (codes "acme.com.") ≡ false)
    × (valid_publisher (codes "192.168.0.1") ≡ false)
    × (valid_publisher (codes "192.168.0.256") ≡ true)
    × (valid_publisher (codes "-acme.com") ≡ false)
    × (valid_publisher [] ≡ false)
unfolding valid_publisher
valid_publisher_tests = (refl, refl, refl, refl, refl, refl, refl, refl, refl, refl)

valid_publisher_iff_example : (valid_publisher acme ≡ true) ↔ IsPublisher acme
valid_publisher_iff_example = valid_publisher_iff acme

root_did_web_iff_example :
    (root_did_web (codes "did:web:acme.com") ≡ true)
    ↔ ((p : Bytes) × (codes "did:web:acme.com" ≡ did p) × IsPublisher p)
root_did_web_iff_example = root_did_web_iff (codes "did:web:acme.com")
