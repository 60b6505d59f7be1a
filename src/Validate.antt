-- ===== src/Validate.antt =====
-- The package validate: conformance of a document, and verification of its signatures. The text of
-- a diagnostic's message is not modelled: the package asks its callers to match on the code.
pub mod Codes
pub mod Report
pub mod Keys
pub mod SpecVersion
pub mod Entries
pub mod Signature
pub mod Profile
pub mod Manifest
pub mod Document
pub mod Did
pub mod Verify
pub mod Source
pub mod Samples
pub mod Tests
