-- ===== src/Trust.antt =====
-- The package trust: digests, canonicalization and ES256 signatures.
pub mod Digest
pub mod Es256
pub mod Canonical
