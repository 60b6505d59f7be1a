-- ===== src/Discovery.antt =====
-- The package discovery: how a catalog is found at a host.
pub mod Link
pub mod Html
pub mod Fetcher
pub mod Search
