-- ===== src/Catalog.antt =====
-- The package catalog: the document model and its queries.
mod Models
pub mod Samples
pub mod Entry
pub mod Query
pub mod Version
pub mod Source
pub use Models.*
unfoldable pub use Entry.*
