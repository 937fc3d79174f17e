-- ===== src/Packs.antt =====
-- pkg/query/compliance/loader.go: loading of query packs.
pub mod FilePath
pub mod Types
pub mod Manifest
pub mod Load
pub mod Distinct
pub mod Version
pub mod Check
pub mod Registry
pub mod Parameter
pub mod Validate
pub mod Cache
mod Tests
