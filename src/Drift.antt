-- ===== src/Drift.antt =====
-- internal/app/drift/drift.go: the changes between the observations of two scans.
pub mod Types
pub mod Order
pub mod Compare
pub mod Maps
pub mod Exact
pub mod Determined
mod Tests
