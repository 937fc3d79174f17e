-- ===== src/Archive.antt =====
-- internal/archive: extraction of untrusted archives (archive.go, walk.go).
pub mod Types
pub mod Budget
pub mod Paths
pub mod World
pub mod Walk
pub mod Extract
mod Tests
