-- ===== src/Paging.antt =====
-- internal/shared/paging/paging.go, and plugins/gcp-provider/paging.go, which drains a listing
-- under its guard.
pub mod Guard
pub mod ListPages
pub mod Drain
mod Tests
