-- ===== src/ScanExec.antt =====
-- internal/scanexec/executor.go: scan scheduling and aggregation.
pub mod Types
pub mod Scope
pub mod Pool
pub mod Collect
pub mod Dedupe
pub mod Aggregate
pub mod Execute
mod Tests
