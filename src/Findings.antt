-- ===== src/Findings.antt =====
-- internal/app/findings: how the results of an evaluation become findings.
pub mod Types
pub mod Tables
pub mod Attempt
pub mod Record
pub mod Batches
pub mod Results
pub mod PerRow
pub mod Folding
pub mod Synced
pub mod Tests
