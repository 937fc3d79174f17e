-- ===== src/ScanErrors.antt =====
-- internal/shared/scan_errors.go: the entries of a scan response's error list.
mod Split
pub use Split.{SplitResult, split-IsPartition}
unfoldable pub use Split.{split_scan_errors}
mod Entries
unfoldable pub use Entries.{
  unsupported_type_prefix, access_denied_prefix, not_enabled_prefix, service_prefix,
  unsupported_type_notice, access_denied_notice, not_enabled_notice, service_scan_error,
  is_scan_notice, is_coverage_notice,
}
pub use Entries.{helpers_classified, not_coverage_iff}
mod Tests
