-- ===== src/ScanErrors/Tests.antt =====
-- Tests for internal/shared/scan_errors.go.
use corkscrew.Prelude.{◌≡◌, refl, List, [], ◌∷◌, Text, codes, has_prefix}
use corkscrew.ScanErrors.Split.{split_scan_errors, IsPartition, split-IsPartition}
use corkscrew.ScanErrors.Entries.{is_scan_notice, is_coverage_notice}

abbrev three_entries : List Text
three_entries = codes "service:s3: boom" ∷ codes "not_enabled:x: y" ∷ codes "old" ∷ []

split_three : split_scan_errors three_entries ≡ record {
  errs = codes "service:s3: boom" ∷ codes "old" ∷ [];
  notices = codes "not_enabled:x: y" ∷ [];
}
unfolding split_scan_errors is_scan_notice is_coverage_notice has_prefix
split_three = refl

split-IsPartition_example : IsPartition three_entries (split_scan_errors three_entries)
split-IsPartition_example = split-IsPartition three_entries
