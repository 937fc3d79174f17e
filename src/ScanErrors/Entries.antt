-- ===== src/ScanErrors/Entries.antt =====
-- internal/shared/scan_errors.go: how entries are built and told apart.
use corkscrew.Prelude.{
  refl, ◌≡◌, Bool, true, false, ◌||◌, ◌↔◌, ◌++◌, arith, Text, codes, has_prefix,
  has_prefix-excludes, drop,
}

abbrev pub unsupported_type_prefix : Text
unsupported_type_prefix = codes "unsupported_type:"

abbrev pub access_denied_prefix : Text
access_denied_prefix = codes "access_denied:"

abbrev pub not_enabled_prefix : Text
not_enabled_prefix = codes "not_enabled:"

abbrev pub service_prefix : Text
service_prefix = codes "service:"

-- fmt.Sprintf("%s%s: %s", prefix, target, detail); an error is given by its message.
abbrev sprintf_entry : Text → Text → Text → Text
sprintf_entry prefix target detail = prefix ++ (target ++ (codes ": " ++ detail))

unfoldable pub unsupported_type_notice : Text → Text → Text
unsupported_type_notice type_name reason = sprintf_entry unsupported_type_prefix type_name reason

unfoldable pub access_denied_notice : Text → Text → Text
access_denied_notice target e = sprintf_entry access_denied_prefix target e

unfoldable pub not_enabled_notice : Text → Text → Text
not_enabled_notice target detail = sprintf_entry not_enabled_prefix target detail

unfoldable pub service_scan_error : Text → Text → Text
service_scan_error service e = sprintf_entry service_prefix service e

unfoldable pub is_coverage_notice : Text → Bool
is_coverage_notice entry =
    has_prefix access_denied_prefix entry || has_prefix not_enabled_prefix entry

unfoldable pub is_scan_notice : Text → Bool
is_scan_notice entry = has_prefix unsupported_type_prefix entry || is_coverage_notice entry

-- Whatever the texts put into them, entries built by the three notice helpers are notices, those
-- of the two coverage helpers are the coverage notices among them, and an entry built by
-- `service_scan_error` is never taken for a notice.
pub helpers_classified :
    (target detail : Text)
    → (is_scan_notice (unsupported_type_notice target detail) ≡ true)
      × (is_coverage_notice (unsupported_type_notice target detail) ≡ false)
      × (is_scan_notice (access_denied_notice target detail) ≡ true)
      × (is_coverage_notice (access_denied_notice target detail) ≡ true)
      × (is_scan_notice (not_enabled_notice target detail) ≡ true)
      × (is_coverage_notice (not_enabled_notice target detail) ≡ true)
      × (is_scan_notice (service_scan_error target detail) ≡ false)
unfolding is_scan_notice is_coverage_notice has_prefix unsupported_type_notice access_denied_notice
    not_enabled_notice service_scan_error
helpers_classified target detail = (refl, refl, refl, refl, refl, refl, refl)

-- A notice that is no coverage notice is one for an unsupported type, and no entry is both.
pub not_coverage_iff :
    (entry : Text)
    → ((is_scan_notice entry ≡ true) × (is_coverage_notice entry ≡ false))
      ↔ (has_prefix unsupported_type_prefix entry ≡ true)
unfolding is_scan_notice is_coverage_notice
not_coverage_iff entry = ground (
  arith,
  has_prefix-excludes b'u' b'a' (drop 1 unsupported_type_prefix) (drop 1 access_denied_prefix) entry
      (omega arith),
  has_prefix-excludes b'u' b'n' (drop 1 unsupported_type_prefix) (drop 1 not_enabled_prefix) entry
      (omega arith),
)
