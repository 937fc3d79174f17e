-- ===== src/Findings/Types.antt =====
-- internal/app/findings/findings.go: scans, control results, findings and evaluations, and the two
-- tables that an evaluation writes. A time is a number that grows.
use corkscrew.Prelude.{ℕ, Bool, Option, List, Text, codes}

-- dataaccess.ScanRecord, as far as findings are recorded from it.
pub record ScanRecord : Type 0 where
  pub id : Text
  pub provider : Text
  pub scope_key : Text
  pub started_at : ℕ

-- compliance.ComplianceResult: a row of a control's query.
pub record ResultRow : Type 0 where
  pub status : Text
  pub control_id : Text
  pub resource_id : Text
  pub control_name : Text
  pub severity : Text
  pub details : Text
  pub remediation : Option Text

-- compliance.SimpleQueryResult
pub record QueryResult : Type 0 where
  pub pack_ref : Text
  pub control_id : Text
  pub error : Option Text
  pub rows : List ResultRow

pub record Finding : Type 0 where
  pub fingerprint : Text
  pub pack_ref : Text
  pub control_id : Text
  pub provider : Text
  pub resource_id : Text
  pub scope_key : Text
  pub title : Text
  pub severity : Text
  pub details : Text
  pub remediation : Text
  pub status : Text
  pub first_seen_scan : Text
  pub last_seen_scan : Text
  pub first_seen_at : ℕ
  pub last_seen_at : ℕ

abbrev pub status_open : Text
status_open = codes "open"

abbrev pub status_resolved : Text
status_resolved = codes "resolved"

pub data Status : Type 0 where
  completed partial failed : Status

pub record Evaluation : Type 0 where
  pub id : Text
  pub scan_id : Text
  pub status : Status
  pub error : Text
  pub opened : ℕ
  pub recurred : ℕ
  pub resolved : ℕ
  pub findings : List Finding

-- A row of the table `findings`, whose key is the fingerprint.
pub record Stored : Type 0 where
  pub fingerprint : Text
  pub pack_ref : Text
  pub control_id : Text
  pub provider : Text
  pub resource_id : Text
  pub scope_key : Text
  pub title : Text
  pub severity : Text
  pub details : Text
  pub remediation : Option Text
  pub status : Text
  pub first_seen_scan : Text
  pub last_seen_scan : Text
  pub first_seen_at : ℕ
  pub last_seen_at : ℕ
  pub resolved_at : Option ℕ
  pub occurrence_count : ℕ

-- A row of the table `finding_occurrences`, whose key is the evaluation and the fingerprint.
pub record Occurrence : Type 0 where
  pub evaluation_id : Text
  pub fingerprint : Text
  pub scan_id : Text
  pub result_status : Text
  pub severity : Text
  pub details : Text
  pub observed_at : ℕ

-- The rows of one fingerprint from one control result.
pub record FindingRecord : Type 0 where
  pub finding : Finding
  pub occurrence_status : Text
  pub occurrence_first : Finding
  pub row_count : ℕ

-- What the code calls and does not implement: strings.ToUpper, strings.TrimSpace(s) == "", and the
-- hexadecimal SHA-256 of a text. Each may be any function.
pub record Env : Type 0 where
  pub to_upper : Text → Text
  pub is_blank : Text → Bool
  pub digest : Text → Text
