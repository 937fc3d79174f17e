-- ===== src/Findings/Record.antt =====
-- internal/app/findings/findings.go: findingFingerprint, foldFailingRows and recordResult, with the
-- statements that it batches.
use corkscrew.Prelude.{
  ℕ, ◌+◌, Bool, ◌||◌, not, Option, none, some, List, [], ◌∷◌, ◌++◌, Text, codes, text_eq, join,
  length, ltb, ◌==◌, if◌then◌else◌,
}
use corkscrew.Findings.Types.{
  ScanRecord, ResultRow, QueryResult, Finding, Evaluation, FindingRecord, Stored, Occurrence, Env,
  status_open,
}
use corkscrew.Findings.Attempt.{panicked, M, pure, ◌>>=◌, ◌>>◌, assert_that}

abbrev pub batch_max : ℕ
batch_max = 256

abbrev pub Records : Type 0
Records = List (Text × FindingRecord)

-- records[fingerprint]
unfoldable pub find_record : Text → Records → Option FindingRecord
find_record k [] = none
find_record k ((j, r) ∷ rs) = if text_eq j k then some r else find_record k rs

-- The record that is seen again, through its pointer.
unfoldable pub bump : Text → Finding → Records → Records
bump k f [] = []
bump k f ((j, r) ∷ rs) =
    if text_eq j k
    then (j, record r { finding = f; row_count = r.row_count + 1 }) ∷ rs
    else (j, r) ∷ bump k f rs

abbrev pub null_string : Env → Text → Option Text
null_string env s = if env.is_blank s then none else some s

-- The variables of the loop over the rows.
pub record Folded : Type 0 where
  pub findings : List Finding
  pub records : Records
  pub order : List Text

module _ (env : Env) (scan : ScanRecord) where
  -- findingFingerprint
  unfoldable pub fingerprint : Text → Text → Text → Text
  fingerprint pack_ref control_id resource_id =
      env.digest
        (join (0 ∷ []) (pack_ref ∷ control_id ∷ scan.provider ∷ resource_id ∷ scan.scope_key ∷ []))

  -- The finding of a row.
  unfoldable pub finding_of : QueryResult → ResultRow → Finding
  finding_of result row = record {
    fingerprint = fingerprint result.pack_ref row.control_id row.resource_id;
    pack_ref = result.pack_ref;
    control_id = row.control_id;
    provider = scan.provider;
    resource_id = row.resource_id;
    scope_key = scan.scope_key;
    title = row.control_name;
    severity = env.to_upper row.severity;
    details = row.details;
    remediation = elim row.remediation [ none ↦ [] | some r ↦ r ];
    status = status_open;
    first_seen_scan = scan.id;
    last_seen_scan = scan.id;
    first_seen_at = scan.started_at;
    last_seen_at = scan.started_at;
  }

  -- status is "FAIL" or "WARNING"
  unfoldable pub is_failing : ResultRow → Bool
  is_failing row =
      text_eq (env.to_upper row.status) (codes "FAIL")
      || text_eq (env.to_upper row.status) (codes "WARNING")

  unfoldable pub fold_row : QueryResult → ResultRow → Folded → Folded
  fold_row result row acc =
      let f = finding_of result row in
      if not (is_failing row) then acc else elim (find_record f.fingerprint acc.records) [
        | some r ↦ record {
          findings = acc.findings ++ f ∷ [];
          records = bump f.fingerprint f acc.records;
          order = acc.order;
        }
        | none ↦ record {
          findings = acc.findings ++ f ∷ [];
          records =
              acc.records
              ++ (
                f.fingerprint,
                record {
                  finding = f;
                  occurrence_status = env.to_upper row.status;
                  occurrence_first = f;
                  row_count = 1;
                },
              )
                ∷ [];
          order = acc.order ++ f.fingerprint ∷ [];
        }
      ]

  unfoldable pub fold_rows : QueryResult → List ResultRow → Folded → Folded
  fold_rows result [] acc = acc
  fold_rows result (row ∷ rows) acc = fold_rows result rows (fold_row result row acc)

  -- foldFailingRows
  unfoldable pub fold_failing_rows : QueryResult → Evaluation → M Folded
  fold_failing_rows result evaluation = do
    let acc =
        fold_rows result result.rows
          (record { findings = evaluation.findings; records = []; order = [] })
    assert_that (length acc.order == length acc.records)
    pure acc

  -- The arguments of a row of upsertFindings.
  unfoldable pub stored_row : FindingRecord → Stored
  stored_row r = record {
    fingerprint = r.finding.fingerprint;
    pack_ref = r.finding.pack_ref;
    control_id = r.finding.control_id;
    provider = r.finding.provider;
    resource_id = r.finding.resource_id;
    scope_key = r.finding.scope_key;
    title = r.finding.title;
    severity = r.finding.severity;
    details = r.finding.details;
    remediation = null_string env r.finding.remediation;
    status = status_open;
    first_seen_scan = r.finding.first_seen_scan;
    last_seen_scan = r.finding.last_seen_scan;
    first_seen_at = r.finding.first_seen_at;
    last_seen_at = r.finding.last_seen_at;
    resolved_at = none;
    occurrence_count = r.row_count;
  }

  -- The arguments of a row of insertOccurrences.
  unfoldable pub occurrence_row : Text → Text → FindingRecord → Occurrence
  occurrence_row evaluation_id k r = record {
    evaluation_id = evaluation_id;
    fingerprint = k;
    scan_id = scan.id;
    result_status = r.occurrence_status;
    severity = r.occurrence_first.severity;
    details = r.occurrence_first.details;
    observed_at = scan.started_at;
  }

  -- The loop of upsertFindings that collects the arguments; a nil record is a fault.
  unfoldable pub upsert_args : Records → List Text → M (List Stored)
  upsert_args records [] = pure []
  upsert_args records (k ∷ ks) = elim (find_record k records) [
    | none ↦ λ t. panicked
    | some r ↦ do
      assert_that (ltb 0 r.row_count)
      rest ← upsert_args records ks
      pure (stored_row r ∷ rest)
  ]

  -- The loop of insertOccurrences that collects the arguments.
  unfoldable pub occurrence_args : Text → Records → List Text → M (List Occurrence)
  occurrence_args evaluation_id records [] = pure []
  occurrence_args evaluation_id records (k ∷ ks) = elim (find_record k records) [
    | none ↦ λ t. panicked
    | some r ↦ do
      rest ← occurrence_args evaluation_id records ks
      pure (occurrence_row evaluation_id k r ∷ rest)
  ]
