-- ===== src/Findings/Tests.antt =====
-- internal/app/findings: the theorems at concrete evaluations, and runs of the code.
use corkscrew.Prelude.{
  ℕ, ◌≡◌, refl, Bool, false, none, some, List, [], ◌∷◌, Text, codes, text_eq, join, arith, All,
  length,
}
use corkscrew.Findings.Types.{
  ScanRecord, ResultRow, QueryResult, Evaluation, Status, Stored, Env, status_open,
}
use corkscrew.Findings.Attempt.{Tx, Attempt, ok, rolled_back, panicked, Ensures}
use corkscrew.Findings.Tables.{
  is_in, has_row, update_row, upsert, upsert_all, insert_occurrence, insert_occurrences,
  select_existing, is_candidate, select_candidates, resolve_row, resolve, count_rows,
}
use corkscrew.Findings.Tables.Keyed.{IsKeyed}
use corkscrew.Findings.Record.{
  find_record, bump, fingerprint, finding_of, is_failing, fold_row, fold_rows, fold_failing_rows,
  stored_row, occurrence_row, upsert_args, occurrence_args,
}
use corkscrew.Findings.PerRow.{NoClash}
use corkscrew.Findings.Batches.{
  chunks, existing_fingerprints, all_existing, upsert_findings, insert_all, write_chunks,
  count_order, observe, is_nil, record_folded, record_result,
}
use corkscrew.Findings.Batches.Refines.{IsPerRow, end_of, record_result-IsPerRow}
use corkscrew.Findings.Results.{
  resolve_loop, results_loop, record_and_resolve, record_results, resolve_absent,
}
use corkscrew.Findings.Results.Loop.{IsResolved, is_stale, count_where}
use corkscrew.Findings.Results.Resolved.{resolve_absent-IsResolved}
use corkscrew.Findings.Results.Totals.{IsClear}
use corkscrew.Findings.Results.Summed.{IsRunning, IsSummed, record_results-IsSummed}
use corkscrew.Findings.Results.Newer.{find_row, record_results-newer}
use corkscrew.Findings.Results.Current.{IsCurrent, record_and_resolve-IsCurrent}

-- Texts by themselves: nothing is in lower case, and a fingerprint is what it is taken of.
abbrev plain_env : Env
plain_env = record { to_upper = λ s. s; is_blank = λ s. text_eq s []; digest = λ s. s }

abbrev scan_2 : ScanRecord
scan_2 = record { id = codes "s2"; provider = codes "aws"; scope_key = codes "k"; started_at = 20 }

abbrev failing_row : Text → Text → ResultRow
failing_row resource details = record {
  status = codes "FAIL";
  control_id = codes "c";
  resource_id = resource;
  control_name = codes "C";
  severity = codes "HIGH";
  details = details;
  remediation = none;
}

-- A resource that fails twice, and another.
abbrev bucket_result : QueryResult
bucket_result = record {
  pack_ref = codes "p";
  control_id = codes "c";
  error = none;
  rows =
      failing_row (codes "a") (codes "x")
      ∷ failing_row (codes "a") (codes "y")
      ∷ failing_row (codes "b") (codes "z")
      ∷ [];
}

abbrev failed_result : QueryResult
failed_result = record {
  pack_ref = codes "p";
  control_id = codes "d";
  error = some (codes "timeout");
  rows = [];
}

abbrev stored_of : Text → ℕ → Stored
stored_of k seen_at = record {
  fingerprint = k;
  pack_ref = codes "p";
  control_id = codes "c";
  provider = codes "aws";
  resource_id = codes "r";
  scope_key = codes "k";
  title = codes "C";
  severity = codes "HIGH";
  details = [];
  remediation = none;
  status = status_open;
  first_seen_scan = codes "s1";
  last_seen_scan = codes "s1";
  first_seen_at = 10;
  last_seen_at = seen_at;
  resolved_at = none;
  occurrence_count = 1;
}

-- An older finding that is no longer observed, and one that a newer scan has seen.
abbrev before_scan : Tx
before_scan = record {
  findings = stored_of (codes "old") 10 ∷ stored_of (codes "new") 30 ∷ [];
  occurrences = [];
  statements = 0;
  breaks_off = λ n. none;
}

abbrev new_evaluation : Evaluation
new_evaluation = record {
  id = codes "e";
  scan_id = codes "s2";
  status = Status.completed;
  error = [];
  opened = 0;
  recurred = 0;
  resolved = 0;
  findings = [];
}

abbrev never : ℕ → Bool
never n = false

bucket_clear : NoClash plain_env scan_2 bucket_result bucket_result.rows
unfolding fingerprint join
bucket_clear = (((λ e. (refl, refl)), ((λ e. (refl, cc)), tt)), (((λ e. (refl, cc)), tt), (tt, tt)))

-- The resource that fails twice opens one finding, and its second row recurs.
record_result-IsPerRow_example :
    Ensures never before_scan
      (IsPerRow never plain_env scan_2 bucket_result new_evaluation before_scan)
      (record_result never plain_env scan_2 bucket_result new_evaluation before_scan)
record_result-IsPerRow_example =
    record_result-IsPerRow never plain_env scan_2 bucket_result new_evaluation before_scan refl
      (λ e. cc) bucket_clear

tables-IsKeyed : IsKeyed before_scan.findings
unfolding has_row text_eq
tables-IsKeyed = (refl, (refl, tt))

running : IsRunning new_evaluation before_scan
running = record { named = λ e. cc; running = refl; totals = omega arith; keyed = tables-IsKeyed }

both_results : All (IsClear plain_env scan_2) (bucket_result ∷ failed_result ∷ [])
both_results = (bucket_clear, (tt, tt))

-- One control succeeds and one fails: the evaluation is partial.
record_results-IsSummed_example :
    Ensures never before_scan (IsSummed (bucket_result ∷ failed_result ∷ [])) (
      record_results never plain_env scan_2
        (bucket_result ∷ failed_result ∷ [])
        new_evaluation
        before_scan)
record_results-IsSummed_example =
    record_results-IsSummed plain_env scan_2 never (bucket_result ∷ failed_result ∷ [])
      new_evaluation before_scan both_results running

new_found : find_row (codes "new") before_scan.findings ≡ some (stored_of (codes "new") 30)
unfolding text_eq
new_found = refl

-- The finding that a newer scan has seen is left as it is.
record_results-newer_example :
    Ensures never before_scan
      (λ ev t'. find_row (codes "new") t'.findings ≡ some (stored_of (codes "new") 30))
      (record_results never plain_env scan_2
        (bucket_result ∷ failed_result ∷ [])
        new_evaluation
        before_scan)
record_results-newer_example =
    record_results-newer plain_env scan_2 (codes "new") (stored_of (codes "new") 30) (omega arith)
      never (bucket_result ∷ failed_result ∷ []) new_evaluation before_scan both_results running
      new_found

record_and_resolve-IsCurrent_example :
    Ensures never before_scan
      (λ ev t'.
        All
          (IsCurrent plain_env scan_2 bucket_result
            (end_of plain_env scan_2 bucket_result new_evaluation before_scan).observed)
          t'.findings)
      (record_and_resolve never plain_env scan_2 bucket_result new_evaluation before_scan)
record_and_resolve-IsCurrent_example =
    record_and_resolve-IsCurrent plain_env scan_2 never bucket_result new_evaluation before_scan
      refl (λ e. cc) bucket_clear tables-IsKeyed (λ n. refl)

-- Of the two findings, only the older one is resolved.
resolve_absent-IsResolved_example :
    Ensures never before_scan
      (IsResolved scan_2
        (is_stale scan_2 (codes "p") (codes "c") [])
        (count_where scan_2 (is_stale scan_2 (codes "p") (codes "c") []) before_scan.findings)
        before_scan)
      (resolve_absent never scan_2 (codes "p") (codes "c") [] before_scan)
resolve_absent-IsResolved_example =
    resolve_absent-IsResolved scan_2 never (codes "p") (codes "c") [] before_scan tables-IsKeyed
      refl

-- A run: two findings are opened, one row recurs and one finding is resolved.
abbrev totals_of : Attempt Evaluation → List ℕ
totals_of (ok ev t) = ev.opened ∷ ev.recurred ∷ ev.resolved ∷ length t.findings ∷ []
totals_of (rolled_back n) = []
totals_of panicked = []

bucket_totals :
    totals_of (
      record_results never plain_env scan_2
        (bucket_result ∷ failed_result ∷ [])
        new_evaluation
        before_scan)
    ≡ 2 ∷ 1 ∷ 1 ∷ 4 ∷ []
unfolding record_results results_loop record_and_resolve record_result record_folded is_nil
    fold_failing_rows fold_rows fold_row finding_of is_failing find_record bump all_existing
    existing_fingerprints chunks count_order observe write_chunks upsert_findings insert_all
    upsert_args occurrence_args stored_row occurrence_row resolve_absent resolve_loop fingerprint
    join text_eq is_in has_row update_row upsert upsert_all insert_occurrence insert_occurrences
    select_existing is_candidate select_candidates resolve_row resolve count_rows
bucket_totals = refl

-- A reading that breaks off at once resolves nothing, and no error is returned.
broken_off :
    totals_of (
      record_results never plain_env scan_2
        (bucket_result ∷ failed_result ∷ [])
        new_evaluation
        (record before_scan { breaks_off = λ n. some 0 }))
    ≡ 2 ∷ 1 ∷ 0 ∷ 4 ∷ []
unfolding record_results results_loop record_and_resolve record_result record_folded is_nil
    fold_failing_rows fold_rows fold_row finding_of is_failing find_record bump all_existing
    existing_fingerprints chunks count_order observe write_chunks upsert_findings insert_all
    upsert_args occurrence_args stored_row occurrence_row resolve_absent resolve_loop fingerprint
    join text_eq is_in has_row update_row upsert upsert_all insert_occurrence insert_occurrences
    select_existing is_candidate select_candidates resolve_row resolve count_rows
broken_off = refl
