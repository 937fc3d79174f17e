-- ===== src/Findings/Results/Newer.antt =====
-- internal/app/findings/findings.go: an evaluation of an older scan and the findings that a newer
-- scan has seen.
use corkscrew.Prelude.{
  ℕ, ◌<◌, ◌≡◌, ap, ◌∙◌, inl, inr, Bool, false, Option, none, some, List, [], ◌∷◌, Text, text_eq,
  text_eq_iff, All, arith, Bool-cases, if◌then◌else◌,
}
use corkscrew.Findings.Types.{ScanRecord, ResultRow, QueryResult, Evaluation, Stored, Env}
use corkscrew.Findings.Tables.{update_row, upsert, is_candidate, resolve_row}
use corkscrew.Findings.Attempt.{Tx, Ensures, Ensures-mono}
use corkscrew.Findings.Record.{is_failing, finding_of, stored_row}
use corkscrew.Findings.PerRow.{Progress, record_of, store_row}
use corkscrew.Findings.Batches.Refines.{start_of}
use corkscrew.Findings.Results.{record_and_resolve, record_results}
use corkscrew.Findings.Results.Loop.{resolve_where}
use corkscrew.Findings.Results.Resolved.{is_read}
use corkscrew.Findings.Results.Steps.{IsStep, store_rows-keeps, record_and_resolve-IsStep}
use corkscrew.Findings.Results.Totals.{IsClear, Concluded, record_results-Concluded}
use corkscrew.Findings.Results.Summed.{IsRunning, IsRunning-error, IsRunning-step}

-- The row of a fingerprint.
abbrev pub find_row : Text → List Stored → Option Stored
find_row k [] = none
find_row k (s ∷ table) = if text_eq s.fingerprint k then some s else find_row k table

find_row-upsert :
    (k : Text) (a s : Stored) (table : List Stored)
    → a.last_seen_at < s.last_seen_at
    → find_row k table ≡ some s
    → find_row k (upsert a table) ≡ some s
unfolding upsert update_row
find_row-upsert k a s [] newer h = cc
find_row-upsert k a s (r ∷ table) newer h =
    ground (arith, find_row-upsert k a s table, text_eq_iff r.fingerprint k)

find_row-resolve_where :
    (scan : ScanRecord) (p : Stored → Bool) (k : Text) (s : Stored) (table : List Stored)
    → p s ≡ false
    → find_row k table ≡ some s
    → find_row k (resolve_where scan p table) ≡ some s
unfolding resolve_row
find_row-resolve_where scan p k s [] e h = cc
find_row-resolve_where scan p k s (r ∷ table) e h = elim (Bool-cases (text_eq r.fingerprint k)) [
  | inl here ↦
      let same : r ≡ s = ground (arith, h, here) in
      let left : p r ≡ false = ap p same ∙ e in rw left (rw here (ap some same))
  | inr later ↦ ground (arith, later, h, find_row-resolve_where scan p k s table e)
]

module _ (env : Env) (scan : ScanRecord) (k : Text) (s : Stored)
    (newer : scan.started_at < s.last_seen_at) where
  store_row-newer :
      (result : QueryResult) (evaluation_id : Text) (row : ResultRow) (p : Progress)
      → find_row k p.table ≡ some s
      → find_row k (store_row env scan result evaluation_id row p).table ≡ some s
  unfolding store_row stored_row finding_of
  store_row-newer result evaluation_id row p h = elim (Bool-cases (is_failing env scan row)) [
    | inl fails ↦
        rw fails (
          find_row-upsert k (stored_row env scan (record_of env scan result row)) s p.table newer h)
    | inr passes ↦ rw passes h
  ]

  -- The finding is as it was.
  record IsKept (ev : Evaluation) (t : Tx) : Type 0 where
    running : IsRunning ev t
    row : find_row k t.findings ≡ some s

  IsKept-error :
      (ev : Evaluation) (t : Tx) (m : Text) → IsKept ev t → IsKept (record ev { error = m }) t
  IsKept-error ev t m h = record {
    running = IsRunning-error env scan ev t m h.running;
    row = h.row;
  }

  not_read :
      (pack_ref control_id : Text) (observed ks : List Text)
      → is_read scan pack_ref control_id observed ks s ≡ false
  unfolding is_candidate
  not_read pack_ref control_id observed ks = ground arith

  module _ (fails : ℕ → Bool) where
    IsKept-result :
        (r : QueryResult) (ev : Evaluation) (t : Tx)
        → r.error ≡ none
        → IsClear env scan r
        → IsKept ev t
        → Ensures fails t IsKept (record_and_resolve fails env scan r ev t)
    IsKept-result r ev t good clear h =
        Ensures-mono fails t (IsStep env scan r ev t) IsKept
          (record_and_resolve fails env scan r ev t)
          (record_and_resolve-IsStep env scan fails r ev t good h.running.named clear
            h.running.keyed)
          (λ ev' t' step. record {
            running = IsRunning-step env scan r ev t ev' t' h.running step;
            row =
                ap (find_row k) step.table
                ∙ find_row-resolve_where scan _ k s _ (not_read r.pack_ref r.control_id _ _) (
                    store_rows-keeps env scan r ev.id
                      (λ (p : Progress). find_row k p.table ≡ some s) (store_row-newer r ev.id)
                      r.rows (start_of ev t) h.row);
          })

    -- From an evaluation with an id whose status is still completed and whose totals agree, and a
    -- table of which no two rows share a fingerprint: unless the database refuses a statement, the
    -- evaluation of a scan, over results whose rows are about the same control and resource
    -- whenever they share a fingerprint, leaves each finding that a newer scan has seen exactly as
    -- it was, whether the results observe it or not.
    pub record_results-newer :
        (results : List QueryResult) (evaluation : Evaluation) (t : Tx)
        → All (IsClear env scan) results
        → IsRunning evaluation t
        → find_row k t.findings ≡ some s
        → Ensures fails t
            (λ ev t'. find_row k t'.findings ≡ some s)
            (record_results fails env scan results evaluation t)
    record_results-newer results evaluation t clear h e =
        Ensures-mono fails t (Concluded fails env scan IsKept IsKept-error IsKept-result results)
          (λ ev t'. find_row k t'.findings ≡ some s)
          (record_results fails env scan results evaluation t)
          (record_results-Concluded fails env scan IsKept IsKept-error IsKept-result results
            evaluation t (λ ev u kept. kept.running.totals) clear (record { running = h; row = e }))
          (λ ev t' c. c.kept.row)
