-- ===== src/Findings/Results/Summed.antt =====
-- internal/app/findings/findings.go: the evaluation that recordResults returns.
use corkscrew.Prelude.{
  ℕ, ◌+◌, ◌<◌, ◌≡◌, ◌≢◌, ◌↔◌, refl, inl, inr, Bool, none, List, [], ◌∷◌, Text, All, arith, length,
  length-append, Bool-cases,
}
use corkscrew.Findings.Types.{ScanRecord, ResultRow, QueryResult, Evaluation, Status, Stored, Env}
use corkscrew.Findings.Tables.{has_row, resolve_row}
use corkscrew.Findings.Tables.Keyed.{IsKeyed}
use corkscrew.Findings.Attempt.{Tx, Ensures, Ensures-mono}
use corkscrew.Findings.Record.{is_failing, finding_of}
use corkscrew.Findings.PerRow.{Progress, store_row}
use corkscrew.Findings.Batches.Refines.{start_of}
use corkscrew.Findings.Results.{record_and_resolve, record_results}
use corkscrew.Findings.Results.Loop.{resolve_where}
use corkscrew.Findings.Results.Steps.{
  IsStep, store_rows-keeps, end_of-IsKeyed, record_and_resolve-IsStep,
}
use corkscrew.Findings.Results.Totals.{
  count_failed, count_successful, IsClear, Concluded, record_results-Concluded,
}

-- An evaluation at work: each finding was opened or recurred, and the table has its key.
pub record IsRunning (ev : Evaluation) (t : Tx) : Type 0 where
  pub named : ev.id ≢ []
  pub running : ev.status ≡ Status.completed
  pub totals : ev.opened + ev.recurred ≡ length ev.findings
  pub keyed : IsKeyed t.findings

-- What the evaluation says of the results.
pub record IsSummed (results : List QueryResult) (ev : Evaluation) (t' : Tx) : Type 0 where
  pub totals : ev.opened + ev.recurred ≡ length ev.findings
  pub keyed : IsKeyed t'.findings
  pub completed_iff : (ev.status ≡ Status.completed) ↔ (count_failed results ≡ 0)
  pub partial_iff :
      (ev.status ≡ Status.partial) ↔ ((0 < count_failed results) × (0 < count_successful results))
  pub failed_iff :
      (ev.status ≡ Status.failed) ↔ ((0 < count_failed results) × (count_successful results ≡ 0))

module _ (env : Env) (scan : ScanRecord) where
  store_row-totals :
      (result : QueryResult) (evaluation_id : Text) (row : ResultRow) (p : Progress)
      → p.opened + p.recurred ≡ length p.findings
      → (store_row env scan result evaluation_id row p).opened
          + (store_row env scan result evaluation_id row p).recurred
        ≡ length (store_row env scan result evaluation_id row p).findings
  unfolding store_row
  store_row-totals result evaluation_id row p h = elim (Bool-cases (is_failing env scan row)) [
    | inl fails ↦
        rw fails (ground (arith, length-append p.findings (finding_of env scan result row ∷ [])))
    | inr passes ↦ rw passes h
  ]

  pub IsRunning-error :
      (ev : Evaluation) (t : Tx) (m : Text) → IsRunning ev t → IsRunning (record ev { error = m }) t
  IsRunning-error ev t m h = record {
    named = h.named;
    running = h.running;
    totals = h.totals;
    keyed = h.keyed;
  }

  has_row-resolve_where :
      (p : Stored → Bool) (k : Text) (table : List Stored)
      → has_row k (resolve_where scan p table) ≡ has_row k table
  unfolding has_row resolve_row
  has_row-resolve_where p k [] = refl
  has_row-resolve_where p k (s ∷ table) = ground (arith, has_row-resolve_where p k table)

  resolve_where-IsKeyed :
      (p : Stored → Bool) (table : List Stored)
      → IsKeyed table
      → IsKeyed (resolve_where scan p table)
  unfolding has_row resolve_row
  resolve_where-IsKeyed p [] h = tt
  resolve_where-IsKeyed p (s ∷ table) h = (
    ground (arith, has_row-resolve_where p s.fingerprint table, h.0),
    resolve_where-IsKeyed p table h.1,
  )

  pub IsRunning-step :
      (result : QueryResult) (ev : Evaluation) (t : Tx) (ev' : Evaluation) (t' : Tx)
      → IsRunning ev t
      → IsStep env scan result ev t ev' t'
      → IsRunning ev' t'
  IsRunning-step result ev t ev' t' h s = rw s.evaluated (record {
    named = h.named;
    running = h.running;
    totals =
        store_rows-keeps env scan result ev.id
          (λ (p : Progress). p.opened + p.recurred ≡ length p.findings)
          (store_row-totals result ev.id) result.rows (start_of ev t) h.totals;
    keyed = rw s.table (resolve_where-IsKeyed _ _ (end_of-IsKeyed env scan result ev t h.keyed));
  })

  module _ (fails : ℕ → Bool) where
    pub IsRunning-result :
        (r : QueryResult) (ev : Evaluation) (t : Tx)
        → r.error ≡ none
        → IsClear env scan r
        → IsRunning ev t
        → Ensures fails t IsRunning (record_and_resolve fails env scan r ev t)
    IsRunning-result r ev t good clear h =
        Ensures-mono fails t (IsStep env scan r ev t) IsRunning
          (record_and_resolve fails env scan r ev t)
          (record_and_resolve-IsStep env scan fails r ev t good h.named clear h.keyed)
          (λ ev' t' s. IsRunning-step r ev t ev' t' h s)

    summed :
        (results : List QueryResult) (ev : Evaluation) (t' : Tx)
        → Concluded fails env scan IsRunning IsRunning-error IsRunning-result results ev t'
        → IsSummed results ev t'
    summed results ev t' c = record {
      totals = ground (arith, c.ended, c.kept.totals);
      keyed = c.kept.keyed;
      completed_iff = ground (arith, c.ended, c.kept.running);
      partial_iff = ground (arith, c.ended, c.kept.running);
      failed_iff = ground (arith, c.ended, c.kept.running);
    }

    -- From an evaluation with an id whose status is still completed and whose totals agree, and a
    -- table of which no two rows share a fingerprint, over results whose rows are about the same
    -- control and resource whenever they share a fingerprint: recordResults fails no assertion, and
    -- rolls back only if the database refuses one of its own statements, at the first one that is
    -- refused. Otherwise none of them was refused, the totals still agree, so that each finding
    -- reported is opened or recurred, still no two rows share a fingerprint, and the evaluation
    -- stays completed exactly if no control failed, is failed exactly if all did and there was one,
    -- and partial exactly if some did and some did not.
    pub record_results-IsSummed :
        (results : List QueryResult) (evaluation : Evaluation) (t : Tx)
        → All (IsClear env scan) results
        → IsRunning evaluation t
        → Ensures fails t (IsSummed results) (record_results fails env scan results evaluation t)
    record_results-IsSummed results evaluation t clear h =
        Ensures-mono fails t
          (Concluded fails env scan IsRunning IsRunning-error IsRunning-result results)
          (IsSummed results) (record_results fails env scan results evaluation t)
          (record_results-Concluded fails env scan IsRunning IsRunning-error IsRunning-result
            results evaluation t (λ ev u k. k.totals) clear h)
          (λ ev t' c. summed results ev t' c)
