-- ===== src/Findings/Results.antt =====
-- internal/app/findings/findings.go: resolveAbsent, recordResults and assertEvaluationTotals.
pub mod Loop
pub mod Resolved
pub mod Totals
pub mod Steps
pub mod Summed
pub mod Newer
pub mod Current
use corkscrew.Prelude.{
  ℕ, zero, suc, ◌+◌, Bool, true, false, ◌&&◌, ◌||◌, not, Option, none, some, List, [], ◌∷◌, Text,
  length, take, ltb, ◌==◌, if◌then◌else◌,
}
use corkscrew.Findings.Types.{ScanRecord, QueryResult, Evaluation, Status, Env}
use corkscrew.Findings.Types
use corkscrew.Findings.Tables.{is_in, select_candidates, resolve, count_rows}
use corkscrew.Findings.Attempt.{
  Tx, Attempt, ok, rolled_back, panicked, M, pure, bind, ◌>>=◌, ◌>>◌, assert_that, statement,
}
use corkscrew.Findings.Batches.{record_result}

-- The rows that rows.Next gives before the reading breaks off, if it does.
abbrev pub delivered : Option ℕ → List Text → List Text
delivered none ks = ks
delivered (some n) ks = take n ks

module _ (fails : ℕ → Bool) (scan : ScanRecord) where
  -- The loop over the candidates, with the number resolved so far.
  unfoldable pub resolve_loop : List Text → List Text → ℕ → M ℕ
  resolve_loop observed [] resolved = pure resolved
  resolve_loop observed (k ∷ ks) resolved = elim (is_in k observed) [
    | true ↦ resolve_loop observed ks resolved
    | false ↦ do
      count ←
          statement fails
            (λ t. (count_rows k t.findings, record t { findings = resolve scan k t.findings }))
      resolve_loop observed ks (resolved + count)
  ]

  -- resolveAbsent. The loop over the rows does not ask whether the reading broke off.
  unfoldable pub resolve_absent : Text → Text → List Text → M ℕ
  resolve_absent pack_ref control_id observed t =
      bind
        (statement fails
          (λ u. (
            delivered (t.breaks_off t.statements)
                (select_candidates pack_ref control_id scan u.findings),
            u,
          ))
          t)
        (λ candidates. resolve_loop observed candidates 0)

-- The variables of the loop over the results.
pub record Tally : Type 0 where
  pub evaluation : Evaluation
  pub successful_controls : ℕ
  pub failed_controls : ℕ

-- The status that the numbers of controls give.
abbrev pub status_of : ℕ → ℕ → Status → Status
status_of successful_controls failed_controls status =
    if ltb 0 failed_controls
    then (if successful_controls == 0 then Status.failed else Status.partial)
    else status

module _ (fails : ℕ → Bool) (env : Env) (scan : ScanRecord) where
  -- A result without an error: what it adds to the evaluation.
  unfoldable pub record_and_resolve : QueryResult → Evaluation → M Evaluation
  record_and_resolve result evaluation = do
    recorded ← record_result fails env scan result evaluation
    resolved ← resolve_absent fails scan result.pack_ref result.control_id recorded.1
    pure (record recorded.0 { resolved = recorded.0.resolved + resolved })

  unfoldable pub results_loop : List QueryResult → Tally → M Tally
  results_loop [] tally = pure tally
  results_loop (result ∷ results) tally = elim result.error [
    | some message ↦ results_loop results (record tally {
      failed_controls = tally.failed_controls + 1;
      evaluation = record tally.evaluation { error = message };
    })
    | none ↦ do
      evaluation ← record_and_resolve result tally.evaluation
      results_loop results (record tally {
        successful_controls = tally.successful_controls + 1;
        evaluation = evaluation;
      })
  ]

  -- recordResults
  unfoldable pub record_results : List QueryResult → Evaluation → M Evaluation
  record_results results evaluation = do
    tally ←
        results_loop results
          (record { evaluation = evaluation; successful_controls = 0; failed_controls = 0 })
    assert_that (tally.successful_controls + tally.failed_controls == length results)
    let ended = record tally.evaluation {
      status = status_of tally.successful_controls tally.failed_controls tally.evaluation.status;
    }
    assert_that (ended.opened + ended.recurred == length ended.findings)
    pure ended
