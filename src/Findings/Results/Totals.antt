-- ===== src/Findings/Results/Totals.antt =====
-- internal/app/findings/findings.go: the totals and the status of an evaluation.
use native.Mathlib.Nat.{zero-add}
use corkscrew.Prelude.{
  ℕ, ◌+◌, ◌≡◌, ap, ◌∙◌, inl, inr, Bool, true, none, some, List, [], ◌∷◌, Text, All, arith, length,
  Option-cases, ◌==◌,
}
use corkscrew.Findings.Types.{ScanRecord, QueryResult, Evaluation, Env}
use corkscrew.Findings.Attempt.{Tx, Ensures, Ensures-pure, Ensures-bind, Ensures-mono}
use corkscrew.Findings.PerRow.{NoClash}
use corkscrew.Findings.Results.{Tally, record_and_resolve, results_loop, status_of, record_results}

abbrev pub count_failed : List QueryResult → ℕ
count_failed [] = 0
count_failed (r ∷ rs) = elim r.error [ none ↦ 0 | some e ↦ 1 ] + count_failed rs

abbrev pub count_successful : List QueryResult → ℕ
count_successful [] = 0
count_successful (r ∷ rs) = elim r.error [ none ↦ 1 | some e ↦ 0 ] + count_successful rs

counts_add :
    (results : List QueryResult) → count_successful results + count_failed results ≡ length results
counts_add [] = omega arith
counts_add (r ∷ results) = elim (Option-cases r.error) [
  | inl good ↦ rw good (omega (arith, counts_add results))
  | inr (m, bad) ↦ rw bad (omega (arith, counts_add results))
]

-- The rows of a result that share a fingerprint are about the same control and resource.
abbrev pub IsClear : Env → ScanRecord → QueryResult → Type 0
IsClear env scan r = NoClash env scan r r.rows

module _ (fails : ℕ → Bool) (env : Env) (scan : ScanRecord) where
  -- The rule of the loop over the results.
  module _ (P : Evaluation → Tx → Type 0)
      (after_error : (ev : Evaluation) (t : Tx) (m : Text) → P ev t → P (record ev { error = m }) t)
      (after_success : (r : QueryResult) (ev : Evaluation) (t : Tx)
        → r.error ≡ none
        → IsClear env scan r
        → P ev t
        → Ensures fails t P (record_and_resolve fails env scan r ev t)) where
    record Counts (results : List QueryResult) (tally tally' : Tally) (t' : Tx) : Type 0 where
      kept : P tally'.evaluation t'
      successful : tally'.successful_controls ≡ tally.successful_controls + count_successful results
      failed : tally'.failed_controls ≡ tally.failed_controls + count_failed results

    results_loop-Counts :
        (results : List QueryResult) (tally : Tally) (t : Tx)
        → All (IsClear env scan) results
        → P tally.evaluation t
        → Ensures fails t (Counts results tally) (results_loop fails env scan results tally t)
    unfolding results_loop
    results_loop-Counts [] tally t c h =
        Ensures-pure fails (Counts [] tally) tally t
          (record { kept = h; successful = omega arith; failed = omega arith })
    results_loop-Counts (r ∷ results) tally t c h = elim (Option-cases r.error) [
      | inl good ↦
          rw (good, results_loop)
            (Ensures-bind fails t P (Counts (record r { error = none } ∷ results) tally)
              (record_and_resolve fails env scan r tally.evaluation t) _
              (after_success r tally.evaluation t good c.0 h)
              (λ ev t' h'.
                let next : Tally = record tally {
                  evaluation = ev;
                  successful_controls = tally.successful_controls + 1;
                } in
                Ensures-mono fails t' (Counts results next)
                  (Counts (record r { error = none } ∷ results) tally)
                  (results_loop fails env scan results next t')
                  (results_loop-Counts results next t' c.1 h')
                  (λ tally' t'' k. record {
                    kept = k.kept;
                    successful = omega (arith, k.successful);
                    failed = omega (arith, k.failed);
                  })))
      | inr (m, bad) ↦
          let next : Tally = record tally {
            failed_controls = tally.failed_controls + 1;
            evaluation = record tally.evaluation { error = m };
          } in
          rw (bad, results_loop)
            (Ensures-mono fails t (Counts results next)
              (Counts (record r { error = some m } ∷ results) tally)
              (results_loop fails env scan results next t)
              (results_loop-Counts results next t c.1 (after_error tally.evaluation t m h))
              (λ tally' t' k. record {
                kept = k.kept;
                successful = omega (arith, k.successful);
                failed = omega (arith, k.failed);
              }))
    ]

    -- The loop's evaluation, with the status that the counts give.
    pub record Concluded (results : List QueryResult) (ev : Evaluation) (t' : Tx) : Type 0 where
      pub tallied : Evaluation
      pub kept : P tallied t'
      pub ended : ev ≡ record tallied {
        status = status_of (count_successful results) (count_failed results) tallied.status;
      }

    pub record_results-Concluded :
        (results : List QueryResult) (evaluation : Evaluation) (t : Tx)
        → ((ev : Evaluation) (u : Tx) → P ev u → ev.opened + ev.recurred ≡ length ev.findings)
        → All (IsClear env scan) results
        → P evaluation t
        → Ensures fails t (Concluded results) (record_results fails env scan results evaluation t)
    unfolding record_results
    record_results-Concluded results evaluation t balanced c h =
        let start : Tally = record {
          evaluation = evaluation;
          successful_controls = 0;
          failed_controls = 0;
        } in
        Ensures-bind fails t (Counts results start) (Concluded results)
          (results_loop fails env scan results start t) _ (results_loop-Counts results start t c h)
          (λ tally t' k.
            let all_counted : (tally.successful_controls + tally.failed_controls == length results)
                ≡ true =
              ground (arith, k.successful, k.failed, counts_add results) in
            let totals : (tally.evaluation.opened + tally.evaluation.recurred
                  == length tally.evaluation.findings)
                ≡ true =
              ground (arith, balanced tally.evaluation t' k.kept) in
            rw (all_counted, totals)
              (Ensures-pure fails (Concluded results) _ t' (record {
                tallied = tally.evaluation;
                kept = k.kept;
                ended =
                    ap
                      (λ (n : ℕ). record tally.evaluation {
                        status = status_of n tally.failed_controls tally.evaluation.status;
                      })
                      (k.successful ∙ zero-add (count_successful results))
                    ∙ ap
                        (λ (n : ℕ). record tally.evaluation {
                          status = status_of (count_successful results) n tally.evaluation.status;
                        })
                        (k.failed ∙ zero-add (count_failed results));
              })))
