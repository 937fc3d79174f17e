-- ===== src/ScanExec/Execute/InOrder.antt =====
-- internal/scanexec/executor.go: Execute does not depend on the order in which workers finish.
use corkscrew.Prelude.{
  ℕ, ◌≡◌, ◌≢◌, ◌↔◌, Bool, true, Option, none, some, List, [], arith, Text, length, All,
  All-tabulate, tabulate, get_elem?, get_or, get_or-of_some, ◌∙◌, done, ltb, leb,
}
use corkscrew.ScanExec.Types.{Scanner, Plan, ScopeResult, complete, partial}
use corkscrew.ScanExec.Scope.{scan_scope, scope-scan_scope, unreachable-has_errors}
use corkscrew.ScanExec.Pool.{Pool, Reach, IsFinished}
use corkscrew.ScanExec.Collect.{collect_scope_results, collect-in_order}
use corkscrew.ScanExec.Dedupe.{dedupe_resources}
use corkscrew.ScanExec.Aggregate.{Totals}
use corkscrew.ScanExec.Aggregate.Merged.{
  IsMerged, aggregate-IsMerged, all_resources, failed_scopes, unreachable_count, HasReason,
}
use corkscrew.ScanExec.Execute.{Executed, execute, conclude, concurrency_of, timeout_of}

concurrency-in_range :
    (plan : Plan)
    → plan.scopes ≢ []
    → (ltb 0 (concurrency_of plan) ≡ true) × (leb (concurrency_of plan) (length plan.scopes) ≡ true)
unfolding concurrency_of
concurrency-in_range plan ne = (ground arith, ground arith)

module _ {B : Type 0} (scanner : Scanner B) (plan : Plan) where
  -- The job of a worker: scan the scope with this number.
  abbrev pub scan_job : ℕ → ScopeResult B
  scan_job i =
      scan_scope scanner plan i (get_or plan.scopes i []) (concurrency_of plan) (timeout_of plan)

  -- The results in the order of the plan.
  abbrev pub in_order : List (ScopeResult B)
  in_order = tabulate scan_job 0 (length plan.scopes)

  -- How the statuses and the error follow from what the scopes report.
  pub record IsConcluded (ctx_err : Option Text) (x : Executed B) : Type 0 where
    pub scopes : x.outcome.scopes ≡ in_order
    pub resources : x.outcome.resources ≡ dedupe_resources (all_resources in_order)
    pub complete_iff :
        (x.outcome.status ≡ complete) ↔ ((ctx_err ≡ none) × (failed_scopes in_order ≡ []))
    pub partial_iff : (x.outcome.status ≡ partial) ↔ (
        (ctx_err ≡ none)
        × (failed_scopes in_order ≢ [])
        × (unreachable_count in_order ≢ length plan.scopes))
    pub error_iff : (x.error ≡ none) ↔ (x.outcome.status ≡ complete)

  in_order-HasReason : All HasReason in_order
  in_order-HasReason =
      All-tabulate HasReason scan_job 0 (length plan.scopes)
        (λ i. unreachable-has_errors scanner plan i _ _ _)

  conclude-IsConcluded :
      (observed : Bool) (ctx_err : Option Text) (t : Totals B)
      → IsMerged plan observed in_order t
      → IsConcluded ctx_err (conclude plan ctx_err t in_order)
  unfolding conclude
  conclude-IsConcluded observed ctx_err t m = record {
    scopes = ground arith;
    resources = ground (arith, m.resources);
    complete_iff = ground (arith, m.failed);
    partial_iff = ground (arith, m.failed, m.unreachable);
    error_iff = ground arith;
  }

  pub named :
      (i : ℕ) (scope : Text) → get_elem? plan.scopes i ≡ some scope → (scan_job i).scope ≡ scope
  named i scope e =
      scope-scan_scope scanner plan i (get_or plan.scopes i []) (concurrency_of plan)
        (timeout_of plan)
      ∙ get_or-of_some plan.scopes i [] scope e

  -- Whatever the interleaving of the workers: once the pool of a plan with scopes has finished,
  -- Execute returns with no assertion failed. The outcome has the scan of each scope in the order
  -- of the plan and their resources in this order, deduplicated. It is complete exactly if the
  -- context has no error and no scope has one, partial exactly if the context has no error, some
  -- scope has one, and not every scope was unreachable; and an error is returned exactly if the
  -- outcome is not complete.
  pub execute-IsConcluded :
      (observed : Bool) (ctx_err : Option Text) (p : Pool B)
      → plan.scopes ≢ []
      → Reach plan (concurrency_of plan) scan_job p
      → IsFinished plan p
      → (x : Executed B) × (execute (some scanner) plan observed ctx_err p.results ≡ done x)
        × IsConcluded ctx_err x
  unfolding execute
  execute-IsConcluded observed ctx_err p ne r finished =
      let collected : collect_scope_results p.results plan.scopes ≡ done in_order =
        collect-in_order plan (concurrency_of plan) scan_job named r finished in
      let (t, aggregated, m) = aggregate-IsMerged plan observed in_order in_order-HasReason in
      (
        conclude plan ctx_err t in_order,
        ground (arith, collected, aggregated, ne, concurrency-in_range plan ne),
        conclude-IsConcluded observed ctx_err t m,
      )
