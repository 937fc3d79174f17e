-- ===== src/ScanExec/Execute.antt =====
-- internal/scanexec/executor.go: Execute.
pub mod InOrder
use corkscrew.Prelude.{
  ℕ, zero, suc, ◌*◌, ◌≡◌, Bool, true, false, Option, none, some, List, [], ◌∷◌, ◌++◌, Text, length,
  Run, done, ◌>>=◌, assert_that, ◌>>◌, ltb, leb, ◌==◌, if◌then◌else◌, sort_texts,
}
use corkscrew.Prelude.Int.{ℤ, pos, negsuc}
use corkscrew.ScanExec.Types.{
  Scanner, Plan, Outcome, Indexed, ScopeResult, Event, Status, complete, partial, failed, ScanError,
  scanner_required, no_scopes, context_error, partial_error,
}
use corkscrew.ScanExec.Collect.{collect_scope_results}
use corkscrew.ScanExec.Aggregate.{Totals, aggregate_scopes}

-- concurrency := plan.MaxConcurrency, brought into 1 … len(plan.Scopes)
unfoldable pub concurrency_of : Plan → ℕ
concurrency_of plan =
    let wanted : ℕ = elim plan.max_concurrency [
      | pos n ↦ elim n [ zero ↦ 1 | suc k ↦ suc k ]
      | negsuc n ↦ 1
    ] in
    if ltb (length plan.scopes) wanted then length plan.scopes else wanted

-- timeout := plan.ScopeTimeout, or 5 minutes, in nanoseconds
unfoldable pub timeout_of : Plan → ℕ
timeout_of plan = elim plan.scope_timeout [
  | pos n ↦ elim n [ zero ↦ 5 * 60 * 1_000_000_000 | suc k ↦ suc k ]
  | negsuc n ↦ 5 * 60 * 1_000_000_000
]

abbrev pub failed_outcome {ℓ} : {B : Type ℓ} → Outcome B
failed_outcome = record { status = failed; resources = []; scopes = []; stats = none }

-- What Execute returns, and the events of the scopes that ended.
pub record Executed {ℓ} (B : Type ℓ) : Type ℓ where
  pub outcome : Outcome B
  pub error : Option ScanError
  pub events : List Event

module _ {ℓ} {B : Type ℓ} where
  -- The end of Execute: the status and the error, from the context's error and the totals.
  unfoldable pub conclude : Plan → Option Text → Totals B → List (ScopeResult B) → Executed B
  conclude plan ctx_err t collected =
      let finish = λ (s : Status) (e : Option ScanError).
        let x : Executed B = record {
          outcome = record {
            status = s;
            resources = t.resources;
            scopes = collected;
            stats = some t.stats;
          };
          error = e;
          events = t.events;
        } in
        x in
      elim ctx_err [
        | some e ↦ finish failed (some (context_error e))
        | none ↦ elim t.failed [
          | [] ↦ finish complete none
          | _ ∷ _ ↦
              finish (if t.unreachable == length plan.scopes then failed else partial)
                (some (partial_error (sort_texts t.failed)))
        ]
      ]

  abbrev pub refuse : ScanError → Executed B
  refuse e = record { outcome = failed_outcome; error = some e; events = [] }

  -- Execute, with the two assertions at the start of dispatchScopes, given whether there is a scanner, and the results that the workers' channel delivers.
  unfoldable pub execute :
      Option (Scanner B) → Plan → Bool → Option Text → List (Indexed B) → Run (Executed B)
  unfolding conclude
  execute none plan observed ctx_err results = done (refuse scanner_required)
  execute (some scanner) plan observed ctx_err results = elim plan.scopes [
    | [] ↦ done (refuse no_scopes)
    | _ ∷ _ ↦ do
      assert_that (ltb 0 (concurrency_of plan))
      assert_that (leb (concurrency_of plan) (length plan.scopes))
      collected ← collect_scope_results results plan.scopes
      t ← aggregate_scopes plan observed collected
      done (conclude plan ctx_err t collected)
  ]
