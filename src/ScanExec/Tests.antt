-- ===== src/ScanExec/Tests.antt =====
-- Tests for internal/scanexec/executor.go.
use corkscrew.Prelude.{
  ℕ, zero, suc, ◌+◌, ◌≡◌, ◌↔◌, ◌⊎◌, refl, arith, true, false, Option, none, some, List, [], ◌∷◌,
  Text, codes, text_eq, join, contains_byte, get_elem?, tabulate, done,
}
use corkscrew.Prelude.Int.{pos}
use corkscrew.ScanExec.Types.{Resource, failed, response, Scanner, Plan, ScopeResult}
use corkscrew.ScanExec.Scope.{scan_scope}
use corkscrew.ScanExec.Pool.{
  Pool, start, start_event, Step, announce, take_job, finish, Reach, here, next, IsFinished,
}
use corkscrew.ScanExec.Pool.Invariant.{IsSound, Reach-IsSound}
use corkscrew.ScanExec.Pool.Progress.{remaining, Step-decreases, Reach-no_deadlock}
use corkscrew.ScanExec.Collect.{collect_scope_results, collect-in_order}
use corkscrew.ScanExec.Dedupe.{resource_key, dedupe_resources, dedupe_loop, is_seen}
use corkscrew.ScanExec.Dedupe.Keys.{SameFields, NulFreeFields, resource_key-iff_SameFields}
use corkscrew.ScanExec.Dedupe.First.{IsDeduped, dedupe-IsDeduped}
use corkscrew.ScanExec.Aggregate.{Totals, aggregate_scopes}
use corkscrew.ScanExec.Aggregate.Merged.{IsMerged, aggregate-IsMerged}
use corkscrew.ScanExec.Execute.{Executed, execute, concurrency_of}
use corkscrew.ScanExec.Execute.InOrder.{scan_job, named, IsConcluded, execute-IsConcluded}

abbrev bucket : Resource ℕ
bucket = record {
  provider = codes "aws";
  account_id = codes "1";
  type_name = codes "bucket";
  id = codes "b";
  body = 7;
}

abbrev again : Resource ℕ
again = record bucket { body = 8 }

-- The first scope answers, the second fails.
abbrev some_scanner : Scanner ℕ
some_scanner zero timeout request =
    response
      (record { resources = some bucket ∷ none ∷ some again ∷ []; stats = none; errors = [] })
some_scanner (suc n) timeout request = failed (codes "denied")

abbrev two_scopes : Plan
two_scopes = record {
  provider = codes "aws";
  scopes = codes "eu" ∷ codes "us" ∷ [];
  services = [];
  filters = [];
  include_relationships = false;
  max_concurrency = pos 2;
  scope_timeout = pos 0;
}

abbrev job : ℕ → ScopeResult ℕ
job = scan_job some_scanner two_scopes

abbrev Reached : Pool ℕ → Type 0
Reached = Reach two_scopes (concurrency_of two_scopes) job

concurrency_two : concurrency_of two_scopes ≡ 2
unfolding concurrency_of
concurrency_two = refl

-- Both scopes are in work.
abbrev both_running : Pool ℕ
both_running = record {
  announced = 2;
  taken = 2;
  running = 0 ∷ 1 ∷ [];
  results = [];
  events = start_event two_scopes (codes "eu") ∷ start_event two_scopes (codes "us") ∷ [];
}

-- The second scope has finished before the first.
abbrev all_finished : Pool ℕ
all_finished = record both_running {
  running = [];
  results = record { index = 1; result = job 1 } ∷ record { index = 0; result = job 0 } ∷ [];
}

Reached-running : Reached both_running
unfolding start concurrency_of
Reached-running =
    next
      (next
        (next (next here (announce (codes "eu") refl refl)) (take_job (omega arith) (omega arith)))
        (announce (codes "us") refl refl))
      (take_job (omega arith) (omega arith))

last_step :
    Step two_scopes
      (concurrency_of two_scopes)
      job
      (record both_running {
        running = 0 ∷ [];
        results = record { index = 1; result = job 1 } ∷ [];
      })
      all_finished
last_step = finish [] 0 [] refl

Reached-half :
    Reached (record both_running {
      running = 0 ∷ [];
      results = record { index = 1; result = job 1 } ∷ [];
    })
Reached-half = next Reached-running (finish (0 ∷ []) 1 [] refl)

Reached-finished : Reached all_finished
Reached-finished = next Reached-half last_step

all_finished-IsFinished : IsFinished two_scopes all_finished
all_finished-IsFinished = record { all_taken = refl; none_running = refl }

Reach-IsSound_example : IsSound two_scopes (concurrency_of two_scopes) job all_finished
Reach-IsSound_example = Reach-IsSound two_scopes (concurrency_of two_scopes) job Reached-finished

Step-decreases_example :
    remaining two_scopes all_finished + 1
    ≡ remaining two_scopes (record both_running {
      running = 0 ∷ [];
      results = record { index = 1; result = job 1 } ∷ [];
    })
Step-decreases_example =
    Step-decreases two_scopes (concurrency_of two_scopes) job Reached-half last_step

Reach-no_deadlock_example :
    IsFinished two_scopes both_running
    ⊎ ((q : Pool ℕ) × Step two_scopes (concurrency_of two_scopes) job both_running q)
unfolding concurrency_of
Reach-no_deadlock_example =
    Reach-no_deadlock two_scopes (concurrency_of two_scopes) job (omega arith) Reached-running

named_job :
    (i : ℕ) (scope : Text) → get_elem? two_scopes.scopes i ≡ some scope → (job i).scope ≡ scope
named_job = named some_scanner two_scopes

collect-in_order_example :
    collect_scope_results all_finished.results two_scopes.scopes ≡ done (tabulate job 0 2)
collect-in_order_example =
    collect-in_order two_scopes (concurrency_of two_scopes) job named_job Reached-finished
      all_finished-IsFinished

execute-IsConcluded_example :
    (x : Executed ℕ) × (execute (some some_scanner) two_scopes true none all_finished.results
      ≡ done x)
    × IsConcluded some_scanner two_scopes none x
execute-IsConcluded_example =
    execute-IsConcluded some_scanner two_scopes true none all_finished (λ e. cc) Reached-finished
      all_finished-IsFinished

aggregate-IsMerged_example :
    (t : Totals ℕ) × (aggregate_scopes two_scopes true (job 0 ∷ []) ≡ done t)
    × IsMerged two_scopes true (job 0 ∷ []) t
unfolding scan_scope
aggregate-IsMerged_example =
    aggregate-IsMerged two_scopes true (job 0 ∷ []) ((λ h. absurd (ground arith)), tt)

abbrev with_double : List (Option (Resource ℕ))
with_double = some bucket ∷ none ∷ some again ∷ []

dedupe_double : dedupe_resources with_double ≡ some bucket ∷ []
unfolding dedupe_resources dedupe_loop is_seen resource_key join text_eq
dedupe_double = refl

dedupe-IsDeduped_example : IsDeduped with_double (dedupe_resources with_double)
dedupe-IsDeduped_example = dedupe-IsDeduped with_double

bucket-NulFreeFields : NulFreeFields bucket
unfolding contains_byte
bucket-NulFreeFields = record { provider = refl; account_id = refl; type_name = refl }

resource_key-iff_SameFields_example :
    (resource_key bucket ≡ resource_key bucket) ↔ SameFields bucket bucket
resource_key-iff_SameFields_example =
    resource_key-iff_SameFields bucket bucket bucket-NulFreeFields bucket-NulFreeFields
