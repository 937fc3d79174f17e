-- ===== src/ScanExec/Aggregate.antt =====
-- internal/scanexec/executor.go: aggregateScopes and assertMergedTotal.
pub mod Counts
pub mod Merged
use corkscrew.Prelude.{
  ℕ, zero, suc, ◌+◌, ◌%◌, ◌^◌, ◌≤◌, ◌≡◌, Bool, true, false, Option, none, some, List, [], ◌∷◌, ◌++◌,
  Text, codes, text_eq, join, length, sum_by, Run, done, assert_that, ◌>>=◌, ◌>>◌, leb, ◌==◌,
  if◌then◌else◌,
}
use corkscrew.ScanExec.Types.{
  Resource, ScanStats, ScopeResult, Plan, Event, EventKind, scope_completed, scope_failed, add32,
  add64, has_errors,
}
use corkscrew.ScanExec.Dedupe.{dedupe_resources}

-- m[service] += count, where a service that is not in the map counts as 0.
unfoldable pub add_count : Text → ℕ → List (Text × ℕ) → List (Text × ℕ)
add_count service count [] = (service, add32 0 count) ∷ []
add_count service count ((s, n) ∷ m) =
    if text_eq s service then (s, add32 n count) ∷ m else (s, n) ∷ add_count service count m

-- `for service, count := range counts`: the loop over the entries of one scope's map.
unfoldable pub add_counts : List (Text × ℕ) → List (Text × ℕ) → List (Text × ℕ)
add_counts [] m = m
add_counts ((service, count) ∷ counts) m = add_counts counts (add_count service count m)

-- The merged statistics, without the total.
unfoldable pub add_stats : Option ScanStats → ScanStats → ScanStats
unfolding add_counts add_count
add_stats none m = m
add_stats (some s) m = record m {
  failed_resources = add32 m.failed_resources s.failed_resources;
  duration_ms = add64 m.duration_ms s.duration_ms;
  service_counts = add_counts s.service_counts m.service_counts;
}

-- The variables of the loop.
pub record Totals {ℓ} (B : Type ℓ) : Type ℓ where
  pub resources : List (Option (Resource B))
  pub stats : ScanStats
  pub failed : List Text
  pub unreachable : ℕ
  pub events : List Event

abbrev pub no_stats : ScanStats
no_stats = record {
  total_resources = 0;
  failed_resources = 0;
  duration_ms = 0;
  service_counts = [];
}

abbrev pub no_totals {ℓ} : {B : Type ℓ} → Totals B
no_totals = record { resources = []; stats = no_stats; failed = []; unreachable = 0; events = [] }

unfoldable pub end_event {ℓ} : {B : Type ℓ} → Plan → ℕ → ScopeResult B → Event
end_event plan index r = record {
  kind = if has_errors r then scope_failed else scope_completed;
  provider = plan.provider;
  scope = r.scope;
  completed = index + 1;
  total = length plan.scopes;
  message = if has_errors r then join (codes "; ") r.errors else [];
}

module _ {ℓ} {B : Type ℓ} (plan : Plan) (observed : Bool) where
  -- One round of the loop; `observed` tells whether there is an observer.
  unfoldable pub add_scope : ℕ → ScopeResult B → Totals B → Totals B
  unfolding add_stats
  add_scope index r t = record {
    resources = t.resources ++ r.resources;
    stats = add_stats r.stats t.stats;
    failed = if has_errors r then t.failed ++ r.scope ∷ [] else t.failed;
    unreachable = if r.unreachable then t.unreachable + 1 else t.unreachable;
    events = if observed then t.events ++ end_event plan index r ∷ [] else t.events;
  }

  unfoldable pub aggregate_loop : ℕ → List (ScopeResult B) → Totals B → Totals B
  aggregate_loop index [] t = t
  aggregate_loop index (r ∷ rs) t = aggregate_loop (suc index) rs (add_scope index r t)

  unfoldable pub assert_merged_total :
      List (ScopeResult B) → List (Option (Resource B)) → Run (Unit {0})
  assert_merged_total scopes merged =
      assert_that (sum_by (λ r. length r.resources) scopes == length merged)

  -- The deduplicated resources, and their number.
  abbrev pub keep_first : Totals B → Totals B
  keep_first t =
      let kept = dedupe_resources t.resources in
      record t {
        resources = kept;
        stats = record (t.stats) { total_resources = length kept % 2 ^ 32 };
      }

  -- aggregateScopes
  unfoldable pub aggregate_scopes : List (ScopeResult B) → Run (Totals B)
  unfolding aggregate_loop add_scope assert_merged_total
  aggregate_scopes scopes = do
    let t = aggregate_loop 0 scopes no_totals
    assert_merged_total scopes t.resources
    let kept = keep_first t
    assert_that (leb (length kept.resources) (length t.resources))
    assert_that (leb t.unreachable (length t.failed))
    done kept
