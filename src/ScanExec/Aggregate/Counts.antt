-- ===== src/ScanExec/Aggregate/Counts.antt =====
-- internal/scanexec/executor.go: the merged count of each service.
use corkscrew.Prelude.{
  ℕ, suc, ◌+◌, ◌^◌, ◌<◌, ◌≡◌, Bool, none, some, List, [], ◌∷◌, arith, Text, text_eq, text_eq_iff,
  if◌then◌else◌, sum_by, Option,
}
use corkscrew.ScanExec.Types.{ScanStats, ScopeResult, Plan, add32}
use corkscrew.ScanExec.Aggregate.{
  Totals, add_count, add_counts, add_stats, add_scope, aggregate_loop,
}

-- The value under a key, 0 if there is none.
abbrev pub count_of : Text → List (Text × ℕ) → ℕ
count_of service [] = 0
count_of service ((s, n) ∷ m) = if text_eq s service then n else count_of service m

-- The sum of the values under a key.
abbrev pub total_of : Text → List (Text × ℕ) → ℕ
total_of service [] = 0
total_of service ((s, n) ∷ m) = (if text_eq s service then n else 0) + total_of service m

-- What a scope reports for a service.
abbrev pub total_of_stats : Text → Option ScanStats → ℕ
total_of_stats service none = 0
total_of_stats service (some s) = total_of service s.service_counts

abbrev pub reported {ℓ} : {B : Type ℓ} → Text → ScopeResult B → ℕ
reported service r = total_of_stats service r.stats

count_of-add_count :
    (service s : Text) (n : ℕ) (m : List (Text × ℕ))
    → count_of service (add_count s n m)
      ≡ (if text_eq s service then add32 (count_of service m) n else count_of service m)
unfolding add_count
count_of-add_count service s n [] = ground arith
count_of-add_count service s n ((k, c) ∷ m) = ground (
  arith,
  count_of-add_count service s n m,
  text_eq_iff k s,
  text_eq_iff k service,
  text_eq_iff s service,
)

count_of-add_counts :
    (service : Text) (counts m : List (Text × ℕ))
    → count_of service m < 2 ^ 32
    → count_of service (add_counts counts m) ≡ add32 (count_of service m) (total_of service counts)
unfolding add_counts
count_of-add_counts service [] m h = ground arith
count_of-add_counts service ((s, n) ∷ counts) m h =
    ground (
      arith,
      count_of-add_count service s n m,
      count_of-add_counts service counts (add_count s n m),
    )

add_stats-count_of :
    (service : Text) (o : Option ScanStats) (m : ScanStats)
    → count_of service m.service_counts < 2 ^ 32
    → count_of service (add_stats o m).service_counts
      ≡ add32 (count_of service m.service_counts) (total_of_stats service o)
unfolding add_stats
add_stats-count_of service none m h = ground arith
add_stats-count_of service (some s) m h =
    count_of-add_counts service s.service_counts m.service_counts h

module _ {B : Type 0} (plan : Plan) (observed : Bool) where
  pub aggregate_loop-count_of :
      (service : Text) (i : ℕ) (rs : List (ScopeResult B)) (t : Totals B)
      → count_of service t.stats.service_counts < 2 ^ 32
      → count_of service (aggregate_loop plan observed i rs t).stats.service_counts
        ≡ add32 (count_of service t.stats.service_counts) (sum_by (reported service) rs)
  unfolding aggregate_loop add_scope
  aggregate_loop-count_of service i [] t h = ground arith
  aggregate_loop-count_of service i (r ∷ rs) t h = ground (
    arith,
    aggregate_loop-count_of service (suc i) rs (add_scope plan observed i r t),
    add_stats-count_of service r.stats t.stats h,
  )
