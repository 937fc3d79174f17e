-- ===== src/ScanExec/Pool/Invariant.antt =====
-- internal/scanexec/executor.go: what every interleaving of dispatchScopes keeps.
use corkscrew.Prelude.{
  ℕ, suc, ◌+◌, ◌≤◌, ◌≡◌, refl, List, [], ◌∷◌, ◌++◌, arith, length, length-append, lt_of_get_elem?,
  take, take-suc, map, ap, ◌∙◌, All, All-append, sum_by, sum_by-append, ltb, ◌==◌, if◌then◌else◌,
}
use mathlib.Core.List.{map-append}
use corkscrew.ScanExec.Types.{Indexed, ScopeResult, Plan}
use corkscrew.ScanExec.Pool.{
  Pool, start, start_event, Step, announce, take_job, finish, Reach, here, next,
}

-- How often `i` occurs among job numbers, and among the numbers of results.
abbrev pub jobs_of : ℕ → List ℕ → ℕ
jobs_of i = sum_by (λ j. if j == i then 1 else 0)

abbrev pub results_of {ℓ} : {B : Type ℓ} → ℕ → List (Indexed B) → ℕ
results_of i = sum_by (λ r. if r.index == i then 1 else 0)

length_middle :
    (running before after : List ℕ) (index : ℕ)
    → running ≡ before ++ index ∷ after
    → length running ≡ suc (length before + length after)
length_middle running before after index e =
    rw e (omega (arith, length-append before (index ∷ after)))

jobs_middle :
    (i : ℕ) (running before after : List ℕ) (index : ℕ)
    → running ≡ before ++ index ∷ after
    → jobs_of i running ≡ jobs_of i (before ++ after) + (if index == i then 1 else 0)
jobs_middle i running before after index e = rw e (
    omega (
      arith,
      sum_by-append (λ j. if j == i then 1 else 0) before (index ∷ after),
      sum_by-append (λ j. if j == i then 1 else 0) before after,
    ))

module _ {ℓ} {B : Type ℓ} (plan : Plan) (concurrency : ℕ) (scan : ℕ → ScopeResult B) where
  -- Every job that was taken is in work or has one result, which is the scan of its own scope.
  pub record IsSound (p : Pool B) : Type ℓ where
    pub order : p.taken ≤ p.announced
    pub in_plan : p.announced ≤ length plan.scopes
    pub one_ahead : p.announced ≤ suc p.taken
    pub bounded : length p.running ≤ concurrency
    pub accounted : length p.running + length p.results ≡ p.taken
    pub once :
        (i : ℕ) → jobs_of i p.running + results_of i p.results ≡ (if ltb i p.taken then 1 else 0)
    pub reported : p.events ≡ map (start_event plan) (take p.announced plan.scopes)
    pub filed : All (λ r. r.result ≡ scan r.index) p.results

  start-IsSound : IsSound start
  unfolding start
  start-IsSound = record {
    order = omega arith;
    in_plan = omega arith;
    one_ahead = omega arith;
    bounded = omega arith;
    accounted = omega arith;
    once = λ i. ground arith;
    reported = refl;
    filed = tt;
  }

  pub Step-IsSound : {p q : Pool B} → Step plan concurrency scan p q → IsSound p → IsSound q
  Step-IsSound {p} (announce scope e there) s = record {
    order = omega (arith, s.order);
    in_plan = lt_of_get_elem? plan.scopes p.announced there;
    one_ahead = omega arith;
    bounded = s.bounded;
    accounted = s.accounted;
    once = s.once;
    reported =
        ap (λ l. l ++ start_event plan scope ∷ []) s.reported
        ∙ (rw (take-suc plan.scopes p.announced scope there, map-append));
    filed = s.filed;
  }
  Step-IsSound {p} (take_job room idle) s = record {
    order = omega arith;
    in_plan = s.in_plan;
    one_ahead = omega (arith, s.one_ahead);
    bounded = omega (arith, length-append p.running (p.taken ∷ []));
    accounted = omega (arith, length-append p.running (p.taken ∷ []), s.accounted);
    once = λ i.
        ground
          (arith, sum_by-append (λ j. if j == i then 1 else 0) p.running (p.taken ∷ []), s.once i);
    reported = s.reported;
    filed = s.filed;
  }
  Step-IsSound {p} (finish before index after e) s = record {
    order = s.order;
    in_plan = s.in_plan;
    one_ahead = s.one_ahead;
    bounded = omega (
      arith,
      length_middle p.running before after index e,
      s.bounded,
      length-append before after,
    );
    accounted = omega (
      arith,
      length_middle p.running before after index e,
      s.accounted,
      length-append before after,
      length-append p.results (record { index = index; result = scan index } ∷ []),
    );
    once = λ i. omega (
      arith,
      jobs_middle i p.running before after index e,
      s.once i,
      sum_by-append (λ r. if r.index == i then 1 else 0) p.results
          (record { index = index; result = scan index } ∷ []),
    );
    reported = s.reported;
    filed = All-append _ p.results _ s.filed (refl, tt);
  }

  -- Whatever the interleaving, no more than `concurrency` scopes are ever in work at once; scopes
  -- are announced to the observer in the order of the plan and at most one ahead of the workers,
  -- each that was taken is in work or has exactly one result, and the result filed under a number
  -- is the scan of that number.
  pub Reach-IsSound : {p : Pool B} → Reach plan concurrency scan p → IsSound p
  Reach-IsSound here = start-IsSound
  Reach-IsSound (next r s) = Step-IsSound s (Reach-IsSound r)
