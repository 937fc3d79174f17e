-- ===== src/ScanExec/Aggregate/Merged.antt =====
-- internal/scanexec/executor.go: what aggregateScopes returns, as functions of all the scopes.
use corkscrew.Prelude.{
  ℕ, suc, ◌+◌, ◌%◌, ◌^◌, ◌≤◌, ◌≡◌, refl, ap, ◌∙◌, sym, inl, inr, Bool, true, Option, List, [], ◌∷◌,
  ◌++◌, append_assoc, append-nil, arith, Text, length, length-append, sum_by, All, done,
  if◌then◌else◌, Bool-cases, leb, ◌==◌, ==_iff, le→leb,
}
use corkscrew.ScanExec.Types.{Resource, ScopeResult, has_errors, Plan, Event, add32}
use corkscrew.ScanExec.Dedupe.{dedupe_resources}
use corkscrew.ScanExec.Dedupe.First.{length-dedupe_resources}
use corkscrew.ScanExec.Aggregate.{
  Totals, no_totals, end_event, add_scope, aggregate_loop, aggregate_scopes, keep_first,
}
use corkscrew.ScanExec.Aggregate.Counts.{count_of, reported, aggregate_loop-count_of}

module _ {ℓ} {B : Type ℓ} where
  abbrev pub all_resources : List (ScopeResult B) → List (Option (Resource B))
  all_resources [] = []
  all_resources (r ∷ rs) = r.resources ++ all_resources rs

  -- The names of the scopes with an error, in order.
  abbrev pub failed_scopes : List (ScopeResult B) → List Text
  failed_scopes [] = []
  failed_scopes (r ∷ rs) = if has_errors r then r.scope ∷ failed_scopes rs else failed_scopes rs

  abbrev pub unreachable_count : List (ScopeResult B) → ℕ
  unreachable_count [] = 0
  unreachable_count (r ∷ rs) = (if r.unreachable then 1 else 0) + unreachable_count rs

  abbrev pub end_events : Plan → ℕ → List (ScopeResult B) → List Event
  end_events plan i [] = []
  end_events plan i (r ∷ rs) = end_event plan i r ∷ end_events plan (suc i) rs

  -- A scope that was not reached has an error.
  abbrev pub HasReason : ScopeResult B → Type 0
  HasReason r = r.unreachable ≡ true → has_errors r ≡ true

module _ {B : Type 0} (plan : Plan) (observed : Bool) where
  loop-resources :
      (i : ℕ) (rs : List (ScopeResult B)) (t : Totals B)
      → (aggregate_loop plan observed i rs t).resources ≡ t.resources ++ all_resources rs
  unfolding aggregate_loop add_scope
  loop-resources i [] t = sym (append-nil t.resources)
  loop-resources i (r ∷ rs) t =
      loop-resources (suc i) rs (add_scope plan observed i r t)
      ∙ append_assoc t.resources r.resources (all_resources rs)

  loop-failed :
      (i : ℕ) (rs : List (ScopeResult B)) (t : Totals B)
      → (aggregate_loop plan observed i rs t).failed ≡ t.failed ++ failed_scopes rs
  unfolding aggregate_loop add_scope
  loop-failed i [] t = sym (append-nil t.failed)
  loop-failed i (r ∷ rs) t = elim (Bool-cases (has_errors r)) [
    | inl e ↦ loop-failed (suc i) rs (add_scope plan observed i r t) ∙ (rw (e, append_assoc))
    | inr e ↦ loop-failed (suc i) rs (add_scope plan observed i r t) ∙ (rw e)
  ]

  loop-unreachable :
      (i : ℕ) (rs : List (ScopeResult B)) (t : Totals B)
      → (aggregate_loop plan observed i rs t).unreachable ≡ t.unreachable + unreachable_count rs
  unfolding aggregate_loop add_scope
  loop-unreachable i [] t = omega arith
  loop-unreachable i (r ∷ rs) t =
      loop-unreachable (suc i) rs (add_scope plan observed i r t) ∙ ground arith

  loop-events :
      (i : ℕ) (rs : List (ScopeResult B)) (t : Totals B)
      → (aggregate_loop plan observed i rs t).events
        ≡ (if observed then t.events ++ end_events plan i rs else t.events)
  unfolding aggregate_loop add_scope
  loop-events i [] t = elim (Bool-cases observed) [
    | inl e ↦ rw e (sym (append-nil t.events))
    | inr e ↦ rw e
  ]
  loop-events i (r ∷ rs) t = elim (Bool-cases observed) [
    | inl e ↦ loop-events (suc i) rs (add_scope plan observed i r t) ∙ (rw (e, append_assoc))
    | inr e ↦ loop-events (suc i) rs (add_scope plan observed i r t) ∙ (rw e)
  ]

length-all_resources :
    {B : Type 0} (rs : List (ScopeResult B))
    → sum_by (λ r. length r.resources) rs ≡ length (all_resources rs)
length-all_resources [] = refl
length-all_resources (r ∷ rs) =
    omega (arith, length-append r.resources (all_resources rs), length-all_resources rs)

unreachable-le-failed :
    {B : Type 0} (rs : List (ScopeResult B))
    → All HasReason rs
    → unreachable_count rs ≤ length (failed_scopes rs)
unreachable-le-failed [] h = omega arith
unreachable-le-failed (r ∷ rs) h = ground (arith, unreachable-le-failed rs h.1, h.0)

-- What aggregateScopes makes of the scopes.
pub record IsMerged {B : Type 0} (plan : Plan) (observed : Bool) (scopes : List (ScopeResult B))
    (t : Totals B) : Type 0 where
  pub resources : t.resources ≡ dedupe_resources (all_resources scopes)
  pub total : t.stats.total_resources ≡ length t.resources % 2 ^ 32
  pub counts :
      (service : Text)
      → count_of service t.stats.service_counts ≡ sum_by (reported service) scopes % 2 ^ 32
  pub failed : t.failed ≡ failed_scopes scopes
  pub unreachable : t.unreachable ≡ unreachable_count scopes
  pub events : t.events ≡ (if observed then end_events plan 0 scopes else [])

-- If every scope that was not reached has an error, no assertion fails, and the totals are: the
-- scopes' resources in the order of the plan, deduplicated; their number; for each service the sum
-- of what the scopes report, as an int32; the names of the scopes with an error, in order; how
-- many were not reached; and one event for each scope, if there is an observer.
pub aggregate-IsMerged :
    {B : Type 0} (plan : Plan) (observed : Bool) (scopes : List (ScopeResult B))
    → All HasReason scopes
    → (t : Totals B) × (aggregate_scopes plan observed scopes ≡ done t)
      × IsMerged plan observed scopes t
unfolding aggregate_scopes
aggregate-IsMerged {B} plan observed scopes reasons =
    let t = aggregate_loop plan observed 0 scopes no_totals in
    let same : t.resources ≡ all_resources scopes =
      loop-resources plan observed 0 scopes no_totals in
    let merged : (sum_by (λ r. length r.resources) scopes == length t.resources) ≡ true =
      (==_iff _ _).1 (length-all_resources scopes ∙ ap (λ l. length l) (sym same)) in
    let fewer : leb (length (dedupe_resources t.resources)) (length t.resources) ≡ true =
      le→leb _ _ (length-dedupe_resources t.resources) in
    let reasoned : leb t.unreachable (length t.failed) ≡ true = le→leb _ _ (
      omega (
        arith,
        loop-unreachable plan observed 0 scopes no_totals,
        unreachable-le-failed scopes reasons,
        ap (λ l. length l) (loop-failed plan observed 0 scopes no_totals),
      )) in
    let zeroth : 0 + unreachable_count scopes ≡ unreachable_count scopes = omega arith in
    let summed : (s : ℕ) → add32 0 s ≡ s % 2 ^ 32 = λ s. omega arith in
    (
      keep_first plan observed t,
      rw (merged, fewer, reasoned),
      record {
        resources = ap dedupe_resources same;
        total = refl;
        counts = λ service.
            aggregate_loop-count_of plan observed service 0 scopes no_totals (omega arith)
            ∙ summed _;
        failed = loop-failed plan observed 0 scopes no_totals;
        unreachable = loop-unreachable plan observed 0 scopes no_totals ∙ zeroth;
        events = loop-events plan observed 0 scopes no_totals;
      },
    )
