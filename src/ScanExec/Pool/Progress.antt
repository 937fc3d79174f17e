-- ===== src/ScanExec/Pool/Progress.antt =====
-- internal/scanexec/executor.go: dispatchScopes cannot block and ends.
use corkscrew.Prelude.{
  ℕ, ◌+◌, ◌*◌, ◌-◌, ◌<◌, ◌≡◌, refl, ◌⊎◌, inl, inr, List, [], ◌∷◌, arith, length, length-append,
  get_elem?-of_lt, Bool-cases, ltb, ltb→lt,
}
use corkscrew.ScanExec.Types.{ScopeResult, Plan}
use corkscrew.ScanExec.Pool.{Pool, Step, announce, take_job, finish, Reach, next, IsFinished}
use corkscrew.ScanExec.Pool.Invariant.{IsSound, Reach-IsSound}

-- How many steps are still to be made.
abbrev pub remaining {ℓ} : {B : Type ℓ} → Plan → Pool B → ℕ
remaining plan p = 3 * length plan.scopes - (p.announced + p.taken + length p.results)

module _ {ℓ} {B : Type ℓ} (plan : Plan) (concurrency : ℕ) (scan : ℕ → ScopeResult B) where
  remaining-Step :
      {p q : Pool B}
      → IsSound plan concurrency scan p
      → Step plan concurrency scan p q
      → IsSound plan concurrency scan q
      → remaining plan q + 1 ≡ remaining plan p
  remaining-Step s (announce scope e there) t = omega (arith, s.order, t.in_plan, s.accounted)
  remaining-Step s (take_job room idle) t = omega (arith, s.in_plan, s.accounted)
  remaining-Step {p} s (finish before index after e) t = omega (
    arith,
    s.order,
    s.in_plan,
    t.accounted,
    length-append p.results (record { index = index; result = scan index } ∷ []),
  )

  -- Every step of a run lowers by one the number of steps that remain, which is three for each
  -- scope of the plan, less the announcements, the jobs taken and the results so far.
  pub Step-decreases :
      {p q : Pool B}
      → Reach plan concurrency scan p
      → Step plan concurrency scan p q
      → remaining plan q + 1 ≡ remaining plan p
  Step-decreases r st =
      let s = Reach-IsSound plan concurrency scan r in
      remaining-Step s st (Reach-IsSound plan concurrency scan (next r st))

  abbrev CanGoOn : Pool B → Type ℓ
  CanGoOn p = IsFinished plan p ⊎ ((q : Pool B) × Step plan concurrency scan p q)

  idle_or_step :
      (p : Pool B) → 0 < concurrency → IsSound plan concurrency scan p → p.running ≡ [] → CanGoOn p
  idle_or_step p pos s idle = elim (Bool-cases (ltb p.taken p.announced)) [
    | inl waiting ↦ inr (_, take_job (ltb→lt _ _ waiting) (rw idle pos))
    | inr none_waiting ↦ elim (Bool-cases (ltb p.announced (length plan.scopes))) [
      | inl more ↦
          let (scope, there) = get_elem?-of_lt plan.scopes p.announced (ltb→lt _ _ more) in
          inr (_, announce scope (ground (arith, s.order)) there)
      | inr all ↦
          inl (record { all_taken = ground (arith, s.order, s.in_plan); none_running = idle })
    ]
  ]

  finished_or_step :
      (p : Pool B) (running : List ℕ)
      → p.running ≡ running
      → 0 < concurrency
      → IsSound plan concurrency scan p
      → CanGoOn p
  finished_or_step p [] e pos s = idle_or_step p pos s e
  finished_or_step p (index ∷ after) e pos s = inr (_, finish [] index after e)

  -- With at least one worker the pool never blocks: each state that a run reaches is finished or
  -- has a next step.
  pub Reach-no_deadlock :
      {p : Pool B}
      → 0 < concurrency
      → Reach plan concurrency scan p
      → IsFinished plan p ⊎ ((q : Pool B) × Step plan concurrency scan p q)
  Reach-no_deadlock {p} pos r =
      finished_or_step p p.running refl pos (Reach-IsSound plan concurrency scan r)
