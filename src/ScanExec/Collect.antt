-- ===== src/ScanExec/Collect.antt =====
-- internal/scanexec/executor.go: collectScopeResults.
use corkscrew.Prelude.{
  ℕ, suc, ◌+◌, ◌≤◌, ◌<◌, ◌≡◌, refl, ◌∙◌, inl, inr, true, false, none, some, List, [], ◌∷◌, arith,
  Text, text_eq, text_eq_refl, length, get_elem?, set, All, replicate, length-replicate, tabulate,
  eq-tabulate, length-set, get_elem?-set_self, get_elem?-set_ne, ltb, ◌==◌, if◌then◌else◌, Run,
  done, panic, assert_that, ◌>>=◌, ◌>>◌, lt→ltb, ltb→lt, ap, ==_iff, Bool-cases,
}
use corkscrew.ScanExec.Types.{Indexed, ScopeResult, Plan}
use corkscrew.ScanExec.Pool.{Pool, Reach, IsFinished}
use corkscrew.ScanExec.Pool.Invariant.{jobs_of, results_of, Reach-IsSound}

-- The zero value that `make` fills the slice with.
abbrev zero_result {ℓ} : {B : Type ℓ} → ScopeResult B
zero_result = record {
  scope = [];
  resources = [];
  stats = none;
  errors = [];
  notices = [];
  unreachable = false;
}

module _ {ℓ} {B : Type ℓ} where
  -- The loop over the channel: the slice and the count of what was received.
  collect_loop : ℕ → List (Indexed B) → List (ScopeResult B) → ℕ → Run (List (ScopeResult B) × ℕ)
  collect_loop n [] collected received = done (collected, received)
  collect_loop n (r ∷ rs) collected received =
      assert_that (ltb r.index n)
      >> collect_loop n rs (set collected r.index r.result) (received + 1)

  -- The loop over the slice: `scopes[index]` is out of range only if the lengths differ.
  check_filed : List (ScopeResult B) → List Text → Run (Unit {0})
  check_filed [] scopes = done tt
  check_filed (r ∷ rs) [] = panic
  check_filed (r ∷ rs) (scope ∷ scopes) =
      assert_that (text_eq r.scope scope) >> check_filed rs scopes

  unfoldable pub collect_scope_results : List (Indexed B) → List Text → Run (List (ScopeResult B))
  unfolding collect_loop check_filed
  collect_scope_results results scopes = do
    (collected, received) ←
        collect_loop (length scopes) results (replicate (length scopes) zero_result) 0
    assert_that (received == length scopes)
    check_filed collected scopes
    done collected

  module _ (scan : ℕ → ScopeResult B) where
    -- What the loop makes of the results that are left.
    record IsCollected (rs : List (Indexed B)) (old new : List (ScopeResult B)) : Type ℓ where
      same_length : length new ≡ length old
      placed : (i : ℕ) → 0 < results_of i rs → get_elem? new i ≡ some (scan i)
      others : (i : ℕ) → results_of i rs ≡ 0 → get_elem? new i ≡ get_elem? old i

    placed-cons :
        (i : ℕ) (r : Indexed B) (rs : List (Indexed B)) (old new : List (ScopeResult B))
        → r.index < length old
        → r.result ≡ scan r.index
        → IsCollected rs (set old r.index r.result) new
        → 0 < results_of i (r ∷ rs)
        → get_elem? new i ≡ some (scan i)
    placed-cons i r rs old new b f c p = elim (Bool-cases (ltb 0 (results_of i rs))) [
      | inl later ↦ c.placed i (ltb→lt 0 (results_of i rs) later)
      | inr last ↦
          let same : r.index ≡ i = ground arith in
          let kept : get_elem? new i ≡ get_elem? (set old r.index r.result) i =
            c.others i (ground arith) in
          let written : get_elem? (set old r.index r.result) r.index ≡ some r.result =
            get_elem?-set_self old r.index r.result b in
          cc (kept, written, same, f)
    ]

    IsCollected-cons :
        (r : Indexed B) (rs : List (Indexed B)) (old new : List (ScopeResult B))
        → r.index < length old
        → r.result ≡ scan r.index
        → IsCollected rs (set old r.index r.result) new
        → IsCollected (r ∷ rs) old new
    IsCollected-cons r rs old new b f c = record {
      same_length = c.same_length ∙ length-set old r.index r.result;
      placed = λ i p. placed-cons i r rs old new b f c p;
      others = λ i p.
          c.others i (omega (arith, p))
          ∙ get_elem?-set_ne old r.index i r.result (λ same. ground arith);
    }

    collect_loop-IsCollected :
        (n : ℕ) (rs : List (Indexed B)) (old : List (ScopeResult B)) (k : ℕ)
        → length old ≡ n
        → All (λ r. r.index < n) rs
        → All (λ r. r.result ≡ scan r.index) rs
        → (new : List (ScopeResult B)) × (collect_loop n rs old k ≡ done (new, k + length rs))
          × IsCollected rs old new
    unfolding collect_loop
    collect_loop-IsCollected n [] old k e h f =
        let sum : k ≡ k + 0 = omega arith in
        (
          old,
          ap (λ t. done (old, t)) sum,
          record { same_length = refl; placed = λ i p. absurd (omega arith); others = λ i p. refl },
        )
    collect_loop-IsCollected n (r ∷ rs) old k e h f =
        let (new, ran, c) =
          collect_loop-IsCollected n rs (set old r.index r.result) (k + 1)
            (omega (arith, length-set old r.index r.result)) h.1 f.1 in
        let sum : k + 1 + length rs ≡ k + suc (length rs) = omega arith in
        (
          new,
          rw (lt→ltb r.index n h.0) (ran ∙ ap (λ t. done (new, t)) sum),
          IsCollected-cons r rs old new (omega (arith, h.0)) f.0 c,
        )

  in_range :
      (n : ℕ) (rs : List (Indexed B))
      → ((i : ℕ) → n ≤ i → results_of i rs ≡ 0)
      → All (λ r. r.index < n) rs
  in_range n [] h = tt
  in_range n (r ∷ rs) h = (ground (arith, h r.index), in_range n rs (λ i b. omega (arith, h i b)))

  check_filed-tabulate :
      (scan : ℕ → ScopeResult B) (k : ℕ) (scopes : List Text)
      → ((i : ℕ) (scope : Text) → get_elem? scopes i ≡ some scope → (scan (i + k)).scope ≡ scope)
      → check_filed (tabulate scan k (length scopes)) scopes ≡ done tt
  unfolding check_filed
  check_filed-tabulate scan k [] h = refl
  check_filed-tabulate scan k (scope ∷ scopes) h =
      let zeroth : 0 + k ≡ k = omega arith in
      let named : (scan k).scope ≡ scope = rw zeroth at (h 0 scope refl) in
      rw (named, text_eq_refl)
        (check_filed-tabulate scan (suc k) scopes
          (λ i t e. let shift : i + suc k ≡ suc i + k = omega arith in rw shift (h (suc i) t e)))

-- If the scan of each number names the scope with this number: once every worker has finished,
-- whatever the interleaving was, no assertion fails and the collected slice has the scan of each
-- scope, in the order of the plan.
pub collect-in_order :
    {B : Type 0} (plan : Plan) (concurrency : ℕ) (scan : ℕ → ScopeResult B) {p : Pool B}
    → ((i : ℕ) (scope : Text) → get_elem? plan.scopes i ≡ some scope → (scan i).scope ≡ scope)
    → Reach plan concurrency scan p
    → IsFinished plan p
    → collect_scope_results p.results plan.scopes ≡ done (tabulate scan 0 (length plan.scopes))
unfolding collect_scope_results
collect-in_order plan concurrency scan {p} named r finished =
    let s = Reach-IsSound plan concurrency scan r in
    let n = length plan.scopes in
    let once : (i : ℕ) → results_of i p.results ≡ (if ltb i n then 1 else 0) = λ i.
      ground (arith, s.once i, finished.all_taken, ap (λ l. jobs_of i l) finished.none_running) in
    let received : length p.results ≡ n =
      omega (arith, s.accounted, finished.all_taken, ap (λ l. length l) finished.none_running) in
    let (new, ran, c) =
      collect_loop-IsCollected scan n p.results (replicate n zero_result) 0
        (length-replicate n zero_result) (in_range n p.results (λ i b. ground (arith, once i)))
        s.filed in
    let in_order : new ≡ tabulate scan 0 n =
      eq-tabulate scan new 0 n (c.same_length ∙ length-replicate n zero_result) (λ i b.
        let shift : i + 0 ≡ i = omega arith in rw shift (c.placed i (ground (arith, once i)))) in
    let counted : (0 + length p.results == n) ≡ true =
      (==_iff (0 + length p.results) n).1 (omega (arith, received)) in
    let checked : check_filed (tabulate scan 0 n) plan.scopes ≡ done tt =
      check_filed-tabulate scan 0 plan.scopes
        (λ i t e. let shift : i + 0 ≡ i = omega arith in rw shift (named i t e)) in
    rw (ran, in_order, counted, checked)
