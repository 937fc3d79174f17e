-- ===== src/ScanExec/Pool.antt =====
-- internal/scanexec/executor.go: dispatchScopes, as the steps that its goroutines may take. The
-- dispatcher announces a scope and hands it to a worker that is free; a worker sends its result.
pub mod Invariant
pub mod Progress
use corkscrew.Prelude.{
  ℕ, zero, suc, ◌+◌, ◌<◌, ◌≡◌, Option, some, List, [], ◌∷◌, ◌++◌, length, get_elem?, Text,
}
use corkscrew.ScanExec.Types.{Indexed, ScopeResult, Event, scope_started, Plan}

-- `announced` scopes have had their start event, `taken` of them have gone to the workers,
-- `running` are in work, `results` is what the channel has received, and `events` what
-- has been reported to the observer, if there is one.
pub record Pool {ℓ} (B : Type ℓ) : Type ℓ where
  pub announced : ℕ
  pub taken : ℕ
  pub running : List ℕ
  pub results : List (Indexed B)
  pub events : List Event

unfoldable pub start {ℓ} : {B : Type ℓ} → Pool B
start = record { announced = 0; taken = 0; running = []; results = []; events = [] }

unfoldable pub start_event : Plan → Text → Event
start_event plan scope = record {
  kind = scope_started;
  provider = plan.provider;
  scope = scope;
  completed = 0;
  total = length plan.scopes;
  message = [];
}

-- The channel is closed: every job has been dispatched and every worker has finished.
pub record IsFinished {ℓ} {B : Type ℓ} (plan : Plan) (p : Pool B) : Type 0 where
  pub all_taken : p.taken ≡ length plan.scopes
  pub none_running : p.running ≡ []

module _ {ℓ} {B : Type ℓ} (plan : Plan) (concurrency : ℕ) (scan : ℕ → ScopeResult B) where
  pub data Step (p : Pool B) : Pool B → Type ℓ where
    -- The dispatcher reports the next scope, once the one before is with a worker.
    announce :
        (scope : Text)
        → p.announced ≡ p.taken
        → get_elem? plan.scopes p.announced ≡ some scope
        → Step p (record p {
          announced = suc p.announced;
          events = p.events ++ start_event plan scope ∷ [];
        })
    -- A worker that is free takes the announced job from the unbuffered channel.
    take_job :
        p.taken < p.announced
        → length p.running < concurrency
        → Step p (record p { taken = suc p.taken; running = p.running ++ p.taken ∷ [] })
    -- A worker has scanned its scope, and sends the result.
    finish :
        (before : List ℕ) (index : ℕ) (after : List ℕ)
        → p.running ≡ before ++ index ∷ after
        → Step p (record p {
          running = before ++ after;
          results = p.results ++ record { index = index; result = scan index } ∷ [];
        })

  pub data Reach : Pool B → Type ℓ where
    here : Reach start
    next : {p q : Pool B} → Reach p → Step p q → Reach q
