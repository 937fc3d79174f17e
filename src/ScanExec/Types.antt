-- ===== src/ScanExec/Types.antt =====
-- internal/scanexec/executor.go: plans, provider responses, scope results and outcomes. Durations
-- are left out: nothing is decided by them.
use corkscrew.Prelude.{ℕ, ◌+◌, ◌%◌, ◌^◌, Bool, true, false, Option, List, [], ◌∷◌, Text}
use corkscrew.Prelude.Int.{ℤ}

-- An int32 or an int64 stands as its bit pattern; a sum wraps.
abbrev pub add32 : ℕ → ℕ → ℕ
add32 a b = (a + b) % 2 ^ 32

abbrev pub add64 : ℕ → ℕ → ℕ
add64 a b = (a + b) % 2 ^ 64

-- pb.Resource: the fields that identify it, and all the others as `body`.
pub record Resource {ℓ} (B : Type ℓ) : Type ℓ where
  pub provider : Text
  pub account_id : Text
  pub type_name : Text
  pub id : Text
  pub body : B

-- pb.ScanStats, with the map of counts as a list of its entries.
pub record ScanStats : Type 0 where
  pub total_resources : ℕ
  pub failed_resources : ℕ
  pub duration_ms : ℕ
  pub service_counts : List (Text × ℕ)

-- pb.BatchScanResponse; a nil pointer is `none`.
pub record BatchScanResponse {ℓ} (B : Type ℓ) : Type ℓ where
  pub resources : List (Option (Resource B))
  pub stats : Option ScanStats
  pub errors : List Text

pub record BatchScanRequest : Type 0 where
  pub services : List Text
  pub region : Text
  pub filters : List (Text × Text)
  pub include_relationships : Bool
  pub concurrency : ℕ

-- What a BatchScan call returns: an error, a nil response, or a response.
pub data Answer {ℓ} (B : Type ℓ) : Type ℓ where
  failed : Text → Answer B
  no_response : Answer B
  response : BatchScanResponse B → Answer B

-- The provider, as it answers the call made for the scope with the given number: what is left out
-- of the request is the deadline of its context.
abbrev pub Scanner {ℓ} : Type ℓ → Type ℓ
Scanner B = ℕ → ℕ → BatchScanRequest → Answer B

pub record Plan : Type 0 where
  pub provider : Text
  pub scopes : List Text
  pub services : List Text
  pub filters : List (Text × Text)
  pub include_relationships : Bool
  pub max_concurrency : ℤ
  pub scope_timeout : ℤ

pub data Status : Type 0 where
  complete partial failed : Status

pub record ScopeResult {ℓ} (B : Type ℓ) : Type ℓ where
  pub scope : Text
  pub resources : List (Option (Resource B))
  pub stats : Option ScanStats
  pub errors : List Text
  pub notices : List Text
  pub unreachable : Bool

-- len(result.Errors) > 0
abbrev pub has_errors {ℓ} : {B : Type ℓ} → ScopeResult B → Bool
has_errors r = elim r.errors [ [] ↦ false | _ ∷ _ ↦ true ]

pub record Indexed {ℓ} (B : Type ℓ) : Type ℓ where
  pub index : ℕ
  pub result : ScopeResult B

pub record Outcome {ℓ} (B : Type ℓ) : Type ℓ where
  pub status : Status
  pub resources : List (Option (Resource B))
  pub scopes : List (ScopeResult B)
  pub stats : Option ScanStats

pub data EventKind : Type 0 where
  scope_started scope_completed scope_failed : EventKind

pub record Event : Type 0 where
  pub kind : EventKind
  pub provider : Text
  pub scope : Text
  pub completed : ℕ
  pub total : ℕ
  pub message : Text

pub data ScanError : Type 0 where
  scanner_required no_scopes : ScanError
  context_error : Text → ScanError
  partial_error : List Text → ScanError
