-- ===== src/ScanExec/Scope.antt =====
-- internal/scanexec/executor.go: scanScope.
use corkscrew.Prelude.{ℕ, ◌%◌, ◌^◌, ◌≡◌, refl, true, false, none, [], ◌∷◌, Text, codes}
use corkscrew.ScanErrors.{split_scan_errors}
use corkscrew.ScanExec.Types.{
  Answer, Scanner, failed, no_response, response, BatchScanRequest, Plan, ScopeResult, has_errors,
}

unfoldable pub scope_request : Plan → Text → ℕ → BatchScanRequest
scope_request plan scope concurrency = record {
  services = plan.services;
  region = scope;
  filters = plan.filters;
  include_relationships = plan.include_relationships;
  concurrency = concurrency % 2 ^ 32;
}

-- The result of a scope, from what the scanner answered.
unfoldable pub scope_result {ℓ} : {B : Type ℓ} → Text → Answer B → ScopeResult B
scope_result scope (failed e) = record {
  scope = scope;
  resources = [];
  stats = none;
  errors = e ∷ [];
  notices = [];
  unreachable = true;
}
scope_result scope no_response = record {
  scope = scope;
  resources = [];
  stats = none;
  errors = codes "provider returned an empty scan response" ∷ [];
  notices = [];
  unreachable = true;
}
scope_result scope (response r) = record {
  scope = scope;
  resources = r.resources;
  stats = r.stats;
  errors = (split_scan_errors r.errors).errs;
  notices = (split_scan_errors r.errors).notices;
  unreachable = false;
}

scope-scope_result {ℓ} :
    {B : Type ℓ} (scope : Text) (a : Answer B) → (scope_result scope a).scope ≡ scope
unfolding scope_result
scope-scope_result scope (failed e) = refl
scope-scope_result scope no_response = refl
scope-scope_result scope (response r) = refl

unreachable-errors {ℓ} :
    {B : Type ℓ} (scope : Text) (a : Answer B)
    → (scope_result scope a).unreachable ≡ true
    → has_errors (scope_result scope a) ≡ true
unfolding scope_result
unreachable-errors scope (failed e) h = refl
unreachable-errors scope no_response h = refl
unreachable-errors scope (response r) h = cc

-- The scope with number `index` is scanned by one call of the scanner.
unfoldable pub scan_scope {ℓ} : {B : Type ℓ} → Scanner B → Plan → ℕ → Text → ℕ → ℕ → ScopeResult B
unfolding scope_request scope_result
scan_scope scanner plan index scope concurrency timeout =
    scope_result scope (scanner index timeout (scope_request plan scope concurrency))

pub scope-scan_scope {ℓ} :
    {B : Type ℓ} (scanner : Scanner B) (plan : Plan) (index : ℕ) (scope : Text) (n timeout : ℕ)
    → (scan_scope scanner plan index scope n timeout).scope ≡ scope
unfolding scan_scope
scope-scan_scope scanner plan index scope n timeout =
    scope-scope_result scope (scanner index timeout _)

-- A scope without a response always has an error, so it can never count as fully observed.
pub unreachable-has_errors {ℓ} :
    {B : Type ℓ} (scanner : Scanner B) (plan : Plan) (index : ℕ) (scope : Text) (n timeout : ℕ)
    → (scan_scope scanner plan index scope n timeout).unreachable ≡ true
    → has_errors (scan_scope scanner plan index scope n timeout) ≡ true
unfolding scan_scope
unreachable-has_errors scanner plan index scope n timeout =
    unreachable-errors scope (scanner index timeout _)
