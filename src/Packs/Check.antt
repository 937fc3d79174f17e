-- ===== src/Packs/Check.antt =====
-- pkg/query/compliance/pack.go: ValidatePack. It collects the errors, and it compiles the patterns.
pub mod Valid
pub mod Forms
pub mod Queries
pub mod Parameters
pub mod Accepts
pub mod Compiled
use corkscrew.Prelude.{
  ℕ, suc, Bool, true, false, ◌&&◌, not, Option, none, some, List, [], ◌∷◌, ◌++◌, Text, codes,
  text_eq, split, if◌then◌else◌,
}
use corkscrew.Prelude.Int.{ℤ, pos, int_lt}
use corkscrew.Prelude.Float.{Float, float_lt}
use corkscrew.Packs.Types.{
  ParameterValidation, PackParameter, PackMetadata, ComplianceQuery, QueryPack,
}
use corkscrew.Packs.Distinct.{contains}
use corkscrew.Packs.Version.{is_version}

-- ValidationError, by its field, its value and its message.
pub data PackError : Type 0 where
  name_required version_required version_format provider_required namespace_format : PackError
  id_required title_required query_file_required severity_invalid : ℕ → PackError
  id_duplicate : ℕ → Text → PackError
  parameter_name_required parameter_type_invalid : ℕ → PackError
  parameter_name_duplicate : ℕ → Text → PackError
  pattern_invalid min_length_negative max_length_negative : ℕ → PackError
  lengths_crossed values_crossed : ℕ → PackError

-- The errors of the tests that hold, in their order.
abbrev pub collect : List (Bool × PackError) → List PackError
collect [] = []
collect ((found, e) ∷ rest) = if found then e ∷ collect rest else collect rest

unfoldable pub two_parts : List Text → Bool
two_parts (publisher ∷ framework ∷ []) = not (text_eq publisher []) && not (text_eq framework [])
two_parts _ = false

unfoldable pub is_valid_namespace : Text → Bool
unfolding two_parts
is_valid_namespace namespace = two_parts (split b'/' namespace)

unfoldable pub is_valid_severity : Text → Bool
is_valid_severity s =
    contains s (codes "CRITICAL" ∷ codes "HIGH" ∷ codes "MEDIUM" ∷ codes "LOW" ∷ codes "INFO" ∷ [])

unfoldable pub is_valid_parameter_type : Text → Bool
is_valid_parameter_type type =
    contains type (codes "string" ∷ codes "int" ∷ codes "bool" ∷ codes "list" ∷ codes "object" ∷ [])

-- A limit that is given, and is negative.
unfoldable pub is_negative : Option ℤ → Bool
is_negative none = false
is_negative (some n) = int_lt n (pos 0)

-- Both limits are given, and the lower one is above the upper one.
unfoldable pub are_crossed : {A : Type 0} → (A → A → Bool) → Option A → Option A → Bool
are_crossed lt (some low) (some high) = lt high low
are_crossed lt _ _ = false

abbrev pub metadata_tests : PackMetadata → List (Bool × PackError)
metadata_tests m =
    (text_eq m.name [], name_required)
    ∷ (text_eq m.version [], version_required)
    ∷ (text_eq m.provider [], provider_required)
    ∷ (not (text_eq m.version []) && not (is_version m.version), version_format)
    ∷ (not (text_eq m.namespace []) && not (is_valid_namespace m.namespace), namespace_format)
    ∷ []

unfoldable pub metadata_errors : PackMetadata → List PackError
metadata_errors m = collect (metadata_tests m)

-- The checks of one query, with its number and the ids that were seen.
abbrev pub query_tests : ℕ → List Text → ComplianceQuery → List (Bool × PackError)
query_tests i seen q =
    (text_eq q.spec.id [], id_required i)
    ∷ (contains q.spec.id seen, id_duplicate i q.spec.id)
    ∷ (text_eq q.spec.title [], title_required i)
    ∷ (text_eq q.spec.query_file [], query_file_required i)
    ∷ (not (is_valid_severity q.spec.severity), severity_invalid i)
    ∷ []

unfoldable pub query_errors : ℕ → List Text → ComplianceQuery → List PackError
query_errors i seen q = collect (query_tests i seen q)

unfoldable pub queries_errors : ℕ → List Text → List ComplianceQuery → List PackError
unfolding query_errors
queries_errors i seen [] = []
queries_errors i seen (q ∷ qs) =
    query_errors i seen q ++ queries_errors (suc i) (q.spec.id ∷ seen) qs

module _ (compiles : Text → Bool) where
  -- validateParameterValidation: its errors, and the rules with the pattern compiled.
  abbrev pub validation_tests : ℕ → ParameterValidation → List (Bool × PackError)
  validation_tests i v =
      (not (text_eq v.pattern []) && not (compiles v.pattern), pattern_invalid i)
      ∷ (is_negative v.min_length, min_length_negative i)
      ∷ (is_negative v.max_length, max_length_negative i)
      ∷ (are_crossed int_lt v.min_length v.max_length, lengths_crossed i)
      ∷ (are_crossed float_lt v.min_value v.max_value, values_crossed i)
      ∷ []

  unfoldable pub validation_errors : ℕ → ParameterValidation → List PackError
  validation_errors i v = collect (validation_tests i v)

  unfoldable pub compile_pattern : ParameterValidation → ParameterValidation
  compile_pattern v =
      if not (text_eq v.pattern []) && compiles v.pattern
      then record v { regex = some v.pattern }
      else v

  abbrev pub rules_errors : ℕ → Option ParameterValidation → List PackError
  rules_errors i none = []
  rules_errors i (some v) = validation_errors i v

  abbrev pub compile_rules : Option ParameterValidation → Option ParameterValidation
  compile_rules none = none
  compile_rules (some v) = some (compile_pattern v)

  abbrev pub parameter_tests : ℕ → List Text → PackParameter → List (Bool × PackError)
  parameter_tests i seen p =
      (text_eq p.name [], parameter_name_required i)
      ∷ (contains p.name seen, parameter_name_duplicate i p.name)
      ∷ (not (is_valid_parameter_type p.type), parameter_type_invalid i)
      ∷ []

  unfoldable pub parameter_errors : ℕ → List Text → PackParameter → List PackError
  unfolding validation_errors
  parameter_errors i seen p = collect (parameter_tests i seen p) ++ rules_errors i p.validation

  unfoldable pub parameters_errors : ℕ → List Text → List PackParameter → List PackError
  unfolding parameter_errors
  parameters_errors i seen [] = []
  parameters_errors i seen (p ∷ ps) =
      parameter_errors i seen p ++ parameters_errors (suc i) (p.name ∷ seen) ps

  abbrev pub compile_parameters : List PackParameter → List PackParameter
  compile_parameters [] = []
  compile_parameters (p ∷ ps) =
      record p { validation = compile_rules p.validation } ∷ compile_parameters ps

  -- ValidatePack: its errors, and the pack as it is after it.
  unfoldable pub validate_pack : QueryPack → List PackError × QueryPack
  unfolding metadata_errors queries_errors parameters_errors compile_pattern
  validate_pack pack = (
    metadata_errors pack.metadata
        ++ (queries_errors 0 [] pack.queries ++ parameters_errors 0 [] pack.parameters),
    record pack { parameters = compile_parameters pack.parameters },
  )
