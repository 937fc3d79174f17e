-- ===== src/Packs/Check/Valid.antt =====
-- pkg/query/compliance/pack.go: what a valid pack is.
use corkscrew.Prelude.{
  ◌≡◌, ◌≢◌, Bool, true, false, none, some, List, [], ◌∷◌, ◌++◌, Text, All, Lacks,
}
use corkscrew.Prelude.Int.{ℤ, pos, int_lt}
use corkscrew.Prelude.Float.{Float, float_lt}
use corkscrew.Packs.Types.{ParameterValidation, PackParameter, ComplianceQuery, QueryPack}
use corkscrew.Packs.Distinct.{AreDistinct}
use corkscrew.Packs.Version.{parse_version}
use corkscrew.Packs.Check.{is_valid_parameter_type}
use corkscrew.Packs.Validate.{IsQuery}

-- publisher/framework
abbrev pub IsNamespace : Text → Type 0
IsNamespace namespace =
    (publisher : Text) × (framework : Text) × (publisher ≢ [])
    × (framework ≢ [])
    × Lacks b'/' publisher
    × Lacks b'/' framework
    × (namespace ≡ publisher ++ b'/' ∷ framework)

-- The pattern is one that compiles, and the limits are in order.
pub record IsValidation (compiles : Text → Bool) (v : ParameterValidation) : Type 0 where
  pub pattern : v.pattern ≢ [] → compiles v.pattern ≡ true
  pub min_length : (n : ℤ) → v.min_length ≡ some n → int_lt n (pos 0) ≡ false
  pub max_length : (n : ℤ) → v.max_length ≡ some n → int_lt n (pos 0) ≡ false
  pub lengths :
      (low high : ℤ) → v.min_length ≡ some low → v.max_length ≡ some high → int_lt high low ≡ false
  pub values :
      (low high : Float)
      → v.min_value ≡ some low
      → v.max_value ≡ some high
      → float_lt high low ≡ false

pub record IsParameter (compiles : Text → Bool) (p : PackParameter) : Type 0 where
  pub name : p.name ≢ []
  pub type : is_valid_parameter_type p.type ≡ true
  pub rules : (v : ParameterValidation) → p.validation ≡ some v → IsValidation compiles v

abbrev pub query_ids : List ComplianceQuery → List Text
query_ids [] = []
query_ids (q ∷ qs) = q.spec.id ∷ query_ids qs

abbrev pub parameter_names : List PackParameter → List Text
parameter_names [] = []
parameter_names (p ∷ ps) = p.name ∷ parameter_names ps

pub record IsPack (compiles : Text → Bool) (pack : QueryPack) : Type 0 where
  pub name : pack.metadata.name ≢ []
  pub version : pack.metadata.version ≢ []
  pub provider : pack.metadata.provider ≢ []
  pub version_format : parse_version pack.metadata.version ≢ none
  pub namespace : pack.metadata.namespace ≢ [] → IsNamespace pack.metadata.namespace
  pub queries : All (λ q. IsQuery q.spec) pack.queries
  pub query_ids : AreDistinct (query_ids pack.queries)
  pub parameters : All (IsParameter compiles) pack.parameters
  pub parameter_names : AreDistinct (parameter_names pack.parameters)
