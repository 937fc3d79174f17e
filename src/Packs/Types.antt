-- ===== src/Packs/Types.antt =====
-- pkg/query/compliance/loader.go: manifests, packs and the state of the loader. The fields that the
-- loader only copies are `body`.
use corkscrew.Prelude.Int.{ℤ}
use corkscrew.Prelude.Float.{Float}
use corkscrew.Prelude.{ℕ, Bool, Option, List, Text}

pub record PackDependency : Type 0 where
  pub name : Text
  pub namespace : Text
  pub version : Text
  pub required : Bool

-- A value of type interface{}, by its dynamic type. `list` and `object` are []interface{} and
-- map[string]interface{}, and their number stands for what is in them. The number of `other` stands
-- for any other type that can be compared, together with the value; `uncomparable` has a number for
-- any other type that cannot, such as map[interface{}]interface{}, and one for the value.
pub data Value : Type 0 where
  nil : Value
  text : Text → Value
  int int32 int64 : ℤ → Value
  float : Float → Value
  bool : Bool → Value
  list object other : ℕ → Value
  uncomparable : ℕ → ℕ → Value

-- `regex` is the pattern that is compiled, if one is.
pub record ParameterValidation : Type 0 where
  pub min_length : Option ℤ
  pub max_length : Option ℤ
  pub pattern : Text
  pub min_value : Option Float
  pub max_value : Option Float
  pub regex : Option Text

pub record PackParameter : Type 0 where
  pub name : Text
  pub type : Text
  pub required : Bool
  pub validation : Option ParameterValidation
  pub enum_values : List Value
  pub body : ℕ

pub record QuerySpec : Type 0 where
  pub id : Text
  pub title : Text
  pub severity : Text
  pub query_file : Text
  pub body : ℕ

pub record PackMetadata : Type 0 where
  pub name : Text
  pub namespace : Text
  pub version : Text
  pub provider : Text
  pub body : ℕ

pub record PackManifest : Type 0 where
  pub api_version : Text
  pub kind : Text
  pub metadata : PackMetadata
  pub queries : List QuerySpec
  pub parameters : List PackParameter
  pub includes : List Text
  pub depends_on : List PackDependency
  pub loaded_from : Text

pub record ComplianceQuery : Type 0 where
  pub spec : QuerySpec
  pub sql : Text

pub record QueryPack : Type 0 where
  pub metadata : PackMetadata
  pub queries : List ComplianceQuery
  pub parameters : List PackParameter
  pub includes : List Text
  pub depends_on : List Text
  pub namespace : Text
  pub loaded_from : Text

pub record CachedPack : Type 0 where
  pub pack : QueryPack
  pub loaded_at : ℕ
  pub mod_time : ℕ
  pub file_hash : Text
  pub file_path : Text
  pub dependencies : List Text

-- A Go map from strings.
abbrev pub Table : Type 0 → Type 0
Table A = Text → Option A

pub record PackLoader : Type 0 where
  pub search_paths : List Text
  pub cache : Table CachedPack
  pub dependency_graph : Table (List Text)
  pub loaded_packs : Table QueryPack
  pub manifest_cache : Table PackManifest
  pub sql_cache : Table Text
  pub enable_embedded_packs : Bool
  pub cache_expiry : ℕ

-- What a read finds: fs.ErrNotExist is told apart from other errors.
pub data Read (A : Type 0) : Type 0 where
  found : A → Read A
  not_exist : Read A
  broken : ℕ → Read A

-- The files and the clock, as they are during one call, the packs that are compiled in, the parser
-- of manifests (yaml.Unmarshal), the hash of a file's content (sha256, in hexadecimal), and the
-- patterns that regexp.Compile takes. Times are numbers, and 0 is the zero time.
pub record Env : Type 0 where
  pub now : ℕ
  pub read_file : Text → Read Text
  pub read_embedded : Text → Read Text
  pub unmarshal : Text → Option PackManifest
  pub sha256 : Text → Text
  pub mod_time : Text → Option ℕ
  pub compiles : Text → Bool

-- LoaderError and DependencyError, without their words.
pub data LoadError : Type 0 where
  circular : List Text → LoadError
  too_deep : List Text → LoadError
  manifest_not_found : Text → LoadError
  manifest_broken : Text → LoadError
  manifest_unavailable : Text → LoadError → LoadError
  required_dependency : Text → Text → LoadError → LoadError
  sql_unavailable : Text → LoadError
  pack_invalid : Text → LoadError
