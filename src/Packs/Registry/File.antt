-- ===== src/Packs/Registry/File.antt =====
-- pkg/query/compliance/pack.go: LoadPack of the registry, from one file.
pub mod Keys
pub mod Queries
pub mod Registers
use corkscrew.Prelude.{Option, none, some, List, [], ◌∷◌, Text, text_eq, if◌then◌else◌}
use corkscrew.Packs.FilePath.{join_path, dir}
use corkscrew.Packs.Types.{ComplianceQuery, QueryPack, Read, found, not_exist, broken, Env}
use corkscrew.Packs.Check.{PackError, validate_pack}
use corkscrew.Packs.Registry.{PackRegistry, register}

-- LoadError, by its message and its cause.
pub data FileError : Type 0 where
  unreadable unparsable : Text → FileError
  invalid : List PackError → FileError
  query_unreadable : Text → FileError

-- An error, with the registry left as it was, or the pack and the registry that has it.
pub data Loaded : Type 0 where
  refused : FileError → Loaded
  loaded : QueryPack → PackRegistry → Loaded

-- The runtime fields.
abbrev pub located : Text → QueryPack → QueryPack
located path pack =
    if text_eq pack.metadata.namespace []
    then record pack { loaded_from = path }
    else record pack { loaded_from = path; namespace = pack.metadata.namespace }

-- loadQueryFiles, as far as it gets: the queries with their SQL, or the id of the query that fails.
pub data Files : Type 0 where
  missing : Text → Files
  all_read : List ComplianceQuery → Files

abbrev pub prepend : ComplianceQuery → Files → Files
prepend q (missing id) = missing id
prepend q (all_read qs) = all_read (q ∷ qs)

module _ (env : Env) where
  unfoldable pub load_query_files : List ComplianceQuery → Text → Files
  load_query_files [] pack_dir = all_read []
  load_query_files (q ∷ qs) pack_dir =
      let rest = load_query_files qs pack_dir in
      if text_eq q.spec.query_file []
      then prepend q rest
      else (elim (env.read_file (join_path (pack_dir ∷ q.spec.query_file ∷ []))) [
        | found sql ↦ prepend (record q { sql = sql }) rest
        | not_exist ↦ missing q.spec.id
        | broken n ↦ missing q.spec.id
      ])

  -- What follows the validation, for the errors that it has reported.
  unfoldable pub finish : List PackError → QueryPack → Text → PackRegistry → Loaded
  unfolding load_query_files register
  finish (e ∷ es) pack path r = refused (invalid (e ∷ es))
  finish [] pack path r = elim (load_query_files pack.queries (dir path)) [
    | missing id ↦ refused (query_unreadable id)
    | all_read qs ↦
        loaded (record pack { queries = qs }) (register (record pack { queries = qs }) r)
  ]

  -- What follows the parser.
  unfoldable pub load_parsed : Text → PackRegistry → Option QueryPack → Loaded
  unfolding finish
  load_parsed path r none = refused (unparsable path)
  load_parsed path r (some pack) =
      let (errors, checked) = validate_pack env.compiles (located path pack) in
      finish errors checked path r

module _ (env : Env) (unmarshal_pack : Text → Option QueryPack) where
  -- What follows the read.
  unfoldable pub load_read : Text → PackRegistry → Read Text → Loaded
  unfolding load_parsed
  load_read path r not_exist = refused (unreadable path)
  load_read path r (broken n) = refused (unreadable path)
  load_read path r (found content) = load_parsed env path r (unmarshal_pack content)

  unfoldable pub load_file : Text → PackRegistry → Loaded
  unfolding load_read
  load_file path r = load_read path r (env.read_file path)
