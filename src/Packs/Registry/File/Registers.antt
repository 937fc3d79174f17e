-- ===== src/Packs/Registry/File/Registers.antt =====
-- pkg/query/compliance/pack.go: a pack that LoadPack has registered is found by GetPack.
use corkscrew.Prelude.{◌≡◌, ◌↔◌, refl, Option, none, some, List, [], ◌∷◌, Text}
use corkscrew.Packs.FilePath.{dir}
use corkscrew.Packs.Types.{QueryPack, Env, Read, found, not_exist, broken}
use corkscrew.Packs.Check.{PackError, validate_pack}
use corkscrew.Packs.Check.Valid.{IsPack}
use corkscrew.Packs.Check.Accepts.{validate_pack-nil_iff}
use mathlib.Core.Path.{subst}
use corkscrew.Packs.Registry.{PackRegistry, register}
use corkscrew.Packs.Registry.File.{
  Loaded, refused, loaded, unreadable, unparsable, invalid, query_unreadable, located, Files,
  missing, all_read, load_query_files, finish, load_parsed, load_read, load_file,
}
use corkscrew.Packs.Registry.File.Keys.{IsRegistered, register-IsRegistered}
use corkscrew.Packs.Registry.File.Queries.{
  IsUnreadable, LacksFile, HaveSql, FilesOf, load_query_files-FilesOf,
}

module _ (env : Env) (unmarshal_pack : Text → Option QueryPack) where
  -- The pack that a file holds, with its runtime fields.
  abbrev pub IsHeld : Text → QueryPack → Type 0
  IsHeld path pack =
      (content : Text) × (raw : QueryPack) × (env.read_file path ≡ found content)
      × (unmarshal_pack content ≡ some raw)
      × (pack ≡ located path raw)

  -- What LoadPack promises: a reason for each error, or a pack that is registered.
  abbrev pub IsOutcome : Text → PackRegistry → Loaded → Type 0
  IsOutcome path r (refused (unreadable p)) = IsUnreadable env path
  IsOutcome path r (refused (unparsable p)) =
      (content : Text) × (env.read_file path ≡ found content) × (unmarshal_pack content ≡ none)
  IsOutcome path r (refused (invalid errors)) =
      (pack : QueryPack) × IsHeld path pack × (IsPack env.compiles pack → ⊥)
  IsOutcome path r (refused (query_unreadable id)) =
      (pack : QueryPack) × IsHeld path pack
      × IsPack env.compiles pack
      × LacksFile env (dir path) pack.queries id
  IsOutcome path r (loaded pack r') =
      (held : QueryPack) × IsHeld path held
      × IsPack env.compiles held
      × (pack.metadata ≡ held.metadata)
      × HaveSql env (dir path) held.queries pack.queries
      × IsRegistered r pack r'

  files-IsOutcome :
      (held checked : QueryPack) (path : Text) (r : PackRegistry) (files : Files)
      → IsHeld path held
      → IsPack env.compiles held
      → checked.metadata ≡ held.metadata
      → FilesOf env (dir path) held.queries files
      → IsOutcome path r (elim files [
        | missing id ↦ refused (query_unreadable id)
        | all_read qs ↦
            loaded (record checked { queries = qs }) (register (record checked { queries = qs }) r)
      ])
  files-IsOutcome held checked path r (missing id) at valid meta h = (held, at, valid, h)
  files-IsOutcome held checked path r (all_read qs) at valid meta h = (
    held,
    at,
    valid,
    meta,
    h,
    register-IsRegistered (record checked { queries = qs }) r (λ e. valid.version (rw (← meta) e)),
  )

  finish-IsOutcome :
      (errors : List PackError) (held checked : QueryPack) (path : Text) (r : PackRegistry)
      → IsHeld path held
      → (errors ≡ []) ↔ IsPack env.compiles held
      → checked.queries ≡ held.queries
      → checked.metadata ≡ held.metadata
      → IsOutcome path r (finish env errors checked path r)
  unfolding finish
  finish-IsOutcome (e ∷ es) held checked path r at valid same meta =
      (held, at, λ h. let empty = valid.1 h in cc)
  finish-IsOutcome [] held checked path r at valid same meta =
      files-IsOutcome held checked path r _ at (valid.0 refl) meta (
        subst (λ qs. FilesOf env (dir path) qs (load_query_files env checked.queries (dir path)))
          same (load_query_files-FilesOf env checked.queries (dir path)))

  parsed-IsOutcome :
      (path content : Text) (r : PackRegistry) (parsed : Option QueryPack)
      → env.read_file path ≡ found content
      → unmarshal_pack content ≡ parsed
      → IsOutcome path r (load_parsed env path r parsed)
  unfolding load_parsed validate_pack
  parsed-IsOutcome path content r none e f = (content, e, f)
  parsed-IsOutcome path content r (some raw) e f =
      finish-IsOutcome _ (located path raw) _ path r (content, raw, e, f, refl)
        (validate_pack-nil_iff env.compiles (located path raw)) refl refl

  read-IsOutcome :
      (path : Text) (r : PackRegistry) (o : Read Text)
      → env.read_file path ≡ o
      → IsOutcome path r (load_read env unmarshal_pack path r o)
  unfolding load_read
  read-IsOutcome path r not_exist e = λ content k. cc
  read-IsOutcome path r (broken n) e = λ content k. cc
  read-IsOutcome path r (found content) e = parsed-IsOutcome path content r _ e refl

  -- LoadPack of the registry refuses a file only for the reason that its error names: it cannot be
  -- read, it cannot be parsed, the pack in it is not valid, or a query of the valid pack has a
  -- file that cannot be read. Otherwise the pack, with its metadata and with each query's SQL from
  -- its file, is registered: GetPack finds it by its namespace, name and version, in whatever order the map is
  -- visited, and under every other key the registry has what it had.
  pub load_file-IsOutcome :
      (path : Text) (r : PackRegistry) → IsOutcome path r (load_file env unmarshal_pack path r)
  unfolding load_file
  load_file-IsOutcome path r = read-IsOutcome path r (env.read_file path) refl
