-- ===== src/Packs/Load.antt =====
-- pkg/query/compliance/loader.go: loadPackInternal, the caches, and InvalidateCache.
pub mod Returns
use corkscrew.Prelude.{
  ℕ, zero, suc, ◌-◌, Bool, true, false, ◌||◌, ◌&&◌, not, Option, none, some, List, [], ◌∷◌, ◌++◌,
  Text, text_eq, has_prefix, length, ltb, leb, ◌==◌, if◌then◌else◌, Run, done, panic,
}
use corkscrew.Packs.Types.{
  PackDependency, PackManifest, QueryPack, CachedPack, Table, PackLoader, Read, found, not_exist,
  broken, Env, LoadError, circular, too_deep, manifest_unavailable, required_dependency,
  pack_invalid,
}
use corkscrew.Packs.Distinct.{contains}
use corkscrew.Packs.Check.{validate_pack}
use corkscrew.Packs.Manifest.{
  put, Result, failed, ok, is_embedded, find_pack_manifest, manifest_to_pack,
}

abbrev pub pack_depth_max : ℕ
pack_depth_max = 32

abbrev unchanged_by : {A : Type 0} → (A → Bool) → Option A → Bool
unchanged_by f none = true
unchanged_by f (some a) = f a

abbrev or_else : {A : Type 0} → A → Option A → A
or_else d none = d
or_else d (some a) = a

-- A call of loadPackInternal on fuel: `none` if the fuel runs out.
abbrev pub Loading : Type 0 → Type 0
Loading A = Option (Run (Result A))

abbrev pub return : {A : Type 0} → Result A → Loading A
return r = some (done r)

-- What follows a call, for its error and for its value.
abbrev pub after :
    {A B : Type 0}
    → Loading A
    → (LoadError → PackLoader → Loading B)
    → (A → PackLoader → Loading B)
    → Loading B
after none on_error on_value = none
after (some panic) on_error on_value = some panic
after (some (done (failed e l))) on_error on_value = on_error e l
after (some (done (ok a l))) on_error on_value = on_value a l

abbrev pub after_result :
    {A B : Type 0}
    → Result A
    → (LoadError → PackLoader → Loading B)
    → (A → PackLoader → Loading B)
    → Loading B
after_result (failed e l) on_error on_value = on_error e l
after_result (ok a l) on_error on_value = on_value a l

abbrev pub dependency_namespace : PackDependency → Text
dependency_namespace d = if text_eq d.namespace [] then d.name else d.namespace

module _ (env : Env) where
  -- The hash of a file that can be read.
  abbrev hash_file : Text → Option Text
  hash_file path = elim (env.read_file path) [
    | found content ↦ some (env.sha256 content)
    | not_exist ↦ none
    | broken n ↦ none
  ]

  -- The comparison with the file, if it is one and can be read.
  abbrev is_unmodified : CachedPack → Bool
  is_unmodified c = if is_embedded env c.file_path then true else (elim (env.mod_time c.file_path) [
    | none ↦ true
    | some t ↦
        (t == c.mod_time) && unchanged_by (λ h. text_eq h c.file_hash) (hash_file c.file_path)
  ])

  unfoldable pub is_cache_valid : Text → PackLoader → Bool
  is_cache_valid namespace l = elim (l.cache namespace) [
    | none ↦ false
    | some c ↦ if ltb l.cache_expiry (env.now - c.loaded_at) then false else is_unmodified c
  ]

  abbrev namespaces_of : List QueryPack → List Text
  namespaces_of [] = []
  namespaces_of (p ∷ ps) = p.namespace ∷ namespaces_of ps

  -- The hash of the file, which is read only if its time can be.
  abbrev hash_of : Text → Text
  hash_of path = elim (env.mod_time path) [ none ↦ [] | some t ↦ or_else [] (hash_file path) ]

  unfoldable pub cache_pack : Text → QueryPack → Text → List QueryPack → PackLoader → PackLoader
  cache_pack namespace pack path dependencies l =
      let cached : CachedPack = record {
        pack = pack;
        loaded_at = env.now;
        mod_time = if is_embedded env path then 0 else or_else 0 (env.mod_time path);
        file_hash = if is_embedded env path then [] else hash_of path;
        file_path = path;
        dependencies = namespaces_of dependencies;
      } in
      record l {
        cache = put namespace cached l.cache;
        loaded_packs = put namespace pack l.loaded_packs;
        dependency_graph = put namespace (namespaces_of dependencies) l.dependency_graph;
      }

  -- The loop over the dependencies, with those loaded so far; `load` is the recursive call.
  unfoldable pub load_dependencies :
      (Text → PackLoader → Loading QueryPack)
      → Text
      → List PackDependency
      → List QueryPack
      → PackLoader
      → Loading (List QueryPack)
  load_dependencies load namespace [] loaded l = return (ok loaded l)
  load_dependencies load namespace (d ∷ ds) loaded l =
      after (load (dependency_namespace d) l)
        (λ e l'.
          if d.required
          then return (failed (required_dependency namespace (dependency_namespace d) e) l')
          else load_dependencies load namespace ds loaded l')
        (λ p l'. load_dependencies load namespace ds (loaded ++ p ∷ []) l')

  -- The conversion, the validation and the caching of a pack whose dependencies are loaded.
  unfoldable pub finish_pack :
      Text → PackManifest → Text → List QueryPack → PackLoader → Loading QueryPack
  unfolding cache_pack
  finish_pack namespace m path dependencies l =
      after_result (manifest_to_pack env m path l) (λ e l'. return (failed e l'))
        (λ pack l'.
          let (errors, checked) = validate_pack env.compiles pack in
          elim errors [
            | [] ↦ return (ok checked (cache_pack namespace checked path dependencies l'))
            | e ∷ es ↦ return (failed (pack_invalid namespace) l')
          ])

  -- The cached pack, if it is loaded and still valid.
  unfoldable pub reuse : Text → PackLoader → Option QueryPack
  unfolding is_cache_valid
  reuse namespace l = if is_cache_valid namespace l then l.loaded_packs namespace else none

  -- loadPackInternal. The map `loading` has the namespaces of the calls that are open: each call
  -- adds its own and removes it at its end.
  unfoldable pub load_pack_internal :
      ℕ → Text → List Text → List Text → PackLoader → Loading QueryPack
  load_pack_internal zero namespace loading load_path l = none
  load_pack_internal (suc fuel) namespace loading load_path l =
      let inner = λ (n : Text) (l' : PackLoader).
        load_pack_internal fuel n (namespace ∷ loading) (load_path ++ namespace ∷ []) l' in
      if ltb pack_depth_max (length load_path)
      then some panic
      else if contains namespace loading
      then return (failed (circular (load_path ++ namespace ∷ [])) l)
      else if leb pack_depth_max (length load_path)
      then return (failed (too_deep (load_path ++ namespace ∷ [])) l)
      else (elim (reuse namespace l) [
        | some pack ↦ return (ok pack l)
        | none ↦
            if ltb pack_depth_max (length (load_path ++ namespace ∷ []))
            then some panic
            else after_result (find_pack_manifest env namespace l)
                (λ e l'. return (failed (manifest_unavailable namespace e) l'))
                (λ m l'.
                  after (load_dependencies inner namespace m.0.depends_on [] l')
                    (λ e l''. return (failed e l''))
                    (λ dependencies l''. finish_pack namespace m.0 m.1 dependencies l''))
      ])

  -- LoadPack, with the fuel that is enough.
  unfoldable pub load_pack : Text → PackLoader → Loading QueryPack
  unfolding load_pack_internal
  load_pack namespace l = load_pack_internal (suc pack_depth_max) namespace [] [] l
