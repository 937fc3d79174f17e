-- ===== src/Packs/Manifest/Keeps.antt =====
-- pkg/query/compliance/loader.go: finding and converting a manifest leaves the loaded packs alone.
use corkscrew.Prelude.{◌≡◌, arith, refl, List, [], ◌∷◌, Text}
use corkscrew.Packs.Types.{QuerySpec, PackManifest, PackLoader, Env}
use corkscrew.Packs.Manifest.{
  Result, failed, ok, find_embedded, find_in, find_pack_manifest, load_sql_file, load_query,
  load_queries, manifest_to_pack,
}

abbrev pub state_of : {A : Type 0} → Result A → PackLoader
state_of (failed e l) = l
state_of (ok a l) = l

-- A result beside the loader that it came from.
abbrev pub KeepsPacks : {A : Type 0} → PackLoader → Result A → Type 0
KeepsPacks l r = (state_of r).loaded_packs ≡ l.loaded_packs

module _ (env : Env) where
  find_embedded-KeepsPacks :
      (namespace : Text) (l : PackLoader) → KeepsPacks l (find_embedded env namespace l)
  unfolding find_embedded
  find_embedded-KeepsPacks namespace l = ground arith

  find_in-KeepsPacks :
      (paths : List Text) (namespace : Text) (l : PackLoader)
      → KeepsPacks l (find_in env paths namespace l)
  unfolding find_in
  find_in-KeepsPacks [] namespace l = find_embedded-KeepsPacks namespace l
  find_in-KeepsPacks (path ∷ paths) namespace l =
      ground (arith, find_in-KeepsPacks paths namespace l)

  pub find_pack_manifest-KeepsPacks :
      (namespace : Text) (l : PackLoader) → KeepsPacks l (find_pack_manifest env namespace l)
  unfolding find_pack_manifest
  find_pack_manifest-KeepsPacks namespace l =
      ground (arith, find_in-KeepsPacks l.search_paths namespace l)

  load_sql_file-KeepsPacks :
      (query_file path : Text) (l : PackLoader) → KeepsPacks l (load_sql_file env query_file path l)
  unfolding load_sql_file
  load_sql_file-KeepsPacks query_file path l = ground arith

  load_query-KeepsPacks :
      (q : QuerySpec) (path : Text) (l : PackLoader) → KeepsPacks l (load_query env q path l)
  unfolding load_query
  load_query-KeepsPacks q path l = ground (arith, load_sql_file-KeepsPacks q.query_file path l)

  load_queries-KeepsPacks :
      (qs : List QuerySpec) (path : Text) (l : PackLoader)
      → KeepsPacks l (load_queries env qs path l)
  unfolding load_queries
  load_queries-KeepsPacks [] path l = refl
  load_queries-KeepsPacks (q ∷ qs) path l = ground (
    arith,
    load_query-KeepsPacks q path l,
    load_queries-KeepsPacks qs path (state_of (load_query env q path l)),
  )

  pub manifest_to_pack-KeepsPacks :
      (m : PackManifest) (path : Text) (l : PackLoader)
      → KeepsPacks l (manifest_to_pack env m path l)
  unfolding manifest_to_pack
  manifest_to_pack-KeepsPacks m path l = ground (arith, load_queries-KeepsPacks m.queries path l)
