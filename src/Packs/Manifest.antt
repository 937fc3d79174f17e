-- ===== src/Packs/Manifest.antt =====
-- pkg/query/compliance/loader.go: manifests, the SQL of their queries, and ValidateManifest.
pub mod Keeps
use corkscrew.Prelude.{
  ℕ, suc, Bool, true, false, ◌||◌, not, Option, none, some, List, [], ◌∷◌, ◌++◌, Text, codes,
  text_eq, has_prefix, split, if◌then◌else◌,
}
use corkscrew.Packs.FilePath.{join_path, dir}
use corkscrew.Packs.Types.{
  PackDependency, QuerySpec, PackManifest, ComplianceQuery, QueryPack, Table, PackLoader, Read,
  found, not_exist, broken, Env, LoadError, manifest_not_found, manifest_broken, sql_unavailable,
}

abbrev pub put : {A : Type 0} → Text → A → Table A → Table A
put k a t k' = if text_eq k k' then some a else t k'

-- An error, or a value, with the loader after it.
pub data Result (A : Type 0) : Type 0 where
  failed : LoadError → PackLoader → Result A
  ok : A → PackLoader → Result A

unfoldable pub get_manifest_path : Text → Text → Text
get_manifest_path search_path namespace =
    join_path (search_path ∷ split b'/' namespace ++ codes "manifest.yaml" ∷ [])

abbrev load_from : Text → PackManifest → PackManifest
load_from path m = record m { loaded_from = path }

-- l.manifestCache[namespace] = manifest
abbrev remember : Text → PackManifest → PackLoader → PackLoader
remember namespace m l = record l { manifest_cache = put namespace m l.manifest_cache }

-- An error of the parser, which is no fs.ErrNotExist.
abbrev parse_error : ℕ
parse_error = 0

-- The manifest in a file that was read from `path`.
abbrev parse : (Text → Option PackManifest) → Text → Read Text → Read PackManifest
parse unmarshal path not_exist = not_exist
parse unmarshal path (broken n) = broken n
parse unmarshal path (found content) = elim (unmarshal content) [
  | none ↦ broken parse_error
  | some m ↦ found (load_from path m)
]

module _ (env : Env) where
  unfoldable pub load_manifest_from_file : Text → Read PackManifest
  load_manifest_from_file path = parse env.unmarshal path (env.read_file path)

  unfoldable pub load_manifest_from_embedded : Text → Read PackManifest
  load_manifest_from_embedded path = parse env.unmarshal path (env.read_embedded path)

  abbrev embedded_path : Text → Text
  embedded_path namespace = codes "packs/" ++ (namespace ++ codes "/manifest.yaml")

  -- The search in the embedded packs, and the error if there is no manifest.
  unfoldable pub find_embedded : Text → PackLoader → Result (PackManifest × Text)
  find_embedded namespace l =
      if l.enable_embedded_packs
      then (elim (load_manifest_from_embedded (embedded_path namespace)) [
        | found m ↦
            ok (load_from (embedded_path namespace) m, embedded_path namespace)
              (remember namespace (load_from (embedded_path namespace) m) l)
        | not_exist ↦ failed (manifest_not_found namespace) l
        | broken n ↦ failed (manifest_broken (embedded_path namespace)) l
      ])
      else failed (manifest_not_found namespace) l

  -- The loop over the search paths.
  unfoldable pub find_in : List Text → Text → PackLoader → Result (PackManifest × Text)
  unfolding find_embedded get_manifest_path
  find_in [] namespace l = find_embedded namespace l
  find_in (path ∷ paths) namespace l =
      let file = get_manifest_path path namespace in
      let rest = find_in paths namespace l in
      elim (load_manifest_from_file file) [
        | found m ↦ ok (m, file) (remember namespace m l)
        | not_exist ↦ rest
        | broken n ↦ failed (manifest_broken file) l
      ]

  unfoldable pub find_pack_manifest : Text → PackLoader → Result (PackManifest × Text)
  unfolding find_in
  find_pack_manifest namespace l = elim (l.manifest_cache namespace) [
    | some m ↦ ok (m, m.loaded_from) l
    | none ↦ find_in l.search_paths namespace l
  ]

  -- strings.HasPrefix(manifestPath, "packs/")
  abbrev pub is_embedded : Text → Bool
  is_embedded path = has_prefix (codes "packs/") path

  unfoldable pub load_sql_file : Text → Text → PackLoader → Result Text
  load_sql_file query_file manifest_path l =
      let path = join_path (dir manifest_path ∷ query_file ∷ []) in
      elim (l.sql_cache path) [
        | some sql ↦ ok sql l
        | none ↦
            elim (if is_embedded manifest_path
              then env.read_embedded path
              else env.read_file path) [
                | found sql ↦ ok sql (record l { sql_cache = put path sql l.sql_cache })
                | not_exist ↦ failed (sql_unavailable path) l
                | broken n ↦ failed (sql_unavailable path) l
              ]
      ]

  -- One query of the loop in manifestToPack.
  unfoldable pub load_query : QuerySpec → Text → PackLoader → Result ComplianceQuery
  unfolding load_sql_file
  load_query q manifest_path l =
      if text_eq q.query_file []
      then ok (record { spec = q; sql = [] }) l
      else (elim (load_sql_file q.query_file manifest_path l) [
        | ok sql l' ↦ ok (record { spec = q; sql = sql }) l'
        | failed e l' ↦ failed e l'
      ])

  unfoldable pub load_queries : List QuerySpec → Text → PackLoader → Result (List ComplianceQuery)
  unfolding load_query
  load_queries [] manifest_path l = ok [] l
  load_queries (q ∷ qs) manifest_path l = elim (load_query q manifest_path l) [
    | failed e l' ↦ failed e l'
    | ok c l' ↦ elim (load_queries qs manifest_path l') [
      | failed e l'' ↦ failed e l''
      | ok cs l'' ↦ ok (c ∷ cs) l''
    ]
  ]

  abbrev dependency_name : PackDependency → Text
  dependency_name d =
      if text_eq d.namespace [] then d.name else d.namespace ++ (codes "/" ++ d.name)

  abbrev dependency_names : List PackDependency → List Text
  dependency_names [] = []
  dependency_names (d ∷ ds) = dependency_name d ∷ dependency_names ds

  unfoldable pub manifest_to_pack : PackManifest → Text → PackLoader → Result QueryPack
  unfolding load_queries
  manifest_to_pack m manifest_path l = elim (load_queries m.queries manifest_path l) [
    | failed e l' ↦ failed e l'
    | ok queries l' ↦
        ok
          (record {
            metadata = m.metadata;
            queries = queries;
            parameters = m.parameters;
            includes = m.includes;
            depends_on = dependency_names m.depends_on;
            namespace = m.metadata.namespace;
            loaded_from = manifest_path;
          })
          l'
  ]
