-- ===== src/Packs/Cache.antt =====
-- pkg/query/compliance/loader.go: NewPackLoader and InvalidateCache.
use corkscrew.Prelude.{
  ◌≡◌, Bool, true, ◌||◌, none, [], ◌∷◌, arith, Text, codes, text_eq, has_prefix, if◌then◌else◌,
}
use corkscrew.Packs.FilePath.{join_path}
use corkscrew.Packs.Types.{Table, PackLoader, Env}
use corkscrew.Packs.Load.{is_cache_valid, reuse}

abbrev nothing : {A : Type 0} → Table A
nothing k = none

-- delete(m, key)
abbrev delete : {A : Type 0} → Text → Table A → Table A
delete key t k = if text_eq key k then none else t k

-- strings.Contains(s, part)
abbrev contains_text : Text → Text → Bool
contains_text part [] = has_prefix part []
contains_text part (c ∷ s) = has_prefix part (c ∷ s) || contains_text part s

-- NewPackLoader, for the home directory; the expiry is 30 minutes, in nanoseconds.
unfoldable pub new_pack_loader : Text → PackLoader
new_pack_loader home = record {
  search_paths =
      join_path (home ∷ codes ".corkscrew" ∷ codes "query-packs" ∷ [])
      ∷ codes "/etc/corkscrew/query-packs"
      ∷ codes "./query-packs"
      ∷ [];
  cache = nothing;
  dependency_graph = nothing;
  loaded_packs = nothing;
  manifest_cache = nothing;
  sql_cache = nothing;
  enable_embedded_packs = true;
  cache_expiry = 1_800_000_000_000;
}

unfoldable pub invalidate_cache : Text → PackLoader → PackLoader
invalidate_cache namespace l =
    if text_eq namespace []
    then record l {
      cache = nothing;
      loaded_packs = nothing;
      manifest_cache = nothing;
      sql_cache = nothing;
      dependency_graph = nothing;
    }
    else record l {
      cache = delete namespace l.cache;
      loaded_packs = delete namespace l.loaded_packs;
      manifest_cache = delete namespace l.manifest_cache;
      dependency_graph = delete namespace l.dependency_graph;
      sql_cache = λ path. if contains_text namespace path then none else l.sql_cache path;
    }

-- After InvalidateCache no pack is reused if the namespace is empty; otherwise the pack of the
-- namespace is not, and every other pack is reused exactly as before.
reuse-invalidate_cache :
    (env : Env) (namespace k : Text) (l : PackLoader)
    → reuse env k (invalidate_cache namespace l)
      ≡ (if text_eq namespace [] || text_eq namespace k then none else reuse env k l)
unfolding reuse is_cache_valid invalidate_cache
reuse-invalidate_cache env namespace k l = ground arith
