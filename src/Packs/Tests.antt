-- ===== src/Packs/Tests.antt =====
-- Tests for pkg/query/compliance/loader.go.
use corkscrew.Prelude.{
  ◌≡◌, ◌↔◌, refl, true, false, none, [], ◌∷◌, codes, some, text_eq, has_prefix, join, split,
}
use corkscrew.Packs.FilePath.{clean, join_path, dir}
use corkscrew.Packs.Types.{PackManifest, found, not_exist, Env}
use corkscrew.Packs.Load.{load_pack}
use corkscrew.Packs.Load.Returns.{IsInTable, Returns, load_pack-Returns}
use corkscrew.Packs.Validate.{validate_manifest, IsWellFormed, validate_manifest-none_iff}
use corkscrew.Packs.Cache.{new_pack_loader}

join_up :
    join_path (codes "/srv/packs" ∷ codes "../x" ∷ codes "./a.sql" ∷ []) ≡ codes "/srv/x/a.sql"
unfolding join_path clean has_prefix join split text_eq
join_up = refl

dir_of : dir (codes "packs/aws/manifest.yaml") ≡ codes "packs/aws"
unfolding dir clean has_prefix join split text_eq
dir_of = refl

-- A manifest that depends on itself.
abbrev own_manifest : PackManifest
own_manifest = record {
  api_version = codes "v1";
  kind = codes "QueryPack";
  metadata = record {
    name = codes "a";
    namespace = [];
    version = codes "1.0.0";
    provider = codes "aws";
    body = 0;
  };
  queries = [];
  parameters = [];
  includes = [];
  depends_on = record { name = codes "a"; namespace = []; version = []; required = false } ∷ [];
  loaded_from = [];
}

abbrev some_env : Env
some_env = record {
  now = 5;
  read_file = λ path. not_exist;
  read_embedded = λ path. found (codes "manifest");
  unmarshal = λ content. some own_manifest;
  sha256 = λ content. content;
  mod_time = λ path. none;
  compiles = λ pattern. true;
}

load_pack-Returns_example :
    Returns some_env
      (IsInTable some_env (codes "a"))
      (load_pack some_env (codes "a") (new_pack_loader (codes "/root")))
unfolding new_pack_loader
load_pack-Returns_example =
    load_pack-Returns some_env (codes "a") (new_pack_loader (codes "/root")) (λ n p e. cc)

validate_manifest-none_iff_example :
    (validate_manifest own_manifest ≡ none) ↔ IsWellFormed own_manifest
validate_manifest-none_iff_example = validate_manifest-none_iff own_manifest
