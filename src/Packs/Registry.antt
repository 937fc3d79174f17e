-- ===== src/Packs/Registry.antt =====
-- pkg/query/compliance/pack.go: the registry's packs, their keys, GetPack and getLatestVersion.
pub mod Visits
pub mod Latest
pub mod File
mod Tests
use corkscrew.Prelude.{
  Bool, true, false, not, Option, none, some, List, [], ◌∷◌, ◌++◌, Text, codes, text_eq, has_prefix,
  if◌then◌else◌,
}
use corkscrew.Prelude.Int.{ℤ, int_lt, pos}
use corkscrew.Packs.Types.{QueryPack, Table}
use corkscrew.Packs.Manifest.{put}
use corkscrew.Packs.Version.{PackVersion, parse_version, compare}

pub record PackRegistry : Type 0 where
  pub search_paths : List Text
  pub packs : Table QueryPack
  pub namespaces : Table (List Text)

unfoldable pub new_pack_registry : PackRegistry
new_pack_registry = record {
  search_paths = codes "./packs" ∷ codes "~/.corkscrew/packs" ∷ codes "/etc/corkscrew/packs" ∷ [];
  packs = λ k. none;
  namespaces = λ k. none;
}

-- fmt.Sprintf("%s:%s", name, version)
abbrev pub key_of : Text → Text → Text
key_of name version = name ++ (codes ":" ++ version)

unfoldable pub generate_pack_key : QueryPack → Text
generate_pack_key pack =
    if text_eq pack.namespace []
    then key_of pack.metadata.name pack.metadata.version
    else pack.namespace ++ (codes "/" ++ key_of pack.metadata.name pack.metadata.version)

abbrev names_of : Option (List Text) → List Text
names_of none = []
names_of (some names) = names

-- The end of LoadPack, which registers the pack and its namespace.
unfoldable pub register : QueryPack → PackRegistry → PackRegistry
unfolding generate_pack_key
register pack r =
    let packs = put (generate_pack_key pack) pack r.packs in
    if text_eq pack.namespace [] then record r { packs = packs } else record r {
      packs = packs;
      namespaces =
          put pack.namespace (names_of (r.namespaces pack.namespace) ++ pack.metadata.name ∷ [])
            r.namespaces;
    }

-- The latest version so far, and its pack.
abbrev pub Found : Type 0
Found = Option (PackVersion × QueryPack)

abbrev pub is_newer : PackVersion → Found → Bool
is_newer version none = true
is_newer version (some latest) = int_lt (pos 0) (compare version latest.0)

-- One pass of the loop.
unfoldable pub visit : Text → Text → QueryPack → Found → Found
unfolding parse_version
visit name key pack latest =
    if not (has_prefix (name ++ codes ":") key)
    then latest
    else (elim (parse_version pack.metadata.version) [
      | none ↦ latest
      | some version ↦ if is_newer version latest then some (version, pack) else latest
    ])

-- The loop, in the order in which the map is visited.
unfoldable pub visit_all : Text → List (Text × QueryPack) → Found → Found
unfolding visit
visit_all name [] latest = latest
visit_all name ((key, pack) ∷ rest) latest = visit_all name rest (visit name key pack latest)

-- The error of getLatestVersion and of GetPack is `none`.
unfoldable pub get_latest_version : List (Text × QueryPack) → Text → Option QueryPack
unfolding visit_all
get_latest_version order name = elim (visit_all name order none) [
  | none ↦ none
  | some latest ↦ some latest.1
]

-- GetPack, with the order in which getLatestVersion visits the map.
unfoldable pub get_pack : List (Text × QueryPack) → Text → Text → PackRegistry → Option QueryPack
unfolding get_latest_version
get_pack order name asked r =
    let version = if text_eq asked [] then codes "latest" else asked in
    elim (r.packs (key_of name version)) [
      | some pack ↦ some pack
      | none ↦ if text_eq version (codes "latest") then get_latest_version order name else none
    ]
