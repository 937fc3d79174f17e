-- ===== src/Packs/Registry/Tests.antt =====
-- Tests for pkg/query/compliance/pack.go.
use corkscrew.Prelude.{
  ℕ, zero, suc, get_elem?, ◌≡◌, ◌↔◌, refl, inl, inr, true, Option, none, some, List, [], ◌∷◌, Text,
  codes, text_eq, text_eq_iff, has_prefix, Bool-cases,
}
use corkscrew.Prelude.Int.{pos, negsuc}
use corkscrew.Packs.Types.{QueryPack, Table, Env, found, not_exist}
use corkscrew.Packs.Manifest.{put}
use corkscrew.Packs.Version.{parse_version, scan_int, compare}
use corkscrew.Packs.Check.{validate_pack}
use corkscrew.Packs.Check.Valid.{IsPack}
use corkscrew.Packs.Check.Accepts.{validate_pack-nil_iff}
use corkscrew.Packs.Registry.{PackRegistry, get_pack}
use corkscrew.Packs.Registry.Latest.{IsOrder, IsFound, asked_version, get_pack-IsFound}
use corkscrew.Packs.Registry.File.{load_file}
use corkscrew.Packs.Registry.File.Registers.{IsOutcome, load_file-IsOutcome}

-- The number after spaces is read up to what is no digit.
scanned : scan_int (codes " 12b") ≡ some (pos 12)
unfolding scan_int
scanned = refl

negative : scan_int (codes "-3") ≡ some (negsuc 2)
unfolding scan_int
negative = refl

abbrev pack_of : Text → QueryPack
pack_of version = record {
  metadata = record {
    name = codes "a";
    namespace = [];
    version = version;
    provider = codes "aws";
    body = 0;
  };
  queries = [];
  parameters = [];
  includes = [];
  depends_on = [];
  namespace = [];
  loaded_from = [];
}

abbrev newer_pack : QueryPack
newer_pack = pack_of (codes "1.10.0")

abbrev older_pack : QueryPack
older_pack = pack_of (codes "1.9.0")

abbrev two_packs : Table QueryPack
two_packs = put (codes "a:1.9.0") older_pack (put (codes "a:1.10.0") newer_pack (λ k. none))

abbrev some_registry : PackRegistry
some_registry = record { search_paths = []; packs = two_packs; namespaces = λ k. none }

abbrev some_order : List (Text × QueryPack)
some_order = (codes "a:1.10.0", newer_pack) ∷ (codes "a:1.9.0", older_pack) ∷ []

latest_found : get_pack some_order (codes "a") [] some_registry ≡ some newer_pack
unfolding get_pack has_prefix parse_version compare text_eq
latest_found = refl

some_order_sound :
    (i : ℕ) (key : Text) (pack : QueryPack)
    → get_elem? some_order i ≡ some (key, pack)
    → two_packs key ≡ some pack
unfolding text_eq
some_order_sound zero key pack e =
    let keys : key ≡ codes "a:1.10.0" = cc in
    let packs : pack ≡ newer_pack = cc in rw (keys, packs) refl
some_order_sound (suc zero) key pack e =
    let keys : key ≡ codes "a:1.9.0" = cc in
    let packs : pack ≡ older_pack = cc in rw (keys, packs) refl
some_order_sound (suc (suc i)) key pack e = cc

some_order_whole :
    (key : Text) (pack : QueryPack)
    → two_packs key ≡ some pack
    → (i : ℕ) × (get_elem? some_order i ≡ some (key, pack))
some_order_whole key pack e = elim (Bool-cases (text_eq (codes "a:1.9.0") key)) [
  | inl h ↦
      let keys = (text_eq_iff (codes "a:1.9.0") key).0 h in
      let own : some older_pack ≡ some pack = rw h at e in (1, cc)
  | inr h ↦ elim (Bool-cases (text_eq (codes "a:1.10.0") key)) [
    | inl k ↦
        let keys = (text_eq_iff (codes "a:1.10.0") key).0 k in
        let own : some newer_pack ≡ some pack = rw (h, k) at e in (0, cc)
    | inr k ↦ let none_left : Path (Option QueryPack) none (some pack) = rw (h, k) at e in cc
  ]
]

some_order-IsOrder : IsOrder two_packs some_order
some_order-IsOrder = record { sound = some_order_sound; whole = some_order_whole }

get_pack-IsFound_example :
    IsFound two_packs
      (codes "a")
      (asked_version [])
      (get_pack some_order (codes "a") [] some_registry)
get_pack-IsFound_example =
    get_pack-IsFound some_order (codes "a") [] some_registry some_order-IsOrder

validate_pack-nil_iff_example :
    ((validate_pack (λ p. true) older_pack).0 ≡ []) ↔ IsPack (λ p. true) older_pack
validate_pack-nil_iff_example = validate_pack-nil_iff (λ p. true) older_pack

abbrev some_env : Env
some_env = record {
  now = 5;
  read_file = λ path. found (codes "pack");
  read_embedded = λ path. not_exist;
  unmarshal = λ content. none;
  sha256 = λ content. content;
  mod_time = λ path. none;
  compiles = λ pattern. true;
}

load_file-IsOutcome_example :
    IsOutcome some_env
      (λ content. some newer_pack)
      (codes "/srv/a.yaml")
      some_registry
      (load_file some_env (λ content. some newer_pack) (codes "/srv/a.yaml") some_registry)
load_file-IsOutcome_example =
    load_file-IsOutcome some_env (λ content. some newer_pack) (codes "/srv/a.yaml") some_registry
