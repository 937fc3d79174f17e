-- ===== src/Packs/Registry/Latest.antt =====
-- pkg/query/compliance/pack.go: what GetPack finds, in whatever order the map is visited.
use corkscrew.Prelude.{
  ℕ, ◌≡◌, inl, inr, refl, sym, ◌∙◌, Option, none, some, List, [], ◌∷◌, arith, Text, codes, text_eq,
  text_eq_iff, Bool-cases, Option-cases, get_elem?, if◌then◌else◌,
}
use corkscrew.Packs.Types.{QueryPack, Table}
use corkscrew.Packs.Version.{PackVersion}
use corkscrew.Packs.Version.Order.{Less}
use corkscrew.Packs.Registry.{PackRegistry, key_of, Found, get_latest_version, get_pack}
use corkscrew.Packs.Registry.Visits.{HasVersion, IsPass, visit_all-IsPass}

-- The list has the entries of the map.
pub record IsOrder (t : Table QueryPack) (order : List (Text × QueryPack)) : Type 0 where
  pub sound :
      (i : ℕ) (key : Text) (pack : QueryPack)
      → get_elem? order i ≡ some (key, pack)
      → t key ≡ some pack
  pub whole :
      (key : Text) (pack : QueryPack)
      → t key ≡ some pack
      → (i : ℕ) × (get_elem? order i ≡ some (key, pack))

-- A pack of the map that has a version, and no version of the name in the map is above it.
pub record IsLatest (t : Table QueryPack) (name : Text) (pack : QueryPack) : Type 0 where
  pub key : Text
  pub version : PackVersion
  pub here : t key ≡ some pack
  pub known : HasVersion name key pack version
  pub highest :
      (key' : Text) (pack' : QueryPack) (version' : PackVersion)
      → t key' ≡ some pack'
      → HasVersion name key' pack' version'
      → Less version version'
      → ⊥

abbrev HasNone : Table QueryPack → Text → Type 0
HasNone t name =
    (key : Text) (pack : QueryPack) (version : PackVersion)
    → t key ≡ some pack
    → HasVersion name key pack version
    → ⊥

-- What getLatestVersion promises.
abbrev pub IsLatestOf : Table QueryPack → Text → Option QueryPack → Type 0
IsLatestOf t name none = HasNone t name
IsLatestOf t name (some pack) = IsLatest t name pack

-- The version that is asked for: no version is "latest".
abbrev pub asked_version : Text → Text
asked_version [] = codes "latest"
asked_version (c ∷ s) = c ∷ s

-- What GetPack promises: the pack of that key, and if there is none, the latest one if that is
-- asked for.
pub record IsFound (t : Table QueryPack) (name version : Text) (result : Option QueryPack)
    : Type 0 where
  pub exact : (pack : QueryPack) → t (key_of name version) ≡ some pack → result ≡ some pack
  pub latest : t (key_of name version) ≡ none → version ≡ codes "latest" → IsLatestOf t name result
  pub missing : t (key_of name version) ≡ none → (version ≡ codes "latest" → ⊥) → result ≡ none

latest_lem :
    (t : Table QueryPack) (order : List (Text × QueryPack)) (name : Text) (latest : Found)
    → IsOrder t order
    → IsPass name order none latest
    → IsLatestOf t name (elim latest [ none ↦ none | some l ↦ some l.1 ])
latest_lem t order name none o pass = λ key pack version here known.
    pass.seen (o.whole key pack here).0 key pack version (o.whole key pack here).1 known
latest_lem t order name (some l) o pass = elim (pass.origin l refl) [
  | inl e ↦ cc
  | inr (i, key, here, known) ↦ record {
    key = key;
    version = l.0;
    here = o.sound i key l.1 here;
    known = known;
    highest = λ key' pack' version' here' known'.
        pass.seen (o.whole key' pack' here').0 key' pack' version' (o.whole key' pack' here').1
          known';
  }
]

-- In whatever order the map is visited, getLatestVersion finds a pack whose key begins with the
-- name and a colon, and no such pack has a version above its version; it fails only if no such
-- pack has a version that can be parsed.
pub get_latest_version-IsLatestOf :
    (t : Table QueryPack) (order : List (Text × QueryPack)) (name : Text)
    → IsOrder t order
    → IsLatestOf t name (get_latest_version order name)
unfolding get_latest_version
get_latest_version-IsLatestOf t order name o =
    latest_lem t order name _ o (visit_all-IsPass name order none)

find-IsFound :
    (t : Table QueryPack) (order : List (Text × QueryPack)) (name version : Text)
    → IsOrder t order
    → IsFound t name version (elim (t (key_of name version)) [
      | some pack ↦ some pack
      | none ↦ if text_eq version (codes "latest") then get_latest_version order name else none
    ])
find-IsFound t order name version o = elim (Option-cases (t (key_of name version))) [
  | inr (pack, e) ↦
      rw e (record { exact = λ p same. sym e ∙ same; latest = λ h. cc; missing = λ h. cc })
  | inl e ↦ elim (Bool-cases (text_eq version (codes "latest"))) [
    | inl is_latest ↦ rw e (
        rw is_latest (record {
          exact = λ p h. cc;
          latest = λ h k. get_latest_version-IsLatestOf t order name o;
          missing = λ h k. absurd (k ((text_eq_iff version (codes "latest")).0 is_latest));
        }))
    | inr other ↦ rw e (
        rw other (record {
          exact = λ p h. cc;
          latest = λ h k. ground (arith, text_eq_iff version (codes "latest"), k, other);
          missing = λ h k. refl;
        }))
  ]
]

-- GetPack gives the pack under the key of the name and the version, where no version stands for
-- "latest". If there is none, it fails, but for "latest" it gives a pack whose key begins with the
-- name and a colon such that no such pack has a version above its version, in whatever order the
-- map is visited, and fails only if no such pack has a version that can be parsed.
pub get_pack-IsFound :
    (order : List (Text × QueryPack)) (name asked : Text) (r : PackRegistry)
    → IsOrder r.packs order
    → IsFound r.packs name (asked_version asked) (get_pack order name asked r)
unfolding get_pack text_eq
get_pack-IsFound order name [] r o = find-IsFound r.packs order name (codes "latest") o
get_pack-IsFound order name (c ∷ s) r o = find-IsFound r.packs order name (c ∷ s) o
