-- ===== src/Packs/Registry/Visits.antt =====
-- pkg/query/compliance/pack.go: what the loop of getLatestVersion holds.
use corkscrew.Prelude.{
  ℕ, zero, suc, ◌≡◌, ◌⊎◌, inl, inr, refl, sym, ap, true, none, some, List, [], ◌∷◌, ◌++◌, arith,
  Text, codes, has_prefix, Bool-cases, Option-cases, get_elem?, if◌then◌else◌,
}
use corkscrew.Prelude.Int.{int_lt, pos}
use corkscrew.Packs.Types.{QueryPack}
use corkscrew.Packs.Version.{PackVersion, parse_version, compare}
use corkscrew.Packs.Version.Order.{Less, Less-trans, Less-irrefl, compare-positive_iff}
use corkscrew.Packs.Registry.{Found, is_newer, visit, visit_all}

-- A pack with a key of this name, which has this version.
abbrev pub HasVersion : Text → Text → QueryPack → PackVersion → Type 0
HasVersion name key pack version =
    (has_prefix (name ++ codes ":") key ≡ true)
    × (parse_version pack.metadata.version ≡ some version)

-- What the loop holds is at least every version that it began with or has visited.
abbrev pub AtLeast : PackVersion → Found → Type 0
AtLeast version none = ⊥
AtLeast version (some latest) = Less latest.0 version → ⊥

-- One pass changes nothing, or it takes a version that is above the latest one so far.
data Visited (name key : Text) (pack : QueryPack) (latest : Found) : Found → Type 0 where
  passed :
      ((version : PackVersion) → HasVersion name key pack version → AtLeast version latest)
      → Visited name key pack latest latest
  taken :
      (version : PackVersion)
      → HasVersion name key pack version
      → ((l : PackVersion × QueryPack) → latest ≡ some l → Less l.0 version)
      → Visited name key pack latest (some (version, pack))

take_or_pass :
    (name key : Text) (pack : QueryPack) (latest : Found) (version : PackVersion)
    → HasVersion name key pack version
    → Visited name key pack latest
        (if is_newer version latest then some (version, pack) else latest)
take_or_pass name key pack none version h = taken version h (λ l e. cc)
take_or_pass name key pack (some latest) version h =
    let newer = compare-positive_iff version latest.0 in
    elim (Bool-cases (int_lt (pos 0) (compare version latest.0))) [
      | inl e ↦
          rw e (taken version h (λ l same. let eq : latest ≡ l = cc in rw (sym eq) (newer.0 e)))
      | inr e ↦ rw e (
          passed (λ v k less.
            let eq : v ≡ version = cc in
            let above : Less latest.0 version = rw (sym eq) less in
            ground (arith, newer.1 above, e)))
    ]

visit-Visited :
    (name key : Text) (pack : QueryPack) (latest : Found)
    → Visited name key pack latest (visit name key pack latest)
unfolding visit
visit-Visited name key pack latest = elim (Bool-cases (has_prefix (name ++ codes ":") key)) [
  | inr e ↦ rw e (passed (λ v h. cc))
  | inl e ↦ elim (Option-cases (parse_version pack.metadata.version)) [
    | inl none_parsed ↦ rw e (rw none_parsed (passed (λ v h. cc)))
    | inr (version, parsed) ↦
        rw e (rw parsed (take_or_pass name key pack latest version (e, parsed)))
  ]
]

-- What the loop holds after it has visited these entries.
pub record IsPass (name : Text) (order : List (Text × QueryPack)) (latest result : Found)
    : Type 0 where
  pub kept : (version : PackVersion) → AtLeast version latest → AtLeast version result
  pub seen :
      (i : ℕ) (key : Text) (pack : QueryPack) (version : PackVersion)
      → get_elem? order i ≡ some (key, pack)
      → HasVersion name key pack version
      → AtLeast version result
  pub origin :
      (l : PackVersion × QueryPack)
      → result ≡ some l
      → (latest ≡ some l)
        ⊎ ((i : ℕ) × (key : Text) × (get_elem? order i ≡ some (key, l.1))
            × HasVersion name key l.1 l.0)

-- A version that is above the latest one is above all that the latest one is at least.
Visited-kept :
    (name key : Text) (pack : QueryPack) (latest result : Found)
    → Visited name key pack latest result
    → (version : PackVersion) → AtLeast version latest
    → AtLeast version result
Visited-kept name key pack latest _ (passed f) version h = h
Visited-kept name key pack none _ (taken v known above) version h = absurd h
Visited-kept name key pack (some latest) _ (taken v known above) version h =
    λ less. h (Less-trans latest.0 v version (above latest refl) less)

Visited-seen :
    (name key : Text) (pack : QueryPack) (latest result : Found)
    → Visited name key pack latest result
    → (version : PackVersion) → HasVersion name key pack version
    → AtLeast version result
Visited-seen name key pack latest _ (passed f) version h = f version h
Visited-seen name key pack latest _ (taken v known above) version h =
    let eq : v ≡ version = cc in rw eq (Less-irrefl version)

Visited-origin :
    (name key : Text) (pack : QueryPack) (latest result : Found)
    → Visited name key pack latest result
    → (l : PackVersion × QueryPack) → result ≡ some l
    → (latest ≡ some l) ⊎ ((pack ≡ l.1) × HasVersion name key l.1 l.0)
Visited-origin name key pack latest _ (passed f) l e = inl e
Visited-origin name key pack latest _ (taken v known above) l e =
    let eq : (v, pack) ≡ l = cc in
    inr (ap (λ (p : PackVersion × QueryPack). p.1) eq, rw (sym eq) known)

seen_cons :
    (name key : Text) (pack : QueryPack) (rest : List (Text × QueryPack))
    → (latest next result : Found) → Visited name key pack latest next
    → IsPass name rest next result
    → (i : ℕ) (key' : Text) (pack' : QueryPack) (version : PackVersion)
    → get_elem? ((key, pack) ∷ rest) i ≡ some (key', pack')
    → HasVersion name key' pack' version
    → AtLeast version result
seen_cons name key pack rest latest next result step pass zero key' pack' v e h =
    let keys : key' ≡ key = cc in
    let packs : pack' ≡ pack = cc in
    pass.kept v (Visited-seen name key pack latest next step v (rw (sym keys) (rw (sym packs) h)))
seen_cons name key pack rest latest next result step pass (suc i) key' pack' v e h =
    pass.seen i key' pack' v e h

pub visit_all-IsPass :
    (name : Text) (order : List (Text × QueryPack)) (latest : Found)
    → IsPass name order latest (visit_all name order latest)
unfolding visit_all
visit_all-IsPass name [] latest = record {
  kept = λ v h. h;
  seen = λ i key pack v e h. cc;
  origin = λ l e. inl e;
}
visit_all-IsPass name ((key, pack) ∷ rest) latest =
    let step = visit-Visited name key pack latest in
    let pass = visit_all-IsPass name rest (visit name key pack latest) in
    record {
      kept = λ v h. pass.kept v (Visited-kept name key pack latest _ step v h);
      seen = seen_cons name key pack rest latest _ _ step pass;
      origin = λ l e. elim (pass.origin l e) [
        | inr (i, key', here, known) ↦ inr (suc i, key', here, known)
        | inl same ↦ elim (Visited-origin name key pack latest _ step l same) [
          | inl before ↦ inl before
          | inr own ↦ inr (zero, key, ap (λ (p : QueryPack). some (key, p)) own.0, own.1)
        ]
      ];
    }
