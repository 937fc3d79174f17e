-- ===== src/Drift/Maps.antt =====
-- internal/app/drift/drift.go: the maps from keys to observations.
use corkscrew.Prelude.{
  ◌≡◌, refl, ◌∙◌, inl, inr, Bool, true, false, Option, none, some, List, [], ◌∷◌, arith, Text,
  text_eq, text_eq_iff, if◌then◌else◌, Bool-cases, Option-cases,
}
use corkscrew.Drift.Types.{Observation}
use corkscrew.Drift.Compare.{Entry, key, put, lookup, index}

-- The last observation with the key.
abbrev pub last_of : Text → List Observation → Option Observation
last_of k [] = none
last_of k (o ∷ os) = elim (last_of k os) [
  | some p ↦ some p
  | none ↦ if text_eq (key o) k then some o else none
]

-- A map from keys to observations, in some order of its entries.
abbrev pub IsMap : List Entry → Type 0
IsMap [] = Unit {0}
IsMap ((k, o) ∷ m) = (k ≡ key o) × (lookup k m ≡ none) × IsMap m

-- An order in which a loop may go over the map of the last observations.
pub record IsIteration (os : List Observation) (m : List Entry) : Type 0 where
  pub is_map : IsMap m
  pub entries : (k : Text) → lookup k m ≡ last_of k os

lookup-put :
    (k k' : Text) (o : Observation) (m : List Entry)
    → lookup k (put k' o m) ≡ (if text_eq k' k then some o else lookup k m)
lookup-put k k' o [] = refl
lookup-put k k' o ((k'', p) ∷ m) =
    ground (arith, lookup-put k k' o m, text_eq_iff k'' k', text_eq_iff k'' k, text_eq_iff k' k)

put-IsMap : (o : Observation) (m : List Entry) → IsMap m → IsMap (put (key o) o m)
put-IsMap o [] h = (refl, refl, tt)
put-IsMap o ((k, p) ∷ m) h = elim (Bool-cases (text_eq k (key o))) [
  | inl same ↦
      let equal : k ≡ key o = (text_eq_iff k (key o)).0 same in
      rw (same, put) (refl, rw equal at h.1, h.2)
  | inr other ↦
      let fresh : lookup k (put (key o) o m) ≡ none =
        ground
          (arith, lookup-put k (key o) o m, text_eq_iff (key o) k, text_eq_iff k (key o), h.1) in
      rw (other, put) (h.0, fresh, put-IsMap o m h.2)
]

index-IsMap : (os : List Observation) (m : List Entry) → IsMap m → IsMap (index os m)
unfolding index
index-IsMap [] m h = h
index-IsMap (o ∷ os) m h = index-IsMap os (put (key o) o m) (put-IsMap o m h)

if_some :
    (b : Bool) (o : Observation) (d : Option Observation)
    → (if b then some o else d) ≡ elim (if b then some o else none) [ some p ↦ some p | none ↦ d ]
if_some true o d = refl
if_some false o d = refl

same_option : (o : Option Observation) → elim o [ some p ↦ some p | none ↦ none ] ≡ o
same_option none = refl
same_option (some p) = refl

lookup-index :
    (k : Text) (os : List Observation) (m : List Entry)
    → lookup k (index os m) ≡ elim (last_of k os) [ some o ↦ some o | none ↦ lookup k m ]
unfolding index
lookup-index k [] m = refl
lookup-index k (o ∷ os) m = elim (Option-cases (last_of k os)) [
  | inr (p, later) ↦ lookup-index k os (put (key o) o m) ∙ (rw (later, last_of))
  | inl none_later ↦
      lookup-index k os (put (key o) o m)
      ∙ (rw (none_later, last_of)
          (lookup-put k (key o) o m ∙ if_some (text_eq (key o) k) o (lookup k m)))
]

-- The entries in the order in which they came are one such order.
pub index-IsIteration : (os : List Observation) → IsIteration os (index os [])
index-IsIteration os = record {
  is_map = index-IsMap os [] tt;
  entries = λ k. lookup-index k os [] ∙ same_option (last_of k os);
}
