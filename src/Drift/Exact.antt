-- ===== src/Drift/Exact.antt =====
-- internal/app/drift/drift.go: compare finds exactly the changes.
use corkscrew.Prelude.{
  length, ◌≤◌, ◌≡◌, refl, sym, ap, ◌∙◌, inl, inr, true, false, Option, none, some, List, [], ◌∷◌,
  ◌++◌, arith, Text, text_eq, text_eq_iff, text_eq_ne, append-nil, if◌then◌else◌, Bool-cases,
}
use corkscrew.Drift.Types.{Observation, Change}
use corkscrew.Drift.Order.{insert_change, sort_changes, AreSorted, sort_changes-AreSorted}
use corkscrew.Drift.Compare.{
  Entry, key, lookup, removal, modification, addition, left_change, right_change, left_changes,
  right_changes, compare_entries,
}
use corkscrew.Drift.Maps.{last_of, IsMap, IsIteration}

-- The key of the resource that a change is about.
abbrev pub change_key : Change → Text
change_key c = c.provider ++ 0 ∷ c.resource_id

-- The changes of one resource.
abbrev pub changes_of : Text → List Change → List Change
changes_of k [] = []
changes_of k (c ∷ cs) = if text_eq (change_key c) k then c ∷ changes_of k cs else changes_of k cs

-- The change between what was last observed of a resource in the two scans.
abbrev pub expected : Option Observation → Option Observation → List Change
expected none none = []
expected none (some current) = addition current ∷ []
expected (some old) none = removal old ∷ []
expected (some old) (some current) =
    if text_eq old.semantic_hash current.semantic_hash then [] else modification old current ∷ []

empty_of_short : (cs : List Change) → length cs ≤ 0 → cs ≡ []
empty_of_short [] h = refl
empty_of_short (c ∷ cs) h = absurd (omega arith)

changes_of-append :
    (k : Text) (cs ds : List Change) → changes_of k (cs ++ ds) ≡ changes_of k cs ++ changes_of k ds
changes_of-append k [] ds = refl
changes_of-append k (c ∷ cs) ds = ground (arith, changes_of-append k cs ds)

changes_of-left_change :
    (k : Text) (old : Observation) (o : Option Observation)
    → changes_of k (left_change old o) ≡ (if text_eq (key old) k then left_change old o else [])
unfolding left_change removal modification
changes_of-left_change k old none = ground arith
changes_of-left_change k old (some current) = ground arith

changes_of-right_change :
    (k : Text) (current : Observation) (o : Option Observation)
    → changes_of k (right_change current o)
      ≡ (if text_eq (key current) k then right_change current o else [])
unfolding right_change addition
changes_of-right_change k current none = ground arith
changes_of-right_change k current (some old) = ground arith

abbrev on_some : Option Observation → (Observation → List Change) → List Change
on_some none f = []
on_some (some o) f = f o

changes_of-left_changes :
    (k : Text) (left right : List Entry)
    → IsMap left
    → changes_of k (left_changes left right)
      ≡ on_some (lookup k left) (λ o. left_change o (lookup k right))
unfolding left_changes
changes_of-left_changes k [] right h = refl
changes_of-left_changes k ((k', o) ∷ left) right h = elim (Bool-cases (text_eq k' k)) [
  | inl same ↦
      let equal : k' ≡ k = (text_eq_iff k' k).0 same in
      let own : text_eq (key o) k ≡ true = (text_eq_iff (key o) k).1 (sym h.0 ∙ equal) in
      let head : changes_of k (left_change o (lookup k' right)) ≡ left_change o (lookup k' right) =
        changes_of-left_change k o (lookup k' right) ∙ (rw own) in
      let gone : lookup k left ≡ none = rw equal at h.1 in
      let tail : changes_of k (left_changes left right) ≡ [] =
        changes_of-left_changes k left right h.2 ∙ (rw gone) in
      changes_of-append k (left_change o (lookup k' right)) (left_changes left right)
      ∙ (rw (head, tail, same) (append-nil _ ∙ ap (λ t. left_change o (lookup t right)) equal))
  | inr different ↦
      let foreign : text_eq (key o) k ≡ false =
        text_eq_ne (key o) k (λ e. ground (arith, h.0 ∙ e, text_eq_iff k' k)) in
      let head : changes_of k (left_change o (lookup k' right)) ≡ [] =
        changes_of-left_change k o (lookup k' right) ∙ (rw foreign) in
      changes_of-append k (left_change o (lookup k' right)) (left_changes left right)
      ∙ (rw (head, different) (changes_of-left_changes k left right h.2))
]

changes_of-right_changes :
    (k : Text) (right left : List Entry)
    → IsMap right
    → changes_of k (right_changes right left)
      ≡ on_some (lookup k right) (λ o. right_change o (lookup k left))
unfolding right_changes
changes_of-right_changes k [] left h = refl
changes_of-right_changes k ((k', o) ∷ right) left h = elim (Bool-cases (text_eq k' k)) [
  | inl same ↦
      let equal : k' ≡ k = (text_eq_iff k' k).0 same in
      let own : text_eq (key o) k ≡ true = (text_eq_iff (key o) k).1 (sym h.0 ∙ equal) in
      let head : changes_of k (right_change o (lookup k' left)) ≡ right_change o (lookup k' left) =
        changes_of-right_change k o (lookup k' left) ∙ (rw own) in
      let gone : lookup k right ≡ none = rw equal at h.1 in
      let tail : changes_of k (right_changes right left) ≡ [] =
        changes_of-right_changes k right left h.2 ∙ (rw gone) in
      changes_of-append k (right_change o (lookup k' left)) (right_changes right left)
      ∙ (rw (head, tail, same) (append-nil _ ∙ ap (λ t. right_change o (lookup t left)) equal))
  | inr different ↦
      let foreign : text_eq (key o) k ≡ false =
        text_eq_ne (key o) k (λ e. ground (arith, h.0 ∙ e, text_eq_iff k' k)) in
      let head : changes_of k (right_change o (lookup k' left)) ≡ [] =
        changes_of-right_change k o (lookup k' left) ∙ (rw foreign) in
      changes_of-append k (right_change o (lookup k' left)) (right_changes right left)
      ∙ (rw (head, different) (changes_of-right_changes k right left h.2))
]

insert_change-foreign :
    (k : Text) (c : Change) (ds : List Change)
    → text_eq (change_key c) k ≡ false
    → changes_of k (insert_change c ds) ≡ changes_of k ds
unfolding insert_change
insert_change-foreign k c [] h = rw h
insert_change-foreign k c (d ∷ ds) h = ground (arith, insert_change-foreign k c ds h)

insert_change-own :
    (k : Text) (c : Change) (ds : List Change)
    → text_eq (change_key c) k ≡ true
    → changes_of k ds ≡ []
    → changes_of k (insert_change c ds) ≡ c ∷ []
unfolding insert_change
insert_change-own k c [] h e = rw h
insert_change-own k c (d ∷ ds) h e = ground (arith, insert_change-own k c ds h)

-- Sorting keeps the changes of a resource that has at most one.
changes_of-sort_changes :
    (k : Text) (cs : List Change)
    → length (changes_of k cs) ≤ 1
    → changes_of k (sort_changes cs) ≡ changes_of k cs
unfolding sort_changes
changes_of-sort_changes k [] h = refl
changes_of-sort_changes k (c ∷ cs) h = elim (Bool-cases (text_eq (change_key c) k)) [
  | inl own ↦
      let alone : changes_of k cs ≡ [] = empty_of_short (changes_of k cs) (ground arith) in
      let sorted : changes_of k (sort_changes cs) ≡ [] =
        changes_of-sort_changes k cs (ground arith) ∙ alone in
      insert_change-own k c (sort_changes cs) own sorted ∙ (rw (own, alone))
  | inr foreign ↦
      insert_change-foreign k c (sort_changes cs) foreign
      ∙ (rw foreign (changes_of-sort_changes k cs (ground arith)))
]

-- What compare returns, for some order of the loops over the two maps.
pub record IsComparison (before after : List Observation) (cs : List Change) : Type 0 where
  pub exact : (k : Text) → changes_of k cs ≡ expected (last_of k before) (last_of k after)
  pub sorted : AreSorted cs

expected-short : (x y : Option Observation) → length (expected x y) ≤ 1
expected-short none none = omega arith
expected-short none (some current) = omega arith
expected-short (some old) none = omega arith
expected-short (some old) (some current) = ground arith

expected-changes :
    (x y : Option Observation)
    → on_some x (λ o. left_change o y) ++ on_some y (λ o. right_change o x) ≡ expected x y
unfolding left_change right_change
expected-changes none none = refl
expected-changes none (some current) = refl
expected-changes (some old) none = refl
expected-changes (some old) (some current) = append-nil _

-- Whatever the order in which the loops go over the two maps, the changes of each resource are
-- exactly the one between what the two scans observed of it last: a removal, an addition, a
-- modification if the semantic hashes differ, or none; and the changes are sorted by provider,
-- type of change and resource.
pub compare_entries-IsComparison :
    (before after : List Observation) (left right : List Entry)
    → IsIteration before left
    → IsIteration after right
    → IsComparison before after (compare_entries left right)
unfolding compare_entries
compare_entries-IsComparison before after left right l r =
    let unsorted : (k : Text)
        → changes_of k (left_changes left right ++ right_changes right left)
          ≡ expected (last_of k before) (last_of k after) =
      λ k.
        changes_of-append k (left_changes left right) (right_changes right left)
        ∙ (rw
            (
              changes_of-left_changes k left right l.is_map,
              changes_of-right_changes k right left r.is_map,
              l.entries k,
              r.entries k,
            )
            (expected-changes (last_of k before) (last_of k after))) in
    record {
      exact = λ k.
          changes_of-sort_changes k (left_changes left right ++ right_changes right left)
            (rw (unsorted k) (expected-short (last_of k before) (last_of k after)))
          ∙ unsorted k;
      sorted = sort_changes-AreSorted _;
    }
