-- ===== src/Drift/Determined.antt =====
-- internal/app/drift/drift.go: compare does not depend on the order of the loops over its maps.
use corkscrew.Prelude.{
  ◌≡◌, ◌≢◌, refl, sym, ap, ◌∙◌, inl, inr, true, List, [], ◌∷◌, arith, Text, text_eq, text_eq_refl,
  All, Bool-cases,
}
use corkscrew.Drift.Types.{Observation, Change}
use corkscrew.Drift.Order.{change_le, change_le_refl, change_le_antisym, AreSorted}
use corkscrew.Drift.Compare.{Entry, compare_entries}
use corkscrew.Drift.Maps.{IsIteration}
use corkscrew.Drift.Exact.{change_key, changes_of, compare_entries-IsComparison}

All-changes_of :
    (P : Change → Type 0) (k : Text) (cs : List Change) → All P cs → All P (changes_of k cs)
All-changes_of P k [] h = tt
All-changes_of P k (c ∷ cs) h = elim (Bool-cases (text_eq (change_key c) k)) [
  | inl own ↦ rw (own, changes_of) (h.0, All-changes_of P k cs h.1)
  | inr foreign ↦ rw (foreign, changes_of) (All-changes_of P k cs h.1)
]

changes_of_head :
    (c : Change) (cs : List Change)
    → changes_of (change_key c) (c ∷ cs) ≡ c ∷ changes_of (change_key c) cs
changes_of_head c cs = rw (text_eq_refl (change_key c), changes_of)

-- The first of a sorted list is below every change that some resource has in it.
below_first :
    (c d : Change) (cs ds : List Change)
    → AreSorted (d ∷ ds)
    → changes_of (change_key c) (c ∷ cs) ≡ changes_of (change_key c) (d ∷ ds)
    → change_le d c ≡ true
below_first c d cs ds h e =
    let all : All (λ x. change_le d x ≡ true) (changes_of (change_key c) (d ∷ ds)) =
      All-changes_of (λ x. change_le d x ≡ true) (change_key c) (d ∷ ds) (change_le_refl d, h.0) in
    let start : changes_of (change_key c) (d ∷ ds) ≡ c ∷ changes_of (change_key c) cs =
      sym e ∙ changes_of_head c cs in
    (rw start at all).0

same_tail :
    (c : Change) (cs ds : List Change) (k : Text)
    → changes_of k (c ∷ cs) ≡ changes_of k (c ∷ ds)
    → changes_of k cs ≡ changes_of k ds
same_tail c cs ds k e = ground arith

cons_ne_nil : (c : Change) (cs : List Change) → c ∷ cs ≢ []
cons_ne_nil c cs e = cc

sorted_unique :
    (cs ds : List Change)
    → AreSorted cs
    → AreSorted ds
    → ((k : Text) → changes_of k cs ≡ changes_of k ds)
    → cs ≡ ds
sorted_unique [] [] h k e = refl
sorted_unique [] (d ∷ ds) h k e =
    absurd (cons_ne_nil d _ (sym (changes_of_head d ds) ∙ sym (e (change_key d))))
sorted_unique (c ∷ cs) [] h k e =
    absurd (cons_ne_nil c _ (sym (changes_of_head c cs) ∙ e (change_key c)))
sorted_unique (c ∷ cs) (d ∷ ds) h k e =
    let (p, r) =
      change_le_antisym c d (below_first d c ds cs h (sym (e (change_key d))))
        (below_first c d cs ds k (e (change_key c))) in
    let own : change_key d ≡ change_key c = rw (p, r) in
    let heads : c ∷ changes_of (change_key c) cs ≡ d ∷ changes_of (change_key d) ds =
      sym (changes_of_head c cs)
      ∙ (e (change_key c) ∙ (ap (λ i. changes_of i (d ∷ ds)) (sym own) ∙ changes_of_head d ds)) in
    let same : c ≡ d = cc in
    let rest : cs ≡ ds = sorted_unique cs ds h.1 k.1 (λ i. same_tail c cs ds i (e i ∙ (rw same))) in
    cc

-- Two orders in which the loops go over the maps of the same two scans give the same list of
-- changes.
pub compare_entries_order_free :
    (before after : List Observation) (left right left' right' : List Entry)
    → IsIteration before left
    → IsIteration after right
    → IsIteration before left'
    → IsIteration after right'
    → compare_entries left right ≡ compare_entries left' right'
compare_entries_order_free before after left right left' right' l r l' r' =
    let c = compare_entries-IsComparison before after left right l r in
    let c' = compare_entries-IsComparison before after left' right' l' r' in
    sorted_unique (compare_entries left right) (compare_entries left' right') c.sorted c'.sorted
      (λ k. c.exact k ∙ sym (c'.exact k))
