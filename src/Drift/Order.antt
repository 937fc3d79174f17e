-- ===== src/Drift/Order.antt =====
-- internal/app/drift/drift.go: the order of the changes, and their sort, by insertion.
use corkscrew.Prelude.{
  ◌≡◌, inl, inr, Bool, true, false, List, [], ◌∷◌, arith, Text, text_eq, text_eq_iff, text_eq_refl,
  text_le, text_le_refl, text_le_total, text_le_trans, text_le_antisym, All, if◌then◌else◌,
  Bool-cases,
}
use corkscrew.Drift.Types.{Change, type_text}

-- The less function of sort.Slice, or equal in all three of its fields.
unfoldable pub change_le : Change → Change → Bool
change_le a b =
    if text_eq a.provider b.provider
    then (if text_eq (type_text a.change_type) (type_text b.change_type)
        then text_le a.resource_id b.resource_id
        else text_le (type_text a.change_type) (type_text b.change_type))
    else text_le a.provider b.provider

unfoldable pub insert_change : Change → List Change → List Change
insert_change c [] = c ∷ []
insert_change c (d ∷ ds) = if change_le c d then c ∷ d ∷ ds else d ∷ insert_change c ds

unfoldable pub sort_changes : List Change → List Change
unfolding insert_change
sort_changes [] = []
sort_changes (c ∷ cs) = insert_change c (sort_changes cs)

lex_total :
    (a b : Text) (x y : Bool)
    → (x ≡ false → y ≡ true)
    → (if text_eq a b then x else text_le a b) ≡ false
    → (if text_eq b a then y else text_le b a) ≡ true
lex_total a b x y h e = ground (arith, text_eq_iff a b, text_eq_iff b a, text_le_total a b)

lex_trans :
    (a b c : Text) (x y z : Bool)
    → (x ≡ true → y ≡ true → z ≡ true)
    → (if text_eq a b then x else text_le a b) ≡ true
    → (if text_eq b c then y else text_le b c) ≡ true
    → (if text_eq a c then z else text_le a c) ≡ true
lex_trans a b c x y z h e f = ground (
  arith,
  text_eq_iff a b,
  text_eq_iff b c,
  text_eq_iff a c,
  text_le_trans a b c,
  text_le_antisym a b,
  text_le_antisym b c,
)

change_le_total : (c d : Change) → change_le c d ≡ false → change_le d c ≡ true
unfolding change_le
change_le_total c d h =
    lex_total c.provider d.provider _ _
      (lex_total (type_text c.change_type) (type_text d.change_type) _ _
        (text_le_total c.resource_id d.resource_id))
      h

change_le_trans :
    (c d e : Change) → change_le c d ≡ true → change_le d e ≡ true → change_le c e ≡ true
unfolding change_le
change_le_trans c d e h k =
    lex_trans c.provider d.provider e.provider _ _ _
      (lex_trans (type_text c.change_type) (type_text d.change_type) (type_text e.change_type) _ _ _
        (text_le_trans c.resource_id d.resource_id e.resource_id))
      h k

lex_antisym :
    (a b : Text) (x y : Bool)
    → (if text_eq a b then x else text_le a b) ≡ true
    → (if text_eq b a then y else text_le b a) ≡ true
    → (a ≡ b) × (x ≡ true) × (y ≡ true)
lex_antisym a b x y e f = ground (arith, text_eq_iff a b, text_eq_iff b a, text_le_antisym a b)

pub change_le_refl : (c : Change) → change_le c c ≡ true
unfolding change_le
change_le_refl c = ground (
  arith,
  text_eq_refl c.provider,
  text_eq_refl (type_text c.change_type),
  text_le_refl c.resource_id,
)

-- Changes that are below each other are about the same resource.
pub change_le_antisym :
    (c d : Change)
    → change_le c d ≡ true
    → change_le d c ≡ true
    → (c.provider ≡ d.provider) × (c.resource_id ≡ d.resource_id)
unfolding change_le
change_le_antisym c d h k =
    let (p, x, y) = lex_antisym c.provider d.provider _ _ h k in
    let (t, v, w) = lex_antisym (type_text c.change_type) (type_text d.change_type) _ _ x y in
    (p, text_le_antisym c.resource_id d.resource_id v w)

-- Each change is below all that follow it.
abbrev pub AreSorted : List Change → Type 0
AreSorted [] = Unit {0}
AreSorted (c ∷ cs) = All (λ d. change_le c d ≡ true) cs × AreSorted cs

All-insert_change :
    (P : Change → Type 0) (c : Change) (cs : List Change)
    → P c
    → All P cs
    → All P (insert_change c cs)
unfolding insert_change
All-insert_change P c [] h k = (h, tt)
All-insert_change P c (d ∷ ds) h k = elim (Bool-cases (change_le c d)) [
  | inl e ↦ rw (e, insert_change) (h, k)
  | inr e ↦ rw (e, insert_change) (k.0, All-insert_change P c ds h k.1)
]

All-change_le_trans :
    (c d : Change) (cs : List Change)
    → change_le c d ≡ true
    → All (λ e. change_le d e ≡ true) cs
    → All (λ e. change_le c e ≡ true) cs
All-change_le_trans c d [] h k = tt
All-change_le_trans c d (e ∷ cs) h k =
    (change_le_trans c d e h k.0, All-change_le_trans c d cs h k.1)

insert_change-AreSorted :
    (c : Change) (cs : List Change) → AreSorted cs → AreSorted (insert_change c cs)
unfolding insert_change
insert_change-AreSorted c [] h = (tt, tt)
insert_change-AreSorted c (d ∷ ds) h = elim (Bool-cases (change_le c d)) [
  | inl e ↦ rw (e, insert_change) ((e, All-change_le_trans c d ds e h.0), h)
  | inr e ↦
      rw (e, insert_change)
        (All-insert_change _ c ds (change_le_total c d e) h.0, insert_change-AreSorted c ds h.1)
]

pub sort_changes-AreSorted : (cs : List Change) → AreSorted (sort_changes cs)
unfolding sort_changes
sort_changes-AreSorted [] = tt
sort_changes-AreSorted (c ∷ cs) =
    insert_change-AreSorted c (sort_changes cs) (sort_changes-AreSorted cs)
