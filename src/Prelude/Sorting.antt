-- ===== src/Prelude/Sorting.antt =====
-- sort.Strings: bytewise order, by insertion.
use corkscrew.Prelude.Tests.{◌==◌, ltb, if◌then◌else◌, Bool-cases}
use corkscrew.Prelude.Lists.{All}
use corkscrew.Prelude.Strings.{Text}
use mathlib.Core.Path.{◌≡◌, refl}
use mathlib.Core.Logic.{inl, inr}
use mathlib.Core.Bool.{Bool, true, false}
use mathlib.Core.List.{List, [], ◌∷◌, Perm}
use mathlib.Core.List.Perm
use native.Mathlib.Omega.{arith}

unfoldable pub text_le : Text → Text → Bool
text_le [] t = true
text_le (a ∷ s) [] = false
text_le (a ∷ s) (b ∷ t) = if ltb a b then true else if a == b then text_le s t else false

pub text_le_total : (s t : Text) → text_le s t ≡ false → text_le t s ≡ true
unfolding text_le
text_le_total [] t h = cc
text_le_total (a ∷ s) [] h = refl
text_le_total (a ∷ s) (b ∷ t) h = ground (arith, text_le_total s t)

pub text_le_trans : (s t u : Text) → text_le s t ≡ true → text_le t u ≡ true → text_le s u ≡ true
unfolding text_le
text_le_trans [] t u h k = refl
text_le_trans (a ∷ s) [] u h k = cc
text_le_trans (a ∷ s) (b ∷ t) [] h k = cc
text_le_trans (a ∷ s) (b ∷ t) (c ∷ u) h k = ground (arith, text_le_trans s t u)

pub text_le_refl : (s : Text) → text_le s s ≡ true
unfolding text_le
text_le_refl [] = refl
text_le_refl (a ∷ s) = ground (arith, text_le_refl s)

pub text_le_antisym : (s t : Text) → text_le s t ≡ true → text_le t s ≡ true → s ≡ t
unfolding text_le
text_le_antisym [] [] h k = refl
text_le_antisym [] (b ∷ t) h k = cc
text_le_antisym (a ∷ s) [] h k = cc
text_le_antisym (a ∷ s) (b ∷ t) h k = ground (arith, text_le_antisym s t)

insert_text : Text → List Text → List Text
insert_text s [] = s ∷ []
insert_text s (t ∷ r) = if text_le s t then s ∷ t ∷ r else t ∷ insert_text s r

unfoldable pub sort_texts : List Text → List Text
unfolding insert_text
sort_texts [] = []
sort_texts (s ∷ r) = insert_text s (sort_texts r)

insert_text-perm : (s : Text) (r : List Text) → Perm (insert_text s r) (s ∷ r)
unfolding insert_text
insert_text-perm s [] = Perm.refl (s ∷ [])
insert_text-perm s (t ∷ r) = elim (Bool-cases (text_le s t)) [
  | inl e ↦ rw (e, insert_text) (Perm.refl (s ∷ t ∷ r))
  | inr e ↦ rw (e, insert_text) (Perm.trans (Perm.cons t (insert_text-perm s r)) (Perm.swap s t r))
]

pub sort_texts-perm : (r : List Text) → Perm (sort_texts r) r
unfolding sort_texts
sort_texts-perm [] = Perm.refl []
sort_texts-perm (s ∷ r) =
    Perm.trans (insert_text-perm s (sort_texts r)) (Perm.cons s (sort_texts-perm r))

-- Each text is below all that follow it.
abbrev pub IsSorted : List Text → Type 0
IsSorted [] = Unit
IsSorted (s ∷ r) = All (λ t. text_le s t ≡ true) r × IsSorted r

All-insert_text :
    (P : Text → Type 0) (s : Text) (r : List Text) → P s → All P r → All P (insert_text s r)
unfolding insert_text
All-insert_text P s [] h k = (h, tt)
All-insert_text P s (t ∷ r) h k = elim (Bool-cases (text_le s t)) [
  | inl e ↦ rw (e, insert_text) (h, k)
  | inr e ↦ rw (e, insert_text) (k.0, All-insert_text P s r h k.1)
]

All-text_le_trans :
    (s t : Text) (r : List Text)
    → text_le s t ≡ true
    → All (λ u. text_le t u ≡ true) r
    → All (λ u. text_le s u ≡ true) r
All-text_le_trans s t [] h k = tt
All-text_le_trans s t (u ∷ r) h k = (text_le_trans s t u h k.0, All-text_le_trans s t r h k.1)

insert_text-IsSorted : (s : Text) (r : List Text) → IsSorted r → IsSorted (insert_text s r)
unfolding insert_text
insert_text-IsSorted s [] h = (tt, tt)
insert_text-IsSorted s (t ∷ r) h = elim (Bool-cases (text_le s t)) [
  | inl e ↦ rw (e, insert_text) ((e, All-text_le_trans s t r e h.0), h)
  | inr e ↦
      rw (e, insert_text)
        (All-insert_text _ s r (text_le_total s t e) h.0, insert_text-IsSorted s r h.1)
]

pub sort_texts-IsSorted : (r : List Text) → IsSorted (sort_texts r)
unfolding sort_texts
sort_texts-IsSorted [] = tt
sort_texts-IsSorted (s ∷ r) = insert_text-IsSorted s (sort_texts r) (sort_texts-IsSorted r)
