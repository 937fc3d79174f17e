-- ===== src/Findings/Tables/Upserts.antt =====
-- How the statements that write the tables of findings go together.
use corkscrew.Prelude.{
  ◌≡◌, refl, ap, ◌∙◌, Bool, true, false, ◌&&◌, ◌||◌, List, [], ◌∷◌, ◌++◌, Text, text_eq,
  text_eq_iff, All, arith,
}
use corkscrew.Findings.Types.{Stored, Occurrence}
use corkscrew.Findings.Tables.{
  is_in, has_row, update_row, upsert, upsert_all, insert_occurrence, insert_occurrences,
}

pub is_in-append : (k : Text) (xs ys : List Text) → is_in k (xs ++ ys) ≡ (is_in k xs || is_in k ys)
unfolding is_in
is_in-append k [] ys = refl
is_in-append k (x ∷ xs) ys = ground (arith, is_in-append k xs ys)

-- `k` is the fingerprint of no row of a list.
abbrev pub Avoids : Text → List Stored → Type 0
Avoids k rows = All (λ row. text_eq row.fingerprint k ≡ false) rows

pub upsert_all-append :
    (xs ys table : List Stored) → upsert_all (xs ++ ys) table ≡ upsert_all ys (upsert_all xs table)
unfolding upsert_all
upsert_all-append [] ys table = refl
upsert_all-append (x ∷ xs) ys table = upsert_all-append xs ys (upsert x table)

pub fingerprint-update_row : (a b : Stored) → (update_row a b).fingerprint ≡ b.fingerprint
unfolding update_row
fingerprint-update_row a b = ground arith

pub has_row-upsert :
    (k : Text) (a : Stored) (table : List Stored)
    → has_row k (upsert a table) ≡ (text_eq a.fingerprint k || has_row k table)
unfolding has_row upsert
has_row-upsert k a [] = refl
has_row-upsert k a (s ∷ table) = ground (
  arith,
  has_row-upsert k a table,
  fingerprint-update_row a s,
  text_eq_iff s.fingerprint a.fingerprint,
)

pub has_row-upsert_all :
    (k : Text) (rows table : List Stored)
    → has_row k table ≡ true
    → has_row k (upsert_all rows table) ≡ true
unfolding upsert_all
has_row-upsert_all k [] table h = h
has_row-upsert_all k (a ∷ rows) table h =
    has_row-upsert_all k rows (upsert a table) (ground (arith, has_row-upsert k a table))

pub has_row-upsert_all_ne :
    (k : Text) (rows table : List Stored)
    → Avoids k rows
    → has_row k (upsert_all rows table) ≡ has_row k table
unfolding upsert_all
has_row-upsert_all_ne k [] table h = refl
has_row-upsert_all_ne k (a ∷ rows) table h =
    has_row-upsert_all_ne k rows (upsert a table) h.1
    ∙ has_row-upsert k a table
    ∙ ap (λ b. b || has_row k table) h.0

-- Rows of different keys go in either order, if one of them has a row already.
upsert_comm :
    (a b : Stored) (table : List Stored)
    → has_row a.fingerprint table ≡ true
    → text_eq b.fingerprint a.fingerprint ≡ false
    → upsert a (upsert b table) ≡ upsert b (upsert a table)
unfolding has_row upsert
upsert_comm a b [] h ne = cc
upsert_comm a b (s ∷ table) h ne = ground (
  arith,
  upsert_comm a b table,
  fingerprint-update_row a s,
  fingerprint-update_row b s,
  text_eq_iff s.fingerprint a.fingerprint,
  text_eq_iff s.fingerprint b.fingerprint,
  text_eq_iff b.fingerprint a.fingerprint,
)

pub upsert-upsert_all :
    (a : Stored) (rows table : List Stored)
    → has_row a.fingerprint table ≡ true
    → Avoids a.fingerprint rows
    → upsert a (upsert_all rows table) ≡ upsert_all rows (upsert a table)
unfolding upsert_all
upsert-upsert_all a [] table h ne = refl
upsert-upsert_all a (b ∷ rows) table h ne =
    upsert-upsert_all a rows (upsert b table) (ground (arith, has_row-upsert a.fingerprint b table))
      ne.1
    ∙ ap (upsert_all rows) (upsert_comm a b table h ne.0)

-- Two updates of the same time are one.
update_row-update_row :
    (a b s : Stored)
    → a.last_seen_at ≡ b.last_seen_at
    → update_row a (update_row b s) ≡ update_row (update_row a b) s
unfolding update_row
update_row-update_row a b s e = ground arith

pub upsert-upsert :
    (a b : Stored) (table : List Stored)
    → a.fingerprint ≡ b.fingerprint
    → a.last_seen_at ≡ b.last_seen_at
    → upsert a (upsert b table) ≡ upsert (update_row a b) table
unfolding upsert
upsert-upsert a b [] k e = ground (arith, text_eq_iff b.fingerprint a.fingerprint)
upsert-upsert a b (s ∷ table) k e = ground (
  arith,
  upsert-upsert a b table,
  fingerprint-update_row a b,
  fingerprint-update_row b s,
  update_row-update_row a b s,
  text_eq_iff s.fingerprint a.fingerprint,
  text_eq_iff s.fingerprint b.fingerprint,
)

pub insert_occurrences-append :
    (xs ys table : List Occurrence)
    → insert_occurrences (xs ++ ys) table ≡ insert_occurrences ys (insert_occurrences xs table)
unfolding insert_occurrences
insert_occurrences-append [] ys table = refl
insert_occurrences-append (x ∷ xs) ys table =
    insert_occurrences-append xs ys (insert_occurrence x table)

abbrev pub has_occurrence : Text → Text → List Occurrence → Bool
has_occurrence e k [] = false
has_occurrence e k (p ∷ table) =
    (text_eq p.evaluation_id e && text_eq p.fingerprint k) || has_occurrence e k table

pub has_occurrence-insert_occurrence :
    (e k : Text) (o : Occurrence) (table : List Occurrence)
    → has_occurrence e k (insert_occurrence o table)
      ≡ ((text_eq o.evaluation_id e && text_eq o.fingerprint k) || has_occurrence e k table)
unfolding insert_occurrence
has_occurrence-insert_occurrence e k o [] = refl
has_occurrence-insert_occurrence e k o (p ∷ table) = ground (
  arith,
  has_occurrence-insert_occurrence e k o table,
  text_eq_iff p.evaluation_id o.evaluation_id,
  text_eq_iff p.fingerprint o.fingerprint,
)

pub has_occurrence-insert_occurrences :
    (e k : Text) (os table : List Occurrence)
    → has_occurrence e k table ≡ true
    → has_occurrence e k (insert_occurrences os table) ≡ true
unfolding insert_occurrences
has_occurrence-insert_occurrences e k [] table h = h
has_occurrence-insert_occurrences e k (o ∷ os) table h =
    has_occurrence-insert_occurrences e k os (insert_occurrence o table)
      (ground (arith, has_occurrence-insert_occurrence e k o table))

-- The first occurrence of a key stays.
pub insert_occurrence-of_has :
    (o : Occurrence) (table : List Occurrence)
    → has_occurrence o.evaluation_id o.fingerprint table ≡ true
    → insert_occurrence o table ≡ table
unfolding insert_occurrence
insert_occurrence-of_has o [] h = cc
insert_occurrence-of_has o (p ∷ table) h = ground (arith, insert_occurrence-of_has o table)
