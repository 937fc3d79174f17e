-- ===== src/Findings/Folding/Steps.antt =====
-- internal/app/findings/findings.go: what one more row does to the records of foldFailingRows.
use corkscrew.Prelude.{
  suc, ◌+◌, ◌-◌, ◌≡◌, refl, sym, ap, inl, inr, true, false, none, some, List, [], ◌∷◌, ◌++◌, Text,
  text_eq, text_eq_iff, All, arith, if◌then◌else◌, Bool-cases, length,
}
use corkscrew.Findings.Types.{
  ScanRecord, ResultRow, QueryResult, Finding, FindingRecord, Stored, Env,
}
use corkscrew.Findings.Tables.{is_in, has_row}
use corkscrew.Findings.Record.{Records, find_record, bump, finding_of}
use corkscrew.Findings.PerRow.{key_of, Agree}
use corkscrew.Findings.Folding.{keys_of, Unique, count_opened, count_recurred, IsOf, Shaped}

pub length-keys_of : (rs : Records) → length (keys_of rs) ≡ length rs
length-keys_of [] = refl
length-keys_of ((k, r) ∷ rs) = ap suc (length-keys_of rs)

pub keys_of-append :
    (rs : Records) (k : Text) (r : FindingRecord)
    → keys_of (rs ++ (k, r) ∷ []) ≡ keys_of rs ++ k ∷ []
keys_of-append [] k r = refl
keys_of-append ((j, q) ∷ rs) k r = ap (◌∷◌ j) (keys_of-append rs k r)

pub keys_of-bump : (k : Text) (f : Finding) (rs : Records) → keys_of (bump k f rs) ≡ keys_of rs
unfolding bump
keys_of-bump k f [] = refl
keys_of-bump k f ((j, q) ∷ rs) = ground (arith, keys_of-bump k f rs)

pub is_in-keys_of :
    (k : Text) (r : FindingRecord) (rs : Records)
    → find_record k rs ≡ some r
    → is_in k (keys_of rs) ≡ true
unfolding is_in find_record
is_in-keys_of k r [] e = cc
is_in-keys_of k r ((j, q) ∷ rs) e = ground (arith, is_in-keys_of k r rs)

find_record-append :
    (j k : Text) (r : FindingRecord) (rs : Records)
    → find_record j rs ≡ none
    → text_eq k j ≡ false
    → find_record j (rs ++ (k, r) ∷ []) ≡ none
unfolding find_record
find_record-append j k r [] h ne = ground (arith, ne)
find_record-append j k r ((i, q) ∷ rs) h ne = ground (arith, find_record-append j k r rs)

find_record-bump :
    (j k : Text) (f : Finding) (rs : Records)
    → find_record j rs ≡ none
    → find_record j (bump k f rs) ≡ none
unfolding find_record bump
find_record-bump j k f [] h = refl
find_record-bump j k f ((i, q) ∷ rs) h = ground (arith, find_record-bump j k f rs)

pub Unique-append :
    (k : Text) (r : FindingRecord) (rs : Records)
    → Unique rs
    → find_record k rs ≡ none
    → Unique (rs ++ (k, r) ∷ [])
unfolding find_record
Unique-append k r [] u h = (refl, tt)
Unique-append k r ((j, q) ∷ rs) u h = elim (Bool-cases (text_eq j k)) [
  | inl same ↦ ground (arith, same)
  | inr other ↦ (
    find_record-append j k r rs u.0 (ground (arith, text_eq_iff k j, text_eq_iff j k)),
    Unique-append k r rs u.1 (ground (arith, other)),
  )
]

pub Unique-bump : (k : Text) (f : Finding) (rs : Records) → Unique rs → Unique (bump k f rs)
unfolding bump
Unique-bump k f [] u = tt
Unique-bump k f ((j, q) ∷ rs) u = elim (Bool-cases (text_eq j k)) [
  | inl same ↦ rw same u
  | inr other ↦ rw other (find_record-bump j k f rs u.0, Unique-bump k f rs u.1)
]

pub count_opened-append :
    (table : List Stored) (k : Text) (r : FindingRecord) (rs : Records)
    → count_opened table (rs ++ (k, r) ∷ [])
      ≡ count_opened table rs + (if has_row k table then 0 else 1)
count_opened-append table k r [] = omega arith
count_opened-append table k r ((j, q) ∷ rs) = omega (arith, count_opened-append table k r rs)

pub count_recurred-append :
    (table : List Stored) (k : Text) (r : FindingRecord) (rs : Records)
    → count_recurred table (rs ++ (k, r) ∷ [])
      ≡ count_recurred table rs + (if has_row k table then r.row_count else r.row_count - 1)
count_recurred-append table k r [] = omega arith
count_recurred-append table k r ((j, q) ∷ rs) = omega (arith, count_recurred-append table k r rs)

pub count_opened-bump :
    (table : List Stored) (k : Text) (f : Finding) (rs : Records)
    → count_opened table (bump k f rs) ≡ count_opened table rs
unfolding bump
count_opened-bump table k f [] = refl
count_opened-bump table k f ((j, q) ∷ rs) = ground (arith, count_opened-bump table k f rs)

module _ (env : Env) (scan : ScanRecord) (result : QueryResult) where
  pub count_recurred-bump :
      (rest : List ResultRow) (table : List Stored) (k : Text) (f : Finding) (r : FindingRecord)
      (rs : Records)
      → Shaped env scan result rest rs
      → find_record k rs ≡ some r
      → count_recurred table (bump k f rs) ≡ count_recurred table rs + 1
  unfolding bump find_record
  count_recurred-bump rest table k f r [] h e = cc
  count_recurred-bump rest table k f r ((j, q) ∷ rs) h e =
      ground (arith, h.0.counted, count_recurred-bump rest table k f r rs h.1)

  -- A row that has been folded is no longer ahead.
  IsOf-rest :
      (rest : List ResultRow) (row : ResultRow) (k : Text) (r : FindingRecord)
      → IsOf env scan result (row ∷ rest) k r
      → IsOf env scan result rest k r
  IsOf-rest rest row k r h = record {
    row = h.row;
    finding = h.finding;
    key = h.key;
    counted = h.counted;
    agrees = h.agrees.1;
  }

  pub Shaped-rest :
      (rest : List ResultRow) (row : ResultRow) (rs : Records)
      → Shaped env scan result (row ∷ rest) rs
      → Shaped env scan result rest rs
  Shaped-rest rest row [] h = tt
  Shaped-rest rest row ((k, r) ∷ rs) h = (IsOf-rest rest row k r h.0, Shaped-rest rest row rs h.1)

  pub Shaped-append :
      (rest : List ResultRow) (k : Text) (r : FindingRecord) (rs : Records)
      → Shaped env scan result rest rs
      → IsOf env scan result rest k r
      → Shaped env scan result rest (rs ++ (k, r) ∷ [])
  Shaped-append rest k r [] h n = (n, tt)
  Shaped-append rest k r ((j, q) ∷ rs) h n = (h.0, Shaped-append rest k r rs h.1 n)

  pub Shaped-bump :
      (rest : List ResultRow) (row : ResultRow) (rs : Records)
      → All (Agree env scan result row) rest
      → Shaped env scan result rest rs
      → Shaped env scan result rest
          (bump (key_of env scan result row) (finding_of env scan result row) rs)
  unfolding bump
  Shaped-bump rest row [] a h = tt
  Shaped-bump rest row ((j, q) ∷ rs) a h =
      elim (Bool-cases (text_eq j (key_of env scan result row))) [
        | inl same ↦ rw same (
          (record {
            row = row;
            finding = refl;
            key = sym ((text_eq_iff j _).0 same);
            counted = omega arith;
            agrees = a;
          }),
          h.1,
        )
        | inr other ↦ rw other (h.0, Shaped-bump rest row rs a h.1)
      ]
