-- ===== src/Findings/Folding.antt =====
-- internal/app/findings/findings.go: the records of foldFailingRows, written once, are what the
-- rows write one after another.
pub mod Steps
pub mod Occurrences
use corkscrew.Prelude.{
  ℕ, ◌+◌, ◌-◌, ◌<◌, ◌≡◌, refl, sym, ap, ◌∙◌, inl, inr, Bool, true, false, ◌&&◌, ◌||◌, not, Option,
  none, some, List, [], ◌∷◌, ◌++◌, Text, text_eq, text_eq_iff, text_eq_refl, All, arith,
  if◌then◌else◌, Bool-cases,
}
use corkscrew.Findings.Types.{
  ScanRecord, ResultRow, QueryResult, Finding, FindingRecord, Stored, Occurrence, Env,
}
use corkscrew.Findings.Tables.{
  has_row, update_row, upsert, upsert_all, insert_occurrence, insert_occurrences,
}
use corkscrew.Findings.Tables.Upserts.{
  Avoids, upsert_all-append, has_row-upsert, has_row-upsert_all, has_row-upsert_all_ne,
  upsert-upsert_all, upsert-upsert, insert_occurrences-append, has_occurrence,
  has_occurrence-insert_occurrence, has_occurrence-insert_occurrences, insert_occurrence-of_has,
}
use corkscrew.Findings.Record.{
  Records, find_record, bump, finding_of, is_failing, fingerprint, stored_row, occurrence_row,
}
use corkscrew.Findings.PerRow.{record_of, key_of, Agree}

abbrev pub keys_of : Records → List Text
keys_of [] = []
keys_of ((k, r) ∷ rs) = k ∷ keys_of rs

-- No key has two records.
abbrev pub Unique : Records → Type 0
Unique [] = Unit
Unique ((k, r) ∷ rs) = (find_record k rs ≡ none) × Unique rs

-- How many records are new to a table, and how many rows are not the first of their finding.
abbrev pub count_opened : List Stored → Records → ℕ
count_opened table [] = 0
count_opened table ((k, r) ∷ rs) = (if has_row k table then 0 else 1) + count_opened table rs

abbrev pub count_recurred : List Stored → Records → ℕ
count_recurred table [] = 0
count_recurred table ((k, r) ∷ rs) =
    (if has_row k table then r.row_count else r.row_count - 1) + count_recurred table rs

module _ (env : Env) (scan : ScanRecord) where
  abbrev pub rows_of : Records → List Stored
  rows_of [] = []
  rows_of ((k, r) ∷ rs) = stored_row env scan r ∷ rows_of rs

  pub rows_of-append :
      (rs : Records) (k : Text) (r : FindingRecord)
      → rows_of (rs ++ (k, r) ∷ []) ≡ rows_of rs ++ stored_row env scan r ∷ []
  rows_of-append [] k r = refl
  rows_of-append ((j, q) ∷ rs) k r = ap (◌∷◌ (stored_row env scan q)) (rows_of-append rs k r)

module _ (env : Env) (scan : ScanRecord) (result : QueryResult) where
  -- The record of a key has the finding of a row, and the row agrees with those that follow.
  pub record IsOf (rest : List ResultRow) (k : Text) (r : FindingRecord) : Type 0 where
    pub row : ResultRow
    pub finding : r.finding ≡ finding_of env scan result row
    pub key : key_of env scan result row ≡ k
    pub counted : 0 < r.row_count
    pub agrees : All (Agree env scan result row) rest

  abbrev pub Shaped : List ResultRow → Records → Type 0
  Shaped rest [] = Unit
  Shaped rest ((k, r) ∷ rs) = IsOf rest k r × Shaped rest rs

  -- The record that is seen again has the row that both updates make.
  stored_row-bump :
      (rest : List ResultRow) (k : Text) (r : FindingRecord) (row : ResultRow)
      → IsOf (row ∷ rest) k r
      → key_of env scan result row ≡ k
      → stored_row env scan
          (record r { finding = finding_of env scan result row; row_count = r.row_count + 1 })
        ≡ update_row (stored_row env scan (record_of env scan result row)) (stored_row env scan r)
  unfolding stored_row finding_of update_row
  stored_row-bump rest k r row h e =
      let same = h.agrees.0 (h.key ∙ sym e) in ground (arith, h.finding, same.0, same.1)

  fingerprint-stored_row :
      (rest : List ResultRow) (k : Text) (r : FindingRecord)
      → IsOf rest k r
      → (stored_row env scan r).fingerprint ≡ k
  unfolding stored_row finding_of
  fingerprint-stored_row rest k r h = ap (λ (f : Finding). f.fingerprint) h.finding ∙ h.key

  -- A key without a record is no key of a row.
  pub rows_of-Avoids :
      (rest : List ResultRow) (k : Text) (rs : Records)
      → Shaped rest rs
      → find_record k rs ≡ none
      → Avoids k (rows_of env scan rs)
  unfolding find_record
  rows_of-Avoids rest k [] h e = tt
  rows_of-Avoids rest k ((j, r) ∷ rs) h e = elim (Bool-cases (text_eq j k)) [
    | inl same ↦ ground (arith, same)
    | inr other ↦ (
      rw (fingerprint-stored_row rest j r h.0) other,
      rows_of-Avoids rest k rs h.1 (ground (arith, other)),
    )
  ]

  -- A key with a record has a row.
  pub has_row-of_record :
      (rest : List ResultRow) (k : Text) (r : FindingRecord) (rs : Records) (table : List Stored)
      → Shaped rest rs
      → find_record k rs ≡ some r
      → has_row k (upsert_all (rows_of env scan rs) table) ≡ true
  unfolding find_record upsert_all
  has_row-of_record rest k r [] table h e = cc
  has_row-of_record rest k r ((j, q) ∷ rs) table h e = elim (Bool-cases (text_eq j k)) [
    | inl same ↦ has_row-upsert_all k (rows_of env scan rs) _ (
        has_row-upsert k (stored_row env scan q) table
        ∙ ap (λ b. b || has_row k table)
            (ap (λ t. text_eq t k) (fingerprint-stored_row rest j q h.0) ∙ same))
    | inr other ↦ has_row-of_record rest k r rs _ h.1 (ground (arith, other))
  ]

  -- The row of one more finding of a record, written after the record and after others.
  upsert_again :
      (rest : List ResultRow) (row : ResultRow) (q : FindingRecord) (rows table : List Stored)
      → IsOf (row ∷ rest) (key_of env scan result row) q
      → Avoids (key_of env scan result row) rows
      → upsert_all rows (
          upsert
            (stored_row env scan
              (record q { finding = finding_of env scan result row; row_count = q.row_count + 1 }))
            table)
        ≡ upsert
            (stored_row env scan (record_of env scan result row))
            (upsert_all rows (upsert (stored_row env scan q) table))
  unfolding stored_row finding_of
  upsert_again rest row q rows table h avoids =
      let k = key_of env scan result row in
      let x = stored_row env scan (record_of env scan result row) in
      let y = stored_row env scan q in
      let same : y.fingerprint ≡ k = fingerprint-stored_row (row ∷ rest) k q h in
      let here : has_row k (upsert y table) ≡ true =
        has_row-upsert k y table
        ∙ ap (λ t. text_eq t k || has_row k table) same
        ∙ ap (λ b. b || has_row k table) (text_eq_refl k) in
      let last : x.last_seen_at ≡ y.last_seen_at =
        ap (λ (f : Finding). f.last_seen_at) (sym h.finding) in
      sym (
        upsert-upsert_all x rows (upsert y table) here avoids
        ∙ ap (upsert_all rows) (
            upsert-upsert x y table (sym same) last
            ∙ ap (λ z. upsert z table) (sym (stored_row-bump rest k q row h refl))))

  -- Writing the records with one that is seen again is writing the records, and then its row.
  pub upsert_all-bump :
      (rest : List ResultRow) (row : ResultRow) (r : FindingRecord) (rs : Records)
      (table : List Stored)
      → Shaped (row ∷ rest) rs
      → Unique rs
      → find_record (key_of env scan result row) rs ≡ some r
      → upsert_all
          (rows_of env scan (bump (key_of env scan result row) (finding_of env scan result row) rs))
          table
        ≡ upsert
            (stored_row env scan (record_of env scan result row))
            (upsert_all (rows_of env scan rs) table)
  unfolding find_record bump upsert_all
  upsert_all-bump rest row r [] table h u e = cc
  upsert_all-bump rest row r ((j, q) ∷ rs) table h u e =
      elim (Bool-cases (text_eq j (key_of env scan result row))) [
        | inl same ↦
            let key : j ≡ key_of env scan result row = (text_eq_iff j _).0 same in
            rw same (
              upsert_again rest row q (rows_of env scan rs) table (rw (← key) h.0)
                (rows_of-Avoids (row ∷ rest) _ rs h.1 (rw (← key) u.0)))
        | inr other ↦ rw other (
            upsert_all-bump rest row r rs (upsert (stored_row env scan q) table) h.1 u.1
              (ground (arith, other)))
      ]
