-- ===== src/Findings/Folding/Occurrences.antt =====
-- internal/app/findings/findings.go: the occurrences of the records of foldFailingRows.
use corkscrew.Prelude.{
  ◌≡◌, refl, ap, inl, inr, true, some, List, [], ◌∷◌, ◌++◌, Text, text_eq, text_eq_refl, arith,
  Bool-cases,
}
use corkscrew.Findings.Types.{ScanRecord, Finding, FindingRecord, Occurrence, Env}
use corkscrew.Findings.Tables.{insert_occurrences}
use corkscrew.Findings.Tables.Upserts.{
  has_occurrence, has_occurrence-insert_occurrence, has_occurrence-insert_occurrences,
}
use corkscrew.Findings.Record.{Records, find_record, bump, occurrence_row}

module _ (env : Env) (scan : ScanRecord) (evaluation_id : Text) where
  abbrev pub occurrences_of : Records → List Occurrence
  occurrences_of [] = []
  occurrences_of ((k, r) ∷ rs) = occurrence_row env scan evaluation_id k r ∷ occurrences_of rs

  pub occurrences_of-append :
      (rs : Records) (k : Text) (r : FindingRecord)
      → occurrences_of (rs ++ (k, r) ∷ [])
        ≡ occurrences_of rs ++ occurrence_row env scan evaluation_id k r ∷ []
  occurrences_of-append [] k r = refl
  occurrences_of-append ((j, q) ∷ rs) k r =
      ap (◌∷◌ (occurrence_row env scan evaluation_id j q)) (occurrences_of-append rs k r)

  pub occurrences_of-bump :
      (k : Text) (f : Finding) (rs : Records) → occurrences_of (bump k f rs) ≡ occurrences_of rs
  unfolding bump occurrence_row
  occurrences_of-bump k f [] = refl
  occurrences_of-bump k f ((j, q) ∷ rs) = ground (arith, occurrences_of-bump k f rs)

  pub has_occurrence-of_record :
      (k : Text) (r : FindingRecord) (rs : Records) (table : List Occurrence)
      → find_record k rs ≡ some r
      → has_occurrence evaluation_id k (insert_occurrences (occurrences_of rs) table) ≡ true
  unfolding find_record insert_occurrences occurrence_row
  has_occurrence-of_record k r [] table e = cc
  has_occurrence-of_record k r ((j, q) ∷ rs) table e = elim (Bool-cases (text_eq j k)) [
    | inl same ↦ has_occurrence-insert_occurrences evaluation_id k (occurrences_of rs) _ (
        ground (
          arith,
          same,
          text_eq_refl evaluation_id,
          has_occurrence-insert_occurrence evaluation_id k
              (occurrence_row env scan evaluation_id j q) table,
        ))
    | inr other ↦ has_occurrence-of_record k r rs _ (ground (arith, other))
  ]
