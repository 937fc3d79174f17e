-- ===== src/Findings/Synced.antt =====
-- internal/app/findings/findings.go: foldFailingRows keeps in step with the loop that writes each
-- failing row by itself.
use corkscrew.Prelude.{
  ◌+◌, ◌≡◌, refl, sym, ap, ◌∙◌, inl, inr, true, false, ◌||◌, none, some, List, [], ◌∷◌, ◌++◌, Text,
  text_eq, text_eq_iff, All, arith, Bool-cases, Option-cases,
}
use corkscrew.Findings.Types.{ScanRecord, ResultRow, QueryResult, Finding, FindingRecord, Env}
use corkscrew.Findings.Tables.{
  is_in, has_row, upsert, upsert_all, insert_occurrence, insert_occurrences,
}
use corkscrew.Findings.Tables.Upserts.{
  is_in-append, upsert_all-append, has_row-upsert_all_ne, insert_occurrences-append,
  insert_occurrence-of_has,
}
use corkscrew.Findings.Record.{
  Folded, find_record, bump, finding_of, is_failing, stored_row, occurrence_row, fold_row,
  fold_rows,
}
use corkscrew.Findings.PerRow.{
  Progress, record_of, key_of, Agree, NoClash, store_failing, store_row, store_rows,
}
use corkscrew.Findings.Folding.{
  keys_of, Unique, count_opened, count_recurred, rows_of, Shaped, rows_of-append, rows_of-Avoids,
  has_row-of_record, upsert_all-bump,
}
use corkscrew.Findings.Folding.Steps.{
  is_in-keys_of, keys_of-append, keys_of-bump, Unique-append, Unique-bump, count_opened-append,
  count_recurred-append, count_opened-bump, count_recurred-bump, Shaped-rest, Shaped-append,
  Shaped-bump,
}
use corkscrew.Findings.Folding.Occurrences.{
  occurrences_of, occurrences_of-append, occurrences_of-bump, has_occurrence-of_record,
}

module _ (env : Env) (scan : ScanRecord) (result : QueryResult) (evaluation_id : Text) where
  -- The records of the rows so far, against the progress of the loop row by row from `start`.
  pub record IsSynced (start : Progress) (rest : List ResultRow) (acc : Folded) (p : Progress)
      : Type 0 where
    pub order : acc.order ≡ keys_of acc.records
    pub findings : acc.findings ≡ p.findings
    pub opened : p.opened ≡ start.opened + count_opened start.table acc.records
    pub recurred : p.recurred ≡ start.recurred + count_recurred start.table acc.records
    pub table : p.table ≡ upsert_all (rows_of env scan acc.records) start.table
    pub occurrences :
        p.occurrences
        ≡ insert_occurrences (occurrences_of env scan evaluation_id acc.records) start.occurrences
    pub observed : (j : Text) → is_in j acc.order ≡ is_in j p.observed
    pub unique : Unique acc.records
    pub shaped : Shaped env scan result rest acc.records

  module _ (start : Progress) (rest : List ResultRow) (row : ResultRow) (acc : Folded)
      (p : Progress) (agrees : All (Agree env scan result row) rest)
      (h : IsSynced start (row ∷ rest) acc p) where
    abbrev k : Text
    k = key_of env scan result row

    abbrev f : Finding
    f = finding_of env scan result row

    abbrev x : FindingRecord
    x = record_of env scan result row

    abbrev new_record : Folded
    new_record = record {
      findings = acc.findings ++ f ∷ [];
      records = acc.records ++ (k, x) ∷ [];
      order = acc.order ++ k ∷ [];
    }

    abbrev seen_again : Folded
    seen_again = record {
      findings = acc.findings ++ f ∷ [];
      records = bump k f acc.records;
      order = acc.order;
    }

    same_row : find_record k acc.records ≡ none → has_row k p.table ≡ has_row k start.table
    same_row e =
        ap (has_row k) h.table
        ∙ has_row-upsert_all_ne k (rows_of env scan acc.records) start.table
            (rows_of-Avoids env scan result (row ∷ rest) k acc.records h.shaped e)

    in_last : (j : Text) → text_eq k j ≡ true → (is_in j p.observed || is_in j (k ∷ [])) ≡ true
    unfolding is_in
    in_last j e = ground (arith, e)

    not_last :
        (j : Text)
        → text_eq k j ≡ false
        → (is_in j p.observed || is_in j (k ∷ [])) ≡ is_in j p.observed
    unfolding is_in
    not_last j e = ground (arith, e)

    adds_key : (j : Text) → is_in j (acc.order ++ k ∷ []) ≡ is_in j (p.observed ++ k ∷ [])
    adds_key j =
        is_in-append j acc.order (k ∷ [])
        ∙ ap (λ b. b || is_in j (k ∷ [])) (h.observed j)
        ∙ sym (is_in-append j p.observed (k ∷ []))

    has_key :
        (r : FindingRecord)
        → find_record k acc.records ≡ some r
        → (j : Text) → is_in j acc.order ≡ is_in j (p.observed ++ k ∷ [])
    has_key r e j = elim (Bool-cases (text_eq k j)) [
      | inl same ↦
          ap (λ i. is_in i acc.order) (sym ((text_eq_iff k j).0 same))
          ∙ ap (is_in k) h.order
          ∙ is_in-keys_of k r acc.records e
          ∙ sym (is_in-append j p.observed (k ∷ []) ∙ in_last j same)
      | inr other ↦ h.observed j ∙ sym (is_in-append j p.observed (k ∷ []) ∙ not_last j other)
    ]

    new_record-IsSynced :
        find_record k acc.records ≡ none
        → IsSynced start rest new_record (store_failing env scan result evaluation_id row p)
    unfolding upsert_all insert_occurrences
    new_record-IsSynced e = record {
      order = ap (λ ks. ks ++ k ∷ []) h.order ∙ sym (keys_of-append acc.records k x);
      findings = ap (λ fs. fs ++ f ∷ []) h.findings;
      opened =
          ground (arith, h.opened, same_row e, count_opened-append start.table k x acc.records);
      recurred =
          ground (arith, h.recurred, same_row e, count_recurred-append start.table k x acc.records);
      table =
          ap (upsert (stored_row env scan x)) h.table
          ∙ sym (
              ap (λ rows. upsert_all rows start.table) (rows_of-append env scan acc.records k x)
              ∙ upsert_all-append (rows_of env scan acc.records) _ start.table);
      occurrences =
          ap (insert_occurrence (occurrence_row env scan evaluation_id k x)) h.occurrences
          ∙ sym (
              ap (λ rows. insert_occurrences rows start.occurrences)
                (occurrences_of-append env scan evaluation_id acc.records k x)
              ∙ insert_occurrences-append (occurrences_of env scan evaluation_id acc.records) _
                  start.occurrences);
      observed = λ j. adds_key j;
      unique = Unique-append k x acc.records h.unique e;
      shaped =
          Shaped-append env scan result rest k x acc.records
            (Shaped-rest env scan result rest row acc.records h.shaped)
            (record {
              row = row;
              finding = refl;
              key = refl;
              counted = omega arith;
              agrees = agrees;
            });
    }

    seen_again-IsSynced :
        (r : FindingRecord)
        → find_record k acc.records ≡ some r
        → IsSynced start rest seen_again (store_failing env scan result evaluation_id row p)
    seen_again-IsSynced r e =
        let here : has_row k p.table ≡ true =
          ap (has_row k) h.table
          ∙ has_row-of_record env scan result (row ∷ rest) k r acc.records start.table h.shaped e in
        let stored =
          ap (insert_occurrence (occurrence_row env scan evaluation_id k x)) h.occurrences
          ∙ insert_occurrence-of_has (occurrence_row env scan evaluation_id k x) _ (
              unfold occurrence_row in
              has_occurrence-of_record env scan evaluation_id k r acc.records start.occurrences
                e) in
        record {
          order = h.order ∙ sym (keys_of-bump k f acc.records);
          findings = ap (λ fs. fs ++ f ∷ []) h.findings;
          opened = ground (arith, here, h.opened, count_opened-bump start.table k f acc.records);
          recurred = ground (
            arith,
            here,
            h.recurred,
            count_recurred-bump env scan result (row ∷ rest) start.table k f r acc.records h.shaped
                e,
          );
          table =
              ap (upsert (stored_row env scan x)) h.table
              ∙ sym (
                  upsert_all-bump env scan result rest row r acc.records start.table h.shaped
                    h.unique e);
          occurrences =
              stored
              ∙ ap (λ rows. insert_occurrences rows start.occurrences)
                  (sym (occurrences_of-bump env scan evaluation_id k f acc.records));
          observed = λ j. has_key r e j;
          unique = Unique-bump k f acc.records h.unique;
          shaped =
              Shaped-bump env scan result rest row acc.records agrees
                (Shaped-rest env scan result rest row acc.records h.shaped);
        }

  IsSynced-skip :
      (start : Progress) (rest : List ResultRow) (row : ResultRow) (acc : Folded) (p : Progress)
      → IsSynced start (row ∷ rest) acc p
      → IsSynced start rest acc p
  IsSynced-skip start rest row acc p h = record {
    order = h.order;
    findings = h.findings;
    opened = h.opened;
    recurred = h.recurred;
    table = h.table;
    occurrences = h.occurrences;
    observed = h.observed;
    unique = h.unique;
    shaped = Shaped-rest env scan result rest row acc.records h.shaped;
  }

  fold_row-IsSynced :
      (start : Progress) (rest : List ResultRow) (row : ResultRow) (acc : Folded) (p : Progress)
      → All (Agree env scan result row) rest
      → IsSynced start (row ∷ rest) acc p
      → IsSynced start rest
          (fold_row env scan result row acc)
          (store_row env scan result evaluation_id row p)
  unfolding fold_row store_row finding_of
  fold_row-IsSynced start rest row acc p agrees h = elim (Bool-cases (is_failing env scan row)) [
    | inr passes ↦ rw passes (IsSynced-skip start rest row acc p h)
    | inl fails ↦ elim (Option-cases (find_record (key_of env scan result row) acc.records)) [
      | inl new ↦ rw (fails, new) (new_record-IsSynced start rest row acc p agrees h new)
      | inr (r, seen) ↦ rw (fails, seen) (seen_again-IsSynced start rest row acc p agrees h r seen)
    ]
  ]

  pub fold_rows-IsSynced :
      (start : Progress) (rows : List ResultRow) (acc : Folded) (p : Progress)
      → NoClash env scan result rows
      → IsSynced start rows acc p
      → IsSynced start []
          (fold_rows env scan result rows acc)
          (store_rows env scan result evaluation_id rows p)
  unfolding fold_rows store_rows
  fold_rows-IsSynced start [] acc p c h = h
  fold_rows-IsSynced start (row ∷ rows) acc p c h =
      fold_rows-IsSynced start rows _ _ c.1 (fold_row-IsSynced start rows row acc p c.0 h)
