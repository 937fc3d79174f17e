-- ===== src/Findings/Batches.antt =====
-- internal/app/findings/findings.go: existingFingerprints, upsertFindings and insertOccurrences, as
-- recordResult calls them on one chunk of fingerprints after another.
pub mod Lookups
pub mod Written
pub mod Chunks
pub mod Refines
use corkscrew.Prelude.{
  ℕ, zero, suc, Bool, true, false, not, Option, none, some, List, [], ◌∷◌, ◌++◌, Text, text_eq,
  length, take, drop, ltb, leb, if◌then◌else◌, ◌+◌, ◌-◌, ◌==◌,
}
use corkscrew.Findings.Types.{
  ScanRecord, QueryResult, Evaluation, FindingRecord, Stored, Occurrence, Env,
}
use corkscrew.Findings.Tables.{is_in, upsert_all, insert_occurrences, select_existing}
use corkscrew.Findings.Attempt.{
  Tx, Attempt, ok, rolled_back, panicked, M, pure, bind, ◌>>=◌, ◌>>◌, assert_that, statement,
}
use corkscrew.Findings.Record.{
  batch_max, Records, find_record, upsert_args, occurrence_args, Folded, fold_failing_rows,
}

-- The chunks order[start:min(start+256, len)], with fuel for their number.
unfoldable pub chunks : ℕ → List Text → List (List Text)
chunks zero order = []
chunks (suc n) [] = []
chunks (suc n) (k ∷ ks) = take batch_max (k ∷ ks) ∷ chunks n (drop batch_max (k ∷ ks))

abbrev pub chunks_of : List Text → List (List Text)
chunks_of order = chunks (length order) order

module _ (fails : ℕ → Bool) where
  -- existingFingerprints: the keys that are set in the map afterwards.
  unfoldable pub existing_fingerprints : List Text → List Text → M (List Text)
  existing_fingerprints [] existing = pure existing
  existing_fingerprints (k ∷ ks) existing = do
    assert_that (leb (length (k ∷ ks)) batch_max)
    found ← statement fails (λ t. (select_existing (k ∷ ks) t.findings, t))
    pure (existing ++ found)

  unfoldable pub all_existing : List (List Text) → List Text → M (List Text)
  all_existing [] existing = pure existing
  all_existing (chunk ∷ rest) existing = do
    existing' ← existing_fingerprints chunk existing
    all_existing rest existing'

  -- upsertFindings
  unfoldable pub upsert_findings : Env → ScanRecord → Records → List Text → M (Unit {0})
  upsert_findings env scan records chunk = do
    assert_that (ltb 0 (length chunk))
    assert_that (leb (length chunk) batch_max)
    rows ← upsert_args env scan records chunk
    statement fails (λ t. (tt, record t { findings = upsert_all rows t.findings }))

  -- insertOccurrences
  unfoldable pub insert_all : Env → ScanRecord → Text → Records → List Text → M (Unit {0})
  insert_all env scan evaluation_id records chunk = do
    assert_that (ltb 0 (length chunk))
    assert_that (leb (length chunk) batch_max)
    assert_that (not (text_eq evaluation_id []))
    rows ← occurrence_args env scan evaluation_id records chunk
    statement fails (λ t. (tt, record t { occurrences = insert_occurrences rows t.occurrences }))

  unfoldable pub write_chunks : Env → ScanRecord → Text → Records → List (List Text) → M (Unit {0})
  write_chunks env scan evaluation_id records [] = pure tt
  write_chunks env scan evaluation_id records (chunk ∷ rest) = do
    upsert_findings env scan records chunk
    insert_all env scan evaluation_id records chunk
    write_chunks env scan evaluation_id records rest

-- The loop that counts what was opened and what recurred, over the fingerprints in order.
unfoldable pub count_order : Records → List Text → List Text → Evaluation → M Evaluation
count_order records existing [] evaluation = pure evaluation
count_order records existing (k ∷ ks) evaluation = elim (find_record k records) [
  | none ↦ λ t. panicked
  | some r ↦ count_order records existing ks (
      if is_in k existing
      then record evaluation { recurred = evaluation.recurred + r.row_count }
      else record evaluation {
        opened = evaluation.opened + 1;
        recurred = evaluation.recurred + (r.row_count - 1);
      })
]

-- A map's keys, where each is set once.
unfoldable pub observe : List Text → List Text → List Text
observe [] observed = observed
observe (k ∷ ks) observed = observe ks (if is_in k observed then observed else observed ++ k ∷ [])

-- err == nil
unfoldable pub is_nil : Option Text → Bool
is_nil none = true
is_nil (some e) = false

module _ (fails : ℕ → Bool) (env : Env) (scan : ScanRecord) where
  -- recordResult once the rows are folded.
  unfoldable pub record_folded : Evaluation → Folded → M (Evaluation × List Text)
  record_folded evaluation acc = do
    existing ← all_existing fails (chunks_of acc.order) []
    counted ← count_order acc.records existing acc.order evaluation
    let observed = observe acc.order []
    write_chunks fails env scan counted.id acc.records (chunks_of acc.order)
    assert_that (length observed == length acc.records)
    pure (counted, observed)

  -- recordResult: the evaluation and the fingerprints observed.
  unfoldable pub record_result : QueryResult → Evaluation → M (Evaluation × List Text)
  record_result result evaluation = do
    assert_that (is_nil result.error)
    acc ← fold_failing_rows env scan result evaluation
    record_folded (record evaluation { findings = acc.findings }) acc
