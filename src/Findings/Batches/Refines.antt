-- ===== src/Findings/Batches/Refines.antt =====
-- internal/app/findings/findings.go: recordResult, with its batches, does what the loop row by row
-- does.
use mathlib.Core.Path.{subst}
use corkscrew.Prelude.{
  ℕ, ◌+◌, ◌≡◌, ◌≢◌, refl, sym, ap, ◌∙◌, Bool, true, false, ◌&&◌, none, List, [], ◌∷◌, ◌++◌, Text,
  All, arith, length, ◌==◌, All-map, append_assoc, text_eq_refl,
}
use corkscrew.Findings.Types.{ScanRecord, QueryResult, Evaluation, Finding, Env}
use corkscrew.Findings.Tables.{is_in, has_row, upsert_all, insert_occurrences}
use corkscrew.Findings.Tables.Upserts.{is_in-append}
use corkscrew.Findings.Attempt.{Tx, ok, bind, assert_that, Ensures, Ensures-pure, Ensures-bind}
use corkscrew.Findings.Record.{Records, Folded, fold_rows, fold_failing_rows}
use corkscrew.Findings.PerRow.{Progress, NoClash, store_rows}
use corkscrew.Findings.Synced.{IsSynced, fold_rows-IsSynced}
use corkscrew.Findings.Folding.{keys_of, count_opened, count_recurred, rows_of}
use corkscrew.Findings.Folding.Steps.{length-keys_of}
use corkscrew.Findings.Folding.Occurrences.{occurrences_of}
use corkscrew.Findings.Batches.{
  chunks_of, all_existing, observe, write_chunks, is_nil, record_folded, record_result,
}
use corkscrew.Findings.Batches.Lookups.{IsLookup, all_existing-IsLookup}
use corkscrew.Findings.Batches.Written.{Finds-self, count_order-eq, observe-eq}
use corkscrew.Findings.Batches.Chunks.{IsWritten, write_chunks-IsWritten}

-- The state before the first row.
abbrev pub start_of : Evaluation → Tx → Progress
start_of evaluation t = record {
  findings = evaluation.findings;
  opened = evaluation.opened;
  recurred = evaluation.recurred;
  table = t.findings;
  occurrences = t.occurrences;
  observed = [];
}

abbrev pub end_of : Env → ScanRecord → QueryResult → Evaluation → Tx → Progress
end_of env scan result evaluation t =
    store_rows env scan result evaluation.id result.rows (start_of evaluation t)

all_in : (before ks : List Text) → All (λ k. is_in k (before ++ ks) ≡ true) ks
unfolding is_in
all_in before [] = tt
all_in before (k ∷ ks) = (
  is_in-append k before (k ∷ ks) ∙ ground (arith, text_eq_refl k),
  All-map _ _ (λ j h. ap (is_in j) (sym (append_assoc before (k ∷ []) ks)) ∙ h) ks
      (all_in (before ++ k ∷ []) ks),
)

none_in : (ks : List Text) → All (λ k. is_in k [] ≡ false) ks
unfolding is_in
none_in [] = tt
none_in (k ∷ ks) = (refl, none_in ks)

module _ (fails : ℕ → Bool) (env : Env) (scan : ScanRecord) (result : QueryResult)
    (evaluation : Evaluation) (t : Tx) where
  -- The evaluation and the tables are those of the loop row by row.
  pub record IsPerRow (out : Evaluation × List Text) (t' : Tx) : Type 0 where
    pub evaluated : out.0 ≡ record evaluation {
      opened = (end_of env scan result evaluation t).opened;
      recurred = (end_of env scan result evaluation t).recurred;
      findings = (end_of env scan result evaluation t).findings;
    }
    pub table : t'.findings ≡ (end_of env scan result evaluation t).table
    pub occurrences : t'.occurrences ≡ (end_of env scan result evaluation t).occurrences
    pub observed :
        (k : Text) → is_in k out.1 ≡ is_in k (end_of env scan result evaluation t).observed

  abbrev folded : List Finding → Records → Folded
  folded findings records = record {
    findings = findings;
    records = records;
    order = keys_of records;
  }

  -- recordResult after the rows were folded.
  module _ (findings : List Finding) (records : Records) (named : evaluation.id ≢ [])
      (s : IsSynced env scan result evaluation.id
        (start_of evaluation t)
        []
        (folded findings records)
        (end_of env scan result evaluation t)) where
    looked_up :
        (existing : List Text) (t' : Tx)
        → IsLookup t (keys_of records) [] existing t'
        → All (λ k. is_in k existing ≡ has_row k t.findings) (keys_of records)
    unfolding is_in
    looked_up existing t' h =
        All-map _ _ (λ k here. h.found k ∙ ap (λ b. b && has_row k t.findings) here)
          (keys_of records) (all_in [] (keys_of records))

    observed_all : observe (keys_of records) [] ≡ keys_of records
    observed_all = observe-eq records [] s.unique (none_in (keys_of records))

    abbrev counted : Evaluation
    counted = record evaluation {
      opened = evaluation.opened + count_opened t.findings records;
      recurred = evaluation.recurred + count_recurred t.findings records;
      findings = findings;
    }

    same_length : (length (keys_of records) == length records) ≡ true
    same_length = ground (arith, length-keys_of records)

    result_IsPerRow :
        (existing : List Text) (t' t'' : Tx)
        → IsLookup t (keys_of records) [] existing t'
        → IsWritten fails env scan evaluation.id records named records t' tt t''
        → IsPerRow (counted, keys_of records) t''
    result_IsPerRow existing t' t'' look written = record {
      evaluated = ground (arith, s.findings, s.opened, s.recurred);
      table =
          written.findings
          ∙ ap (upsert_all (rows_of env scan records)) look.same.findings
          ∙ sym s.table;
      occurrences =
          written.occurrences
          ∙ ap (insert_occurrences (occurrences_of env scan evaluation.id records))
              look.same.occurrences
          ∙ sym s.occurrences;
      observed = s.observed;
    }

    record_folded-IsPerRow : Ensures fails t IsPerRow (
        record_folded fails env scan
          (record evaluation { findings = findings })
          (folded findings records)
          t)
    unfolding record_folded
    record_folded-IsPerRow =
        Ensures-bind fails t (IsLookup t (keys_of records) []) IsPerRow
          (all_existing fails (chunks_of (keys_of records)) [] t) _
          (all_existing-IsLookup fails (length (keys_of records)) t (keys_of records) []
            (omega arith))
          (λ existing t' look.
            rw
              (
                count_order-eq records records existing t.findings
                    (record evaluation { findings = findings }) t'
                    (Finds-self env scan result records s.unique s.shaped)
                    (looked_up existing t' look),
                observed_all,
                same_length,
              )
              (Ensures-bind fails t'
                (IsWritten fails env scan evaluation.id records named records t') IsPerRow
                (write_chunks fails env scan evaluation.id records (chunks_of (keys_of records)) t')
                (λ u u'. ok (counted, keys_of records) u')
                (write_chunks-IsWritten fails env scan evaluation.id records named
                  (length (keys_of records)) records t'
                  (Finds-self env scan result records s.unique s.shaped)
                  (omega (arith, length-keys_of records)))
                (λ u t'' written.
                  Ensures-pure fails IsPerRow (counted, keys_of records) t''
                    (result_IsPerRow existing t' t'' look written))))

  abbrev Syncs : Folded → Type 0
  Syncs acc =
      IsSynced env scan result evaluation.id (start_of evaluation t) [] acc
        (end_of env scan result evaluation t)

  start_IsSynced :
      IsSynced env scan result evaluation.id
        (start_of evaluation t)
        result.rows
        (folded evaluation.findings [])
        (start_of evaluation t)
  unfolding upsert_all insert_occurrences
  start_IsSynced = record {
    order = refl;
    findings = refl;
    opened = omega arith;
    recurred = omega arith;
    table = refl;
    occurrences = refl;
    observed = λ j. refl;
    unique = tt;
    shaped = tt;
  }

  after_fold :
      (acc : Folded)
      → evaluation.id ≢ []
      → IsSynced env scan result evaluation.id
          (start_of evaluation t)
          []
          acc
          (end_of env scan result evaluation t)
      → Ensures fails t IsPerRow (
          bind
            (bind (assert_that (length acc.order == length acc.records) t) (λ u t'. ok acc t'))
            (λ a. record_folded fails env scan (record evaluation { findings = a.findings }) a))
  after_fold acc named s =
      let e : folded acc.findings acc.records ≡ acc =
        ap
          (λ (o : List Text).
            let a : Folded = record { findings = acc.findings; records = acc.records; order = o } in
            a)
          (sym s.order) in
      subst
        (λ (a : Folded). Ensures fails t IsPerRow (
          bind (bind (assert_that (length a.order == length a.records) t) (λ u t'. ok a t'))
            (λ b. record_folded fails env scan (record evaluation { findings = b.findings }) b)))
        e
        (rw (same_length acc.findings acc.records named (subst Syncs (sym e) s))
          (record_folded-IsPerRow acc.findings acc.records named (subst Syncs (sym e) s)))

  -- For an evaluation with an id, and a result without an error whose rows are about the same
  -- control and resource whenever they share a fingerprint: recordResult fails no assertion, and it
  -- rolls back only if the database refuses one of the statements that it executes itself, at the
  -- first one that is refused. Otherwise none of them was refused, and the batched statements leave both tables as the loop
  -- does that checks, upserts and inserts for each failing row by itself, and the counts, the
  -- findings reported and the fingerprints observed are those of that loop.
  pub record_result-IsPerRow :
      result.error ≡ none
      → evaluation.id ≢ []
      → NoClash env scan result result.rows
      → Ensures fails t IsPerRow (record_result fails env scan result evaluation t)
  unfolding record_result fold_failing_rows is_nil
  record_result-IsPerRow good named clear =
      let success : is_nil result.error ≡ true = ap is_nil good in
      rw success (
        after_fold (fold_rows env scan result result.rows (folded evaluation.findings [])) named (
          fold_rows-IsSynced env scan result evaluation.id (start_of evaluation t) result.rows
            (folded evaluation.findings []) (start_of evaluation t) clear start_IsSynced))
