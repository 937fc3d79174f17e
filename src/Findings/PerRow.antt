-- ===== src/Findings/PerRow.antt =====
-- The reference for recordResult of internal/app/findings/findings.go: the loop that its comments
-- describe, with one existence check, one upsert and one insert for each failing row.
use corkscrew.Prelude.{ℕ, ◌+◌, ◌≡◌, not, List, [], ◌∷◌, ◌++◌, Text, All, if◌then◌else◌}
use corkscrew.Findings.Types.{
  ScanRecord, ResultRow, QueryResult, Finding, FindingRecord, Stored, Occurrence, Env,
}
use corkscrew.Findings.Tables.{has_row, upsert, insert_occurrence}
use corkscrew.Findings.Record.{finding_of, is_failing, fingerprint, stored_row, occurrence_row}

pub record Progress : Type 0 where
  pub findings : List Finding
  pub opened : ℕ
  pub recurred : ℕ
  pub table : List Stored
  pub occurrences : List Occurrence
  pub observed : List Text

module _ (env : Env) (scan : ScanRecord) (result : QueryResult) where
  -- A row by itself.
  abbrev pub record_of : ResultRow → FindingRecord
  record_of row = record {
    finding = finding_of env scan result row;
    occurrence_status = env.to_upper row.status;
    occurrence_first = finding_of env scan result row;
    row_count = 1;
  }

  abbrev pub key_of : ResultRow → Text
  key_of row = fingerprint env scan result.pack_ref row.control_id row.resource_id

  -- Rows that share a fingerprint are about the same control and resource.
  abbrev pub Agree : ResultRow → ResultRow → Type 0
  Agree a b = key_of a ≡ key_of b → (a.control_id ≡ b.control_id) × (a.resource_id ≡ b.resource_id)

  abbrev pub NoClash : List ResultRow → Type 0
  NoClash [] = Unit
  NoClash (a ∷ rows) = All (Agree a) rows × NoClash rows

module _ (env : Env) (scan : ScanRecord) (result : QueryResult) (evaluation_id : Text) where
  abbrev pub store_failing : ResultRow → Progress → Progress
  store_failing row p =
      let k = key_of env scan result row in
      let r = record_of env scan result row in
      record {
        findings = p.findings ++ finding_of env scan result row ∷ [];
        opened = if has_row k p.table then p.opened else p.opened + 1;
        recurred = if has_row k p.table then p.recurred + 1 else p.recurred;
        table = upsert (stored_row env scan r) p.table;
        occurrences = insert_occurrence (occurrence_row env scan evaluation_id k r) p.occurrences;
        observed = p.observed ++ k ∷ [];
      }

  unfoldable pub store_row : ResultRow → Progress → Progress
  store_row row p = if not (is_failing env scan row) then p else store_failing row p

  unfoldable pub store_rows : List ResultRow → Progress → Progress
  store_rows [] p = p
  store_rows (row ∷ rows) p = store_rows rows (store_row row p)
