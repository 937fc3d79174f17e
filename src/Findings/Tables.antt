-- ===== src/Findings/Tables.antt =====
-- internal/app/findings/findings.go: what the SQL statements of upsertFindings, insertOccurrences,
-- existingFingerprints and resolveAbsent do to the tables.
pub mod Upserts
pub mod Keyed
use corkscrew.Prelude.{
  ℕ, ◌+◌, Bool, true, false, ◌&&◌, ◌||◌, not, Option, none, some, List, [], ◌∷◌, ◌++◌, Text,
  text_eq, leb, if◌then◌else◌,
}
use corkscrew.Findings.Types.{
  ScanRecord, Finding, FindingRecord, Stored, Occurrence, Env, status_open, status_resolved,
}

-- A key of a Go map, and a fingerprint of an IN list.
unfoldable pub is_in : Text → List Text → Bool
is_in k [] = false
is_in k (j ∷ js) = text_eq j k || is_in k js

unfoldable pub has_row : Text → List Stored → Bool
has_row k [] = false
has_row k (s ∷ table) = text_eq s.fingerprint k || has_row k table

-- ON CONFLICT(fingerprint) DO UPDATE … WHERE excluded.last_seen_at >= findings.last_seen_at
unfoldable pub update_row : Stored → Stored → Stored
update_row excluded old =
    if leb old.last_seen_at excluded.last_seen_at
    then record old {
      title = excluded.title;
      severity = excluded.severity;
      details = excluded.details;
      remediation = excluded.remediation;
      status = status_open;
      last_seen_scan = excluded.last_seen_scan;
      last_seen_at = excluded.last_seen_at;
      resolved_at = none;
      occurrence_count = old.occurrence_count + excluded.occurrence_count;
    }
    else old

-- INSERT INTO findings of one row
unfoldable pub upsert : Stored → List Stored → List Stored
upsert row [] = row ∷ []
upsert row (s ∷ table) =
    if text_eq s.fingerprint row.fingerprint then update_row row s ∷ table else s ∷ upsert row table

unfoldable pub upsert_all : List Stored → List Stored → List Stored
upsert_all [] table = table
upsert_all (row ∷ rows) table = upsert_all rows (upsert row table)

-- ON CONFLICT(evaluation_id, fingerprint) DO NOTHING
unfoldable pub insert_occurrence : Occurrence → List Occurrence → List Occurrence
insert_occurrence o [] = o ∷ []
insert_occurrence o (p ∷ table) =
    if text_eq p.evaluation_id o.evaluation_id && text_eq p.fingerprint o.fingerprint
    then p ∷ table
    else p ∷ insert_occurrence o table

unfoldable pub insert_occurrences : List Occurrence → List Occurrence → List Occurrence
insert_occurrences [] table = table
insert_occurrences (o ∷ os) table = insert_occurrences os (insert_occurrence o table)

-- SELECT fingerprint FROM findings WHERE fingerprint IN (…)
unfoldable pub select_existing : List Text → List Stored → List Text
select_existing chunk [] = []
select_existing chunk (s ∷ table) =
    if is_in s.fingerprint chunk
    then s.fingerprint ∷ select_existing chunk table
    else select_existing chunk table

-- WHERE pack_ref = ? AND control_id = ? AND scope_key = ? AND status = 'open' AND last_seen_at <= ?
unfoldable pub is_candidate : Text → Text → ScanRecord → Stored → Bool
is_candidate pack_ref control_id scan s =
    text_eq s.pack_ref pack_ref
    && (text_eq s.control_id control_id
        && (text_eq s.scope_key scan.scope_key
            && (text_eq s.status status_open && leb s.last_seen_at scan.started_at)))

unfoldable pub select_candidates : Text → Text → ScanRecord → List Stored → List Text
select_candidates pack_ref control_id scan [] = []
select_candidates pack_ref control_id scan (s ∷ table) =
    if is_candidate pack_ref control_id scan s
    then s.fingerprint ∷ select_candidates pack_ref control_id scan table
    else select_candidates pack_ref control_id scan table

unfoldable pub resolve_row : ScanRecord → Stored → Stored
resolve_row scan s = record s { status = status_resolved; resolved_at = some scan.started_at }

-- UPDATE findings SET status = 'resolved', resolved_at = ? WHERE fingerprint = ?
unfoldable pub resolve : ScanRecord → Text → List Stored → List Stored
unfolding resolve_row
resolve scan k [] = []
resolve scan k (s ∷ table) =
    (if text_eq s.fingerprint k then resolve_row scan s else s) ∷ resolve scan k table

-- The rows affected by it.
unfoldable pub count_rows : Text → List Stored → ℕ
count_rows k [] = 0
count_rows k (s ∷ table) = (if text_eq s.fingerprint k then 1 else 0) + count_rows k table
