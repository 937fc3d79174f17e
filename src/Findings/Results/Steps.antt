-- ===== src/Findings/Results/Steps.antt =====
-- internal/app/findings/findings.go: what one control result does to the tables, and the rule by
-- which recordResults keeps what each result keeps.
use corkscrew.Prelude.{
  ℕ, ◌+◌, ◌≡◌, ◌≢◌, ap, ◌∙◌, inl, inr, Bool, ◌&&◌, not, Bool-cases, Option, none, List, [], ◌∷◌,
  Text, arith,
}
use corkscrew.Findings.Types.{ScanRecord, ResultRow, QueryResult, Evaluation, Stored, Env}
use corkscrew.Findings.Tables.{is_in, is_candidate, select_candidates}
use corkscrew.Findings.Tables.Keyed.{IsKeyed, upsert-IsKeyed}
use corkscrew.Findings.Attempt.{Tx, Ensures, Ensures-pure, Ensures-bind, Ensures-bind_same}
use corkscrew.Findings.Record.{is_failing}
use corkscrew.Findings.PerRow.{Progress, NoClash, store_row, store_rows}
use corkscrew.Findings.Batches.Refines.{IsPerRow, start_of, end_of, record_result-IsPerRow}
use corkscrew.Findings.Batches.{record_result}
use corkscrew.Findings.Results.{delivered, record_and_resolve, resolve_absent}
use corkscrew.Findings.Results.Loop.{IsResolved, resolve_where, resolve_where-ext}
use corkscrew.Findings.Results.Resolved.{is_read, read_candidates, resolve_absent-reads}

module _ (env : Env) (scan : ScanRecord) where
  -- What a loop over rows keeps.
  pub store_rows-keeps :
      (result : QueryResult) (evaluation_id : Text) (P : Progress → Type 0)
      → ((row : _) (p : Progress) → P p → P (store_row env scan result evaluation_id row p))
      → (rows : _) (p : Progress) → P p
      → P (store_rows env scan result evaluation_id rows p)
  unfolding store_rows
  store_rows-keeps result evaluation_id P step [] p h = h
  store_rows-keeps result evaluation_id P step (row ∷ rows) p h =
      store_rows-keeps result evaluation_id P step rows _ (step row p h)

  pub store_row-IsKeyed :
      (result : QueryResult) (evaluation_id : Text) (row : ResultRow) (p : Progress)
      → IsKeyed p.table
      → IsKeyed (store_row env scan result evaluation_id row p).table
  unfolding store_row
  store_row-IsKeyed result evaluation_id row p h = elim (Bool-cases (is_failing env scan row)) [
    | inl fails ↦ rw fails (upsert-IsKeyed _ p.table h)
    | inr passes ↦ rw passes h
  ]

  pub end_of-IsKeyed :
      (result : QueryResult) (evaluation : Evaluation) (t : Tx)
      → IsKeyed t.findings
      → IsKeyed (end_of env scan result evaluation t).table
  end_of-IsKeyed result evaluation t h =
      store_rows-keeps result evaluation.id (λ (p : Progress). IsKeyed p.table)
        (store_row-IsKeyed result evaluation.id) result.rows (start_of evaluation t) h

  -- The rows of the result one by one, and then the resolution of what they do not observe, of the
  -- candidates that are read.
  pub record IsStep (result : QueryResult) (evaluation : Evaluation) (t : Tx) (ev : Evaluation)
      (t' : Tx) : Type 0 where
    pub number : ℕ
    pub read : List Text
    pub count : ℕ
    pub reads :
        read
        ≡ delivered (t.breaks_off number) (
            select_candidates result.pack_ref result.control_id scan
              (end_of env scan result evaluation t).table)
    pub evaluated : ev ≡ record evaluation {
      opened = (end_of env scan result evaluation t).opened;
      recurred = (end_of env scan result evaluation t).recurred;
      findings = (end_of env scan result evaluation t).findings;
      resolved = evaluation.resolved + count;
    }
    pub table :
        t'.findings
        ≡ resolve_where scan
            (is_read scan result.pack_ref result.control_id
              (end_of env scan result evaluation t).observed
              read)
            (end_of env scan result evaluation t).table
    pub occurrences : t'.occurrences ≡ (end_of env scan result evaluation t).occurrences

  read_ext :
      (pack_ref control_id : Text) (xs ys ks : List Text)
      → ((k : Text) → is_in k xs ≡ is_in k ys)
      → (s : Stored)
      → is_read scan pack_ref control_id xs ks s ≡ is_read scan pack_ref control_id ys ks s
  read_ext pack_ref control_id xs ys ks h s =
      ap (λ b. (is_candidate pack_ref control_id scan s && not b) && is_in s.fingerprint ks)
        (h s.fingerprint)

  IsStep-of_parts :
      (fails : ℕ → Bool) (result : QueryResult) (evaluation : Evaluation) (t t' t'' : Tx)
      (out : Evaluation × List Text) (m n : ℕ)
      → t'.breaks_off ≡ t.breaks_off
      → IsPerRow fails env scan result evaluation t out t'
      → IsResolved scan
          (is_read scan result.pack_ref result.control_id out.1
            (read_candidates scan result.pack_ref result.control_id t'))
          m
          t'
          n
          t''
      → IsStep result evaluation t (record out.0 { resolved = out.0.resolved + n }) t''
  IsStep-of_parts fails result evaluation t t' t'' out m n same h r =
      let e : Progress = end_of env scan result evaluation t in
      let ks : List Text = read_candidates scan result.pack_ref result.control_id t' in
      let p : Stored → Bool = is_read scan result.pack_ref result.control_id out.1 ks in
      let q : Stored → Bool = is_read scan result.pack_ref result.control_id e.observed ks in
      record {
        number = t'.statements;
        read = ks;
        count = n;
        reads =
            ap
              (λ (f : ℕ → Option ℕ).
                delivered (f t'.statements)
                  (select_candidates result.pack_ref result.control_id scan t'.findings))
              same
            ∙ ap
                (λ (table : List Stored).
                  delivered (t.breaks_off t'.statements)
                    (select_candidates result.pack_ref result.control_id scan table))
                h.table;
        evaluated = ground (arith, h.evaluated);
        table =
            r.table
            ∙ ap (resolve_where scan p) h.table
            ∙ (resolve_where-ext scan p q e.table
                (read_ext result.pack_ref result.control_id out.1 e.observed ks h.observed)).0;
        occurrences = r.occurrences ∙ h.occurrences;
      }

  pub record_and_resolve-IsStep :
      (fails : ℕ → Bool) (result : QueryResult) (evaluation : Evaluation) (t : Tx)
      → result.error ≡ none
      → evaluation.id ≢ []
      → NoClash env scan result result.rows
      → IsKeyed t.findings
      → Ensures fails t
          (IsStep result evaluation t)
          (record_and_resolve fails env scan result evaluation t)
  unfolding record_and_resolve
  record_and_resolve-IsStep fails result evaluation t good named clear keyed =
      Ensures-bind_same fails t (IsPerRow fails env scan result evaluation t)
        (IsStep result evaluation t) (record_result fails env scan result evaluation t) _
        (record_result-IsPerRow fails env scan result evaluation t good named clear)
        (λ out t' same h.
          Ensures-bind fails t' _ (IsStep result evaluation t)
            (resolve_absent fails scan result.pack_ref result.control_id out.1 t') _
            (resolve_absent-reads scan fails result.pack_ref result.control_id out.1 t'
              (rw h.table (end_of-IsKeyed result evaluation t keyed)))
            (λ n t'' r.
              Ensures-pure fails (IsStep result evaluation t) _ t''
                (IsStep-of_parts fails result evaluation t t' t'' out _ n same h r)))
