-- ===== src/Findings/Results/Current.antt =====
-- internal/app/findings/findings.go: after a control result, its open findings are those observed.
use corkscrew.Prelude.{
  ℕ, ◌≤◌, ◌≡◌, ◌≢◌, refl, sym, ap, ◌∙◌, inl, inr, Bool, true, false, none, List, [], ◌∷◌, ◌++◌,
  Text, text_eq, text_eq_iff, text_eq_refl, All, arith, Bool-cases, if◌then◌else◌,
}
use corkscrew.Findings.Types.{
  ScanRecord, ResultRow, QueryResult, Evaluation, Stored, Env, status_open,
}
use corkscrew.Findings.Tables.{
  is_in, has_row, update_row, upsert, is_candidate, select_candidates, resolve_row,
}
use corkscrew.Findings.Tables.Keyed.{IsKeyed, upsert-IsKeyed, all_differ}
use corkscrew.Findings.Tables.Upserts.{is_in-append}
use corkscrew.Findings.Attempt.{Tx, Ensures, Ensures-mono}
use corkscrew.Findings.Record.{is_failing, finding_of, stored_row}
use corkscrew.Findings.PerRow.{Progress, record_of, NoClash, store_row}
use corkscrew.Findings.Batches.Refines.{start_of, end_of}
use corkscrew.Findings.Results.{delivered, record_and_resolve}
use corkscrew.Findings.Results.Loop.{resolve_where, is_stale}
use corkscrew.Findings.Results.Resolved.{all_read}
use corkscrew.Findings.Results.Steps.{IsStep, store_rows-keeps, record_and_resolve-IsStep}

module _ (env : Env) (scan : ScanRecord) where
  -- A finding that was observed and that no newer scan has seen is open.
  abbrev Seen : List Text → Stored → Type 0
  Seen observed s =
      is_in s.fingerprint observed ≡ true
      → s.last_seen_at ≤ scan.started_at
      → s.status ≡ status_open

  Seen-updated :
      (a s : Stored)
      → a.last_seen_at ≡ scan.started_at
      → (update_row a s).last_seen_at ≤ scan.started_at
      → (update_row a s).status ≡ status_open
  unfolding update_row
  Seen-updated a s l b = ground arith

  -- One more fingerprint is observed, and it is not that of the row.
  Seen-other :
      (k : Text) (observed : List Text) (s : Stored)
      → text_eq s.fingerprint k ≡ false
      → Seen observed s
      → Seen (observed ++ k ∷ []) s
  unfolding is_in
  Seen-other k observed s ne h i b =
      h
        (ground (
          arith,
          i,
          ne,
          is_in-append s.fingerprint observed (k ∷ []),
          text_eq_iff k s.fingerprint,
          text_eq_iff s.fingerprint k,
        ))
        b

  Seen-others :
      (k : Text) (observed : List Text) (table : List Stored)
      → All (λ s. text_eq s.fingerprint k ≡ false) table
      → All (Seen observed) table
      → All (Seen (observed ++ k ∷ [])) table
  Seen-others k observed [] ne h = tt
  Seen-others k observed (s ∷ table) ne h =
      (Seen-other k observed s ne.0 h.0, Seen-others k observed table ne.1 h.1)

  Seen-upsert :
      (a : Stored) (observed : List Text) (table : List Stored)
      → IsKeyed table
      → a.status ≡ status_open
      → a.last_seen_at ≡ scan.started_at
      → All (Seen observed) table
      → All (Seen (observed ++ a.fingerprint ∷ [])) (upsert a table)
  unfolding upsert
  Seen-upsert a observed [] keyed o l h = ((λ i b. o), tt)
  Seen-upsert a observed (s ∷ table) keyed o l h =
      elim (Bool-cases (text_eq s.fingerprint a.fingerprint)) [
        | inl same ↦
            let key : s.fingerprint ≡ a.fingerprint =
              (text_eq_iff s.fingerprint a.fingerprint).0 same in
            rw (same, upsert)
              (
                λ i b. Seen-updated a s l b,
                Seen-others a.fingerprint observed table
                    (all_differ a.fingerprint table (ap (λ k. has_row k table) (sym key) ∙ keyed.0))
                    h.1,
              )
        | inr other ↦
            rw (other, upsert)
              (
                Seen-other a.fingerprint observed s other h.0,
                Seen-upsert a observed table keyed.1 o l h.1,
              )
      ]

  record IsSeen (p : Progress) : Type 0 where
    keyed : IsKeyed p.table
    seen : All (Seen p.observed) p.table

  store_row-IsSeen :
      (result : QueryResult) (evaluation_id : Text) (row : ResultRow) (p : Progress)
      → IsSeen p
      → IsSeen (store_row env scan result evaluation_id row p)
  unfolding store_row stored_row finding_of
  store_row-IsSeen result evaluation_id row p h = elim (Bool-cases (is_failing env scan row)) [
    | inl fails ↦
        let a : Stored = stored_row env scan (record_of env scan result row) in
        rw fails (record {
          keyed = upsert-IsKeyed a p.table h.keyed;
          seen = Seen-upsert a p.observed p.table h.keyed refl refl h.seen;
        })
    | inr passes ↦ rw passes h
  ]

  initially_seen : (table : List Stored) → All (Seen []) table
  unfolding is_in
  initially_seen [] = tt
  initially_seen (s ∷ table) = ((λ i b. cc), initially_seen table)

  -- A finding of the pack, the control and the scope that no newer scan has seen.
  pub record InScope (result : QueryResult) (s : Stored) : Type 0 where
    pub pack_ref : s.pack_ref ≡ result.pack_ref
    pub control_id : s.control_id ≡ result.control_id
    pub scope_key : s.scope_key ≡ scan.scope_key
    pub not_newer : s.last_seen_at ≤ scan.started_at

  -- It is open exactly if it was observed.
  abbrev pub IsCurrent : QueryResult → List Text → Stored → Type 0
  IsCurrent result observed s =
      InScope result s → text_eq s.status status_open ≡ is_in s.fingerprint observed

  is_candidate-InScope :
      (result : QueryResult) (s : Stored)
      → InScope result s
      → is_candidate result.pack_ref result.control_id scan s ≡ text_eq s.status status_open
  unfolding is_candidate
  is_candidate-InScope result s h = ground (
    arith,
    text_eq_iff s.pack_ref result.pack_ref,
    text_eq_iff s.control_id result.control_id,
    text_eq_iff s.scope_key scan.scope_key,
  )

  IsCurrent-kept :
      (result : QueryResult) (observed : List Text) (s : Stored)
      → Seen observed s
      → is_stale scan result.pack_ref result.control_id observed s ≡ false
      → IsCurrent result observed s
  IsCurrent-kept result observed s h fresh scope =
      elim (Bool-cases (is_in s.fingerprint observed)) [
        | inl seen ↦
            ap (λ t. text_eq t status_open) (h seen scope.not_newer)
            ∙ text_eq_refl status_open
            ∙ sym seen
        | inr absent ↦ ground (arith, fresh, absent, is_candidate-InScope result s scope)
      ]

  IsCurrent-resolve :
      (result : QueryResult) (observed : List Text) (s : Stored)
      → Seen observed s
      → IsCurrent result observed (
          if is_stale scan result.pack_ref result.control_id observed s
          then resolve_row scan s
          else s)
  unfolding resolve_row text_eq
  IsCurrent-resolve result observed s h =
      elim (Bool-cases (is_stale scan result.pack_ref result.control_id observed s)) [
        | inl stale ↦ rw stale (λ scope. ground (arith, stale))
        | inr fresh ↦ rw fresh (IsCurrent-kept result observed s h fresh)
      ]

  IsCurrent-resolve_where :
      (result : QueryResult) (observed : List Text) (table : List Stored)
      → All (Seen observed) table
      → All
          (IsCurrent result observed)
          (resolve_where scan (is_stale scan result.pack_ref result.control_id observed) table)
  IsCurrent-resolve_where result observed [] h = tt
  IsCurrent-resolve_where result observed (s ∷ table) h =
      (IsCurrent-resolve result observed s h.0, IsCurrent-resolve_where result observed table h.1)

  -- After a control result without an error, unless a statement was refused: of the findings of
  -- its pack, its control and the scope of the scan, those that no newer scan has seen are open
  -- exactly if the result observed them; from an evaluation with an id and a table without two rows
  -- of a fingerprint, where the rows of the result are about the same control and resource whenever
  -- they share a fingerprint, and if the reading of the candidates does not break off.
  pub record_and_resolve-IsCurrent :
      (fails : ℕ → Bool) (result : QueryResult) (evaluation : Evaluation) (t : Tx)
      → result.error ≡ none
      → evaluation.id ≢ []
      → NoClash env scan result result.rows
      → IsKeyed t.findings
      → ((n : ℕ) → t.breaks_off n ≡ none)
      → Ensures fails t
          (λ ev t'.
            All (IsCurrent result (end_of env scan result evaluation t).observed) t'.findings)
          (record_and_resolve fails env scan result evaluation t)
  record_and_resolve-IsCurrent fails result evaluation t good named clear keyed whole =
      let e : Progress = end_of env scan result evaluation t in
      let ended : IsSeen e =
        store_rows-keeps env scan result evaluation.id IsSeen
          (store_row-IsSeen result evaluation.id) result.rows (start_of evaluation t)
          (record { keyed = keyed; seen = initially_seen t.findings }) in
      Ensures-mono fails t (IsStep env scan result evaluation t)
        (λ ev t'. All (IsCurrent result e.observed) t'.findings)
        (record_and_resolve fails env scan result evaluation t)
        (record_and_resolve-IsStep env scan fails result evaluation t good named clear keyed)
        (λ ev t' step.
          rw
            (
              step.table,
              all_read scan result.pack_ref result.control_id e.observed e.table step.read
                  ended.keyed
                  (step.reads
                    ∙ ap
                        (λ o.
                          delivered o
                            (select_candidates result.pack_ref result.control_id scan e.table))
                        (whole step.number)),
            )
            (IsCurrent-resolve_where result e.observed e.table ended.seen))
