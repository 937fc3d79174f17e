-- ===== src/Findings/Batches/Chunks.antt =====
-- internal/app/findings/findings.go: the statements of recordResult, one chunk after another, write
-- each record once.
use corkscrew.Prelude.{
  ℕ, zero, suc, ◌≤◌, ◌<◌, ◌≡◌, ◌≢◌, refl, sym, ap, ◌∙◌, Bool, true, List, [], ◌∷◌, Text, text_eq_ne,
  arith, length, take, drop, length-take, length-drop, ltb, leb,
}
use corkscrew.Findings.Types.{ScanRecord, Env}
use corkscrew.Findings.Tables.{upsert_all, insert_occurrences}
use corkscrew.Findings.Tables.Upserts.{upsert_all-append, insert_occurrences-append}
use corkscrew.Findings.Attempt.{
  Tx, bind, Ensures, Ensures-pure, Ensures-bind_bind, Ensures-mono, Ensures-statement, Ensures-last,
}
use corkscrew.Findings.Record.{batch_max, Records}
use corkscrew.Findings.Folding.{keys_of, rows_of}
use corkscrew.Findings.Folding.Steps.{length-keys_of}
use corkscrew.Findings.Folding.Occurrences.{occurrences_of}
use corkscrew.Findings.Batches.{chunks, upsert_findings, insert_all, write_chunks}
use corkscrew.Findings.Batches.Written.{
  Finds, Finds-take, Finds-drop, take-keys_of, drop-keys_of, upsert_args-eq, occurrence_args-eq,
  rows_of-take-drop, occurrences_of-take-drop,
}

module _ (fails : ℕ → Bool) (env : Env) (scan : ScanRecord) (evaluation_id : Text)
    (records : Records) (named : evaluation_id ≢ []) where
  -- Both tables have got the records.
  pub record IsWritten (rs : Records) (t : Tx) (u : Unit {0}) (t' : Tx) : Type 0 where
    pub findings : t'.findings ≡ upsert_all (rows_of env scan rs) t.findings
    pub occurrences :
        t'.occurrences ≡ insert_occurrences (occurrences_of env scan evaluation_id rs) t.occurrences

  -- The two statements of a chunk; no assertion of theirs fails.
  module _ (rs : Records) (found : Finds records rs) (pos : 0 < length rs)
      (small : length rs ≤ batch_max) where
    not_empty : ltb 0 (length (keys_of rs)) ≡ true
    not_empty = ground (arith, length-keys_of rs)

    fits : leb (length (keys_of rs)) batch_max ≡ true
    fits = ground (arith, length-keys_of rs)

    insert_all-Ensures :
        (P : Unit {0} → Tx → Type 0) (t : Tx)
        → ((n : ℕ)
            → P tt (record t {
              occurrences =
                  insert_occurrences (occurrences_of env scan evaluation_id rs) t.occurrences;
              statements = n;
            }))
        → Ensures fails t P (insert_all fails env scan evaluation_id records (keys_of rs) t)
    unfolding insert_all
    insert_all-Ensures P t h =
        rw
          (
            not_empty,
            fits,
            text_eq_ne evaluation_id [] named,
            occurrence_args-eq env scan evaluation_id records rs t found,
          )
          (Ensures-last fails P
            (λ (u : Tx). (
              tt,
              record u {
                occurrences =
                    insert_occurrences (occurrences_of env scan evaluation_id rs) u.occurrences;
              },
            ))
            t (λ u. (refl, refl)) h)

    write_chunk-IsWritten :
        (t : Tx)
        → Ensures fails t (IsWritten rs t) (
            bind
              (upsert_findings fails env scan records (keys_of rs) t)
              (λ u. insert_all fails env scan evaluation_id records (keys_of rs)))
    unfolding upsert_findings
    write_chunk-IsWritten t =
        rw (not_empty, fits, upsert_args-eq env scan records rs t found)
          (Ensures-statement fails (IsWritten rs t)
            (λ (u : Tx). (tt, record u { findings = upsert_all (rows_of env scan rs) u.findings }))
            t (λ u. insert_all fails env scan evaluation_id records (keys_of rs))
            (λ u. (refl, refl))
            (λ n.
              insert_all-Ensures (IsWritten rs t) _
                (λ m. record { findings = refl; occurrences = refl })))

  -- The chunk, and then what is left.
  IsWritten-trans :
      (rs : Records) (t t' t'' : Tx)
      → IsWritten (take batch_max rs) t tt t'
      → IsWritten (drop batch_max rs) t' tt t''
      → IsWritten rs t tt t''
  IsWritten-trans rs t t' t'' h h' = record {
    findings =
        h'.findings
        ∙ ap (upsert_all (rows_of env scan (drop batch_max rs))) h.findings
        ∙ sym (
            ap (λ rows. upsert_all rows t.findings) (rows_of-take-drop env scan batch_max rs)
            ∙ upsert_all-append (rows_of env scan (take batch_max rs)) _ t.findings);
    occurrences =
        h'.occurrences
        ∙ ap (insert_occurrences (occurrences_of env scan evaluation_id (drop batch_max rs)))
            h.occurrences
        ∙ sym (
            ap (λ rows. insert_occurrences rows t.occurrences)
              (occurrences_of-take-drop env scan evaluation_id batch_max rs)
            ∙ insert_occurrences-append (occurrences_of env scan evaluation_id (take batch_max rs))
                _ t.occurrences);
  }

  write_chunks-cons :
      (rs : Records) (t : Tx) (rest : List (List Text))
      → Finds records rs
      → 0 < length rs
      → ((t' : Tx)
          → Ensures fails t'
              (IsWritten (drop batch_max rs) t')
              (write_chunks fails env scan evaluation_id records rest t'))
      → Ensures fails t
          (IsWritten rs t)
          (write_chunks fails env scan evaluation_id records (keys_of (take batch_max rs) ∷ rest) t)
  unfolding write_chunks
  write_chunks-cons rs t rest h pos rest_written =
      let part : Records = take batch_max rs in
      Ensures-bind_bind fails t (IsWritten part t) (IsWritten rs t)
        (upsert_findings fails env scan records (keys_of part) t)
        (λ u. insert_all fails env scan evaluation_id records (keys_of part))
        (λ u. write_chunks fails env scan evaluation_id records rest)
        (write_chunk-IsWritten part (Finds-take batch_max records rs h)
          (omega (arith, length-take batch_max rs)) (omega (arith, length-take batch_max rs)) t)
        (λ u t' w.
          Ensures-mono fails t' (IsWritten (drop batch_max rs) t') (IsWritten rs t)
            (write_chunks fails env scan evaluation_id records rest t') (rest_written t')
            (λ u' t'' w'. IsWritten-trans rs t t' t'' w w'))

  write_chunks-nil :
      (t : Tx)
      → Ensures fails t (IsWritten [] t) (write_chunks fails env scan evaluation_id records [] t)
  unfolding write_chunks upsert_all insert_occurrences
  write_chunks-nil t =
      Ensures-pure fails (IsWritten [] t) tt t (record { findings = refl; occurrences = refl })

  pub write_chunks-IsWritten :
      (n : ℕ) (rs : Records) (t : Tx)
      → Finds records rs
      → length rs ≤ n
      → Ensures fails t
          (IsWritten rs t)
          (write_chunks fails env scan evaluation_id records (chunks n (keys_of rs)) t)
  unfolding chunks
  write_chunks-IsWritten zero [] t h b = write_chunks-nil t
  write_chunks-IsWritten zero ((k, r) ∷ rs) t h b = absurd (omega arith)
  write_chunks-IsWritten (suc n) [] t h b = write_chunks-nil t
  write_chunks-IsWritten (suc n) ((k, r) ∷ rs) t h b =
      rw (take-keys_of 255 rs, drop-keys_of 255 rs)
        (write_chunks-cons ((k, r) ∷ rs) t (chunks n (keys_of (drop 255 rs))) h (omega arith) (λ t'.
          write_chunks-IsWritten n (drop 255 rs) t' (Finds-drop 255 records rs h.2)
            (omega (arith, length-drop 255 rs))))
