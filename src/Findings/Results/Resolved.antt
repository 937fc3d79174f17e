-- ===== src/Findings/Results/Resolved.antt =====
-- internal/app/findings/findings.go: what resolveAbsent resolves.
use corkscrew.Prelude.{
  ℕ, Option, none, ◌+◌, ◌≡◌, refl, ap, ◌∙◌, Bool, ◌&&◌, List, [], ◌∷◌, Text, All, All-map, arith,
}
use corkscrew.Findings.Types.{ScanRecord, Stored}
use corkscrew.Findings.Tables.{is_in, is_candidate, select_candidates}
use corkscrew.Findings.Tables.Keyed.{IsKeyed, select_candidates-exact}
use corkscrew.Findings.Attempt.{Tx, Ensures, Ensures-mono, Ensures-statement}
use corkscrew.Findings.Results.{delivered, resolve_loop, resolve_absent}
use corkscrew.Findings.Results.Loop.{
  each_once, is_in-delivered, resolve_where, count_where, is_absent, count_updates, IsResolved,
  resolve_loop-IsResolved, resolve_where-cong, is_stale, count_updates-select,
}

module _ (scan : ScanRecord) where
  -- The candidates that are read.
  abbrev pub read_candidates : Text → Text → Tx → List Text
  read_candidates pack_ref control_id t =
      delivered (t.breaks_off t.statements) (select_candidates pack_ref control_id scan t.findings)

  -- A stale row among those that were read.
  abbrev pub is_read : Text → Text → List Text → List Text → Stored → Bool
  is_read pack_ref control_id observed ks s =
      is_stale scan pack_ref control_id observed s && is_in s.fingerprint ks

  read_absent :
      (pack_ref control_id : Text) (observed all : List Text) (read : Option ℕ) (rows : List Stored)
      → All (λ s. is_in s.fingerprint all ≡ is_candidate pack_ref control_id scan s) rows
      → All
          (λ s.
            is_absent scan (delivered read all) observed s
            ≡ is_read pack_ref control_id observed (delivered read all) s)
          rows
  read_absent pack_ref control_id observed all read [] h = tt
  read_absent pack_ref control_id observed all read (s ∷ rows) h = (
    ground (arith, is_in-delivered s.fingerprint read all, h.0),
    read_absent pack_ref control_id observed all read rows h.1,
  )

  -- Whether the reading breaks off or not: the stale rows that were read are resolved.
  pub resolve_absent-reads :
      (fails : ℕ → Bool) (pack_ref control_id : Text) (observed : List Text) (t : Tx)
      → IsKeyed t.findings
      → Ensures fails t
          (IsResolved scan
            (is_read pack_ref control_id observed (read_candidates pack_ref control_id t))
            (count_updates scan (read_candidates pack_ref control_id t) observed t.findings)
            t)
          (resolve_absent fails scan pack_ref control_id observed t)
  unfolding resolve_absent
  resolve_absent-reads fails pack_ref control_id observed t keyed =
      let ks : List Text = read_candidates pack_ref control_id t in
      let test : Stored → Bool = is_read pack_ref control_id observed ks in
      let n : ℕ = count_updates scan ks observed t.findings in
      Ensures-statement fails (IsResolved scan test n t)
        (λ (u : Tx). (
          delivered (t.breaks_off t.statements)
              (select_candidates pack_ref control_id scan u.findings),
          u,
        ))
        t (λ candidates. resolve_loop fails scan observed candidates 0) (λ u. (refl, refl))
        (λ s.
          let t₁ : Tx = record t { statements = s } in
          Ensures-mono fails t₁ (IsResolved scan (is_absent scan ks observed) (0 + n) t₁)
            (IsResolved scan test n t) (resolve_loop fails scan observed ks 0 t₁)
            (resolve_loop-IsResolved scan fails observed ks 0 t₁)
            (λ m t' h. record {
              counted = omega (arith, h.counted);
              table =
                  h.table
                  ∙ resolve_where-cong scan (is_absent scan ks observed) test t.findings (
                      read_absent pack_ref control_id observed _ (t.breaks_off t.statements)
                        t.findings
                        (select_candidates-exact pack_ref control_id scan t.findings keyed));
              occurrences = h.occurrences;
            }))

  -- If all candidates were read, they are the stale rows.
  pub all_read :
      (pack_ref control_id : Text) (observed : List Text) (table : List Stored) (ks : List Text)
      → IsKeyed table
      → ks ≡ select_candidates pack_ref control_id scan table
      → resolve_where scan (is_read pack_ref control_id observed ks) table
        ≡ resolve_where scan (is_stale scan pack_ref control_id observed) table
  all_read pack_ref control_id observed table ks keyed whole = rw whole (
      resolve_where-cong scan _ _ table (
        All-map _ _ (λ r e. ground (arith, e)) table
          (select_candidates-exact pack_ref control_id scan table keyed)))

  -- Unless the database refuses a statement: of a table without two rows of a fingerprint, and if
  -- the reading of the candidates does not break off, resolveAbsent resolves exactly the rows of
  -- the pack, the control and the scope that are open, were last seen no later than the scan and
  -- were not observed, at the time of the scan, and leaves all others, those of any other control
  -- too; and it returns their number.
  pub resolve_absent-IsResolved :
      (fails : ℕ → Bool) (pack_ref control_id : Text) (observed : List Text) (t : Tx)
      → IsKeyed t.findings
      → t.breaks_off t.statements ≡ none
      → Ensures fails t
          (IsResolved scan
            (is_stale scan pack_ref control_id observed)
            (count_where scan (is_stale scan pack_ref control_id observed) t.findings)
            t)
          (resolve_absent fails scan pack_ref control_id observed t)
  resolve_absent-IsResolved fails pack_ref control_id observed t keyed whole =
      Ensures-mono fails t _ _ (resolve_absent fails scan pack_ref control_id observed t)
        (resolve_absent-reads fails pack_ref control_id observed t keyed)
        (λ n t' h. record {
          counted =
              h.counted
              ∙ ap
                  (λ o.
                    count_updates scan
                      (delivered o (select_candidates pack_ref control_id scan t.findings)) observed
                      t.findings)
                  whole
              ∙ count_updates-select scan pack_ref control_id observed t.findings t.findings
                  (each_once t.findings keyed);
          table =
              h.table
              ∙ all_read pack_ref control_id observed t.findings _ keyed (
                  ap (λ o. delivered o (select_candidates pack_ref control_id scan t.findings))
                    whole);
          occurrences = h.occurrences;
        })
