-- ===== src/Findings/Tables/Keyed.antt =====
-- The fingerprint is the key of the table of findings, and what the statements that resolve
-- findings do to a table with a key.
use corkscrew.Prelude.{
  ◌≡◌, refl, ap, ◌∙◌, inl, inr, false, List, [], ◌∷◌, Text, text_eq, text_eq_iff, All, arith,
  if◌then◌else◌, Bool-cases,
}
use corkscrew.Findings.Types.{ScanRecord, Stored}
use corkscrew.Findings.Tables.{is_in, has_row, upsert, is_candidate, select_candidates, count_rows}
use corkscrew.Findings.Tables.Upserts.{fingerprint-update_row, has_row-upsert}

-- No two rows share a fingerprint.
abbrev pub IsKeyed : List Stored → Type 0
IsKeyed [] = Unit
IsKeyed (s ∷ table) = (has_row s.fingerprint table ≡ false) × IsKeyed table

pub upsert-IsKeyed : (a : Stored) (table : List Stored) → IsKeyed table → IsKeyed (upsert a table)
unfolding upsert has_row
upsert-IsKeyed a [] h = (refl, tt)
upsert-IsKeyed a (s ∷ table) h = elim (Bool-cases (text_eq s.fingerprint a.fingerprint)) [
  | inl same ↦ rw (same, upsert) (ap (λ k. has_row k table) (fingerprint-update_row a s) ∙ h.0, h.1)
  | inr other ↦
      rw (other, upsert)
        (
          ground (
            arith,
            h.0,
            has_row-upsert s.fingerprint a table,
            text_eq_iff a.fingerprint s.fingerprint,
            text_eq_iff s.fingerprint a.fingerprint,
          ),
          upsert-IsKeyed a table h.1,
        )
]

pub count_rows-of_keyed :
    (k : Text) (table : List Stored)
    → IsKeyed table
    → count_rows k table ≡ (if has_row k table then 1 else 0)
unfolding count_rows has_row
count_rows-of_keyed k [] h = refl
count_rows-of_keyed k (s ∷ table) h =
    ground (arith, h.0, count_rows-of_keyed k table h.1, text_eq_iff s.fingerprint k)

-- A row that is not in a table differs from all its rows.
pub all_differ :
    (k : Text) (table : List Stored)
    → has_row k table ≡ false
    → All (λ s. text_eq s.fingerprint k ≡ false) table
unfolding has_row
all_differ k [] h = tt
all_differ k (s ∷ table) h = (ground (arith, h), all_differ k table (ground (arith, h)))

module _ (pack_ref control_id : Text) (scan : ScanRecord) where
  select_candidates-has_row :
      (k : Text) (table : List Stored)
      → has_row k table ≡ false
      → is_in k (select_candidates pack_ref control_id scan table) ≡ false
  unfolding select_candidates has_row is_in
  select_candidates-has_row k [] h = refl
  select_candidates-has_row k (s ∷ table) h = ground (arith, h, select_candidates-has_row k table)

  -- With a key, a row is selected by its fingerprint exactly if it is a candidate.
  pub select_candidates-exact :
      (table : List Stored)
      → IsKeyed table
      → All
          (λ s.
            is_in s.fingerprint (select_candidates pack_ref control_id scan table)
            ≡ is_candidate pack_ref control_id scan s)
          table
  unfolding select_candidates is_in
  select_candidates-exact [] h = tt
  select_candidates-exact (s ∷ table) h = (
    ground (
      arith,
      text_eq_iff s.fingerprint s.fingerprint,
      select_candidates-has_row s.fingerprint table h.0,
    ),
    both table (all_differ s.fingerprint table h.0) (select_candidates-exact table h.1),
  )
    where
      both :
          (rows : List Stored)
          → All (λ r. text_eq r.fingerprint s.fingerprint ≡ false) rows
          → All
              (λ r.
                is_in r.fingerprint (select_candidates pack_ref control_id scan table)
                ≡ is_candidate pack_ref control_id scan r)
              rows
          → All
              (λ r.
                is_in r.fingerprint (select_candidates pack_ref control_id scan (s ∷ table))
                ≡ is_candidate pack_ref control_id scan r)
              rows
      both [] ne h = tt
      both (r ∷ rows) ne h = (
        ground (
          arith,
          ne.0,
          h.0,
          text_eq_iff s.fingerprint r.fingerprint,
          text_eq_iff r.fingerprint s.fingerprint,
        ),
        both rows ne.1 h.1,
      )
