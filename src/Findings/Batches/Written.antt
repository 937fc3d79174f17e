-- ===== src/Findings/Batches/Written.antt =====
-- internal/app/findings/findings.go: what recordResult counts and writes of the folded records.
use corkscrew.Prelude.{
  ℕ, zero, suc, ◌+◌, ◌-◌, ◌<◌, ◌≡◌, refl, sym, ap, ◌∙◌, inl, inr, true, false, none, some, List, [],
  ◌∷◌, ◌++◌, Text, text_eq, text_eq_iff, All, arith, take, drop, Bool-cases, ltb, append-nil,
  append_assoc,
}
use corkscrew.Findings.Types.{ScanRecord, QueryResult, Evaluation, FindingRecord, Stored, Env}
use corkscrew.Findings.Tables.{is_in, has_row}
use corkscrew.Findings.Tables.Upserts.{is_in-append}
use corkscrew.Findings.Attempt.{Tx, ok}
use corkscrew.Findings.Record.{
  Records, find_record, upsert_args, occurrence_args, stored_row, occurrence_row,
}
use corkscrew.Findings.Folding.{keys_of, Unique, count_opened, count_recurred, rows_of, Shaped}
use corkscrew.Findings.Folding.Occurrences.{occurrences_of}
use corkscrew.Findings.Batches.{count_order, observe}

-- The map has these records, each of at least one row.
abbrev pub Finds : Records → Records → Type 0
Finds records [] = Unit
Finds records ((k, r) ∷ rs) =
    (find_record k records ≡ some r) × (0 < r.row_count) × Finds records rs

Finds-cons :
    (j : Text) (q : FindingRecord) (records rs : Records)
    → All (λ (k : Text). text_eq j k ≡ false) (keys_of rs)
    → Finds records rs
    → Finds ((j, q) ∷ records) rs
unfolding find_record
Finds-cons j q records [] ne h = tt
Finds-cons j q records ((k, r) ∷ rs) ne h =
    (ground (arith, ne.0, h.0), h.1, Finds-cons j q records rs ne.1 h.2)

-- A key without a record differs from those that have one.
keys_of-differ :
    (j : Text) (rs : Records)
    → find_record j rs ≡ none
    → All (λ (k : Text). text_eq j k ≡ false) (keys_of rs)
unfolding find_record
keys_of-differ j [] e = tt
keys_of-differ j ((k, r) ∷ rs) e = elim (Bool-cases (text_eq k j)) [
  | inl same ↦ ground (arith, same)
  | inr other ↦ (
    ground (arith, text_eq_iff j k, text_eq_iff k j),
    keys_of-differ j rs (ground (arith, other)),
  )
]

module _ (env : Env) (scan : ScanRecord) (result : QueryResult) where
  pub Finds-self : (rs : Records) → Unique rs → Shaped env scan result [] rs → Finds rs rs
  unfolding find_record
  Finds-self [] u h = tt
  Finds-self ((k, r) ∷ rs) u h = (
    ground (arith, text_eq_iff k k),
    h.0.counted,
    Finds-cons k r rs rs (keys_of-differ k rs u.0) (Finds-self rs u.1 h.1),
  )

pub Finds-take : (n : ℕ) (records rs : Records) → Finds records rs → Finds records (take n rs)
Finds-take zero records rs h = tt
Finds-take (suc n) records [] h = tt
Finds-take (suc n) records ((k, r) ∷ rs) h = (h.0, h.1, Finds-take n records rs h.2)

pub Finds-drop : (n : ℕ) (records rs : Records) → Finds records rs → Finds records (drop n rs)
Finds-drop zero records rs h = h
Finds-drop (suc n) records [] h = tt
Finds-drop (suc n) records ((k, r) ∷ rs) h = Finds-drop n records rs h.2

pub take-keys_of : (n : ℕ) (rs : Records) → take n (keys_of rs) ≡ keys_of (take n rs)
take-keys_of zero rs = refl
take-keys_of (suc n) [] = refl
take-keys_of (suc n) ((k, r) ∷ rs) = ap (◌∷◌ k) (take-keys_of n rs)

pub drop-keys_of : (n : ℕ) (rs : Records) → drop n (keys_of rs) ≡ keys_of (drop n rs)
drop-keys_of zero rs = refl
drop-keys_of (suc n) [] = refl
drop-keys_of (suc n) ((k, r) ∷ rs) = drop-keys_of n rs

-- The counts, where the map of existing fingerprints tells what is stored.
pub count_order-eq :
    (records rs : Records) (existing : List Text) (table : List Stored) (evaluation : Evaluation)
    (t : Tx)
    → Finds records rs
    → All (λ k. is_in k existing ≡ has_row k table) (keys_of rs)
    → count_order records existing (keys_of rs) evaluation t
      ≡ ok
          (record evaluation {
            opened = evaluation.opened + count_opened table rs;
            recurred = evaluation.recurred + count_recurred table rs;
          })
          t
unfolding count_order
count_order-eq records [] existing table evaluation t h e = ground arith
count_order-eq records ((k, r) ∷ rs) existing table evaluation t h e =
    elim (Bool-cases (has_row k table)) [
      | inl old ↦
          rw (h.0, count_order)
            (rw (e.0, old)
              (count_order-eq records rs existing table
                  (record evaluation { recurred = evaluation.recurred + r.row_count }) t h.2 e.1
                ∙ ground arith))
      | inr new ↦
          rw (h.0, count_order)
            (rw (e.0, new)
              (count_order-eq records rs existing table
                  (record evaluation {
                    opened = evaluation.opened + 1;
                    recurred = evaluation.recurred + (r.row_count - 1);
                  })
                  t h.2 e.1
                ∙ ground arith))
    ]

-- The keys are observed, each once.
pub observe-eq :
    (rs : Records) (observed : List Text)
    → Unique rs
    → All (λ k. is_in k observed ≡ false) (keys_of rs)
    → observe (keys_of rs) observed ≡ observed ++ keys_of rs
unfolding observe is_in
observe-eq [] observed u e = sym (append-nil observed)
observe-eq ((k, r) ∷ rs) observed u e =
    rw (e.0, observe)
      (observe-eq rs (observed ++ k ∷ []) u.1
          (still_new k observed (keys_of rs) (keys_of-differ k rs u.0) e.1)
        ∙ append_assoc observed (k ∷ []) (keys_of rs))
  where
    still_new :
        (k : Text) (observed ks : List Text)
        → All (λ j. text_eq k j ≡ false) ks
        → All (λ j. is_in j observed ≡ false) ks
        → All (λ j. is_in j (observed ++ k ∷ []) ≡ false) ks
    still_new k observed [] ne new = tt
    still_new k observed (j ∷ ks) ne new = (
      ground (arith, is_in-append j observed (k ∷ []), ne.0, new.0),
      still_new k observed ks ne.1 new.1,
    )

module _ (env : Env) (scan : ScanRecord) where
  pub upsert_args-eq :
      (records rs : Records) (t : Tx)
      → Finds records rs
      → upsert_args env scan records (keys_of rs) t ≡ ok (rows_of env scan rs) t
  unfolding upsert_args
  upsert_args-eq records [] t h = refl
  upsert_args-eq records ((k, r) ∷ rs) t h =
      let counted : ltb 0 r.row_count ≡ true = ground (arith, h.1) in
      rw (h.0, upsert_args) (rw (counted, upsert_args-eq records rs t h.2))

  pub occurrence_args-eq :
      (evaluation_id : Text) (records rs : Records) (t : Tx)
      → Finds records rs
      → occurrence_args env scan evaluation_id records (keys_of rs) t
        ≡ ok (occurrences_of env scan evaluation_id rs) t
  unfolding occurrence_args
  occurrence_args-eq evaluation_id records [] t h = refl
  occurrence_args-eq evaluation_id records ((k, r) ∷ rs) t h =
      rw (h.0, occurrence_args) (rw (occurrence_args-eq evaluation_id records rs t h.2))

  pub rows_of-take-drop :
      (n : ℕ) (rs : Records)
      → rows_of env scan rs ≡ rows_of env scan (take n rs) ++ rows_of env scan (drop n rs)
  rows_of-take-drop zero rs = refl
  rows_of-take-drop (suc n) [] = refl
  rows_of-take-drop (suc n) ((k, r) ∷ rs) =
      ap (◌∷◌ (stored_row env scan r)) (rows_of-take-drop n rs)

  pub occurrences_of-take-drop :
      (evaluation_id : Text) (n : ℕ) (rs : Records)
      → occurrences_of env scan evaluation_id rs
        ≡ occurrences_of env scan evaluation_id (take n rs)
          ++ occurrences_of env scan evaluation_id (drop n rs)
  occurrences_of-take-drop evaluation_id zero rs = refl
  occurrences_of-take-drop evaluation_id (suc n) [] = refl
  occurrences_of-take-drop evaluation_id (suc n) ((k, r) ∷ rs) =
      ap (◌∷◌ (occurrence_row env scan evaluation_id k r))
        (occurrences_of-take-drop evaluation_id n rs)
