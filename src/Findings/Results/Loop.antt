-- ===== src/Findings/Results/Loop.antt =====
-- internal/app/findings/findings.go: what the loop of resolveAbsent resolves.
use corkscrew.Prelude.{
  ℕ, zero, suc, take, Option, none, some, ◌+◌, ◌≡◌, refl, sym, ap, ◌∙◌, inl, inr, Bool, true, false,
  ◌&&◌, not, List, [], ◌∷◌, Text, text_eq, text_eq_iff, text_eq_refl, All, arith, if◌then◌else◌,
  Bool-cases,
}
use corkscrew.Findings.Types.{ScanRecord, Stored}
use corkscrew.Findings.Tables.{
  is_in, has_row, is_candidate, select_candidates, resolve_row, resolve, count_rows,
}
use corkscrew.Findings.Tables.Keyed.{IsKeyed, count_rows-of_keyed, all_differ}
use corkscrew.Findings.Attempt.{Tx, Ensures, Ensures-pure, Ensures-mono, Ensures-statement}
use corkscrew.Findings.Results.{delivered, resolve_loop}

more :
    (s : Stored) (table rows : List Stored)
    → All (λ r. text_eq r.fingerprint s.fingerprint ≡ false) rows
    → All (λ r. count_rows r.fingerprint table ≡ 1) rows
    → All (λ r. count_rows r.fingerprint (s ∷ table) ≡ 1) rows
unfolding count_rows
more s table [] ne h = tt
more s table (r ∷ rows) ne h = (
  ground (
    arith,
    ne.0,
    h.0,
    text_eq_iff s.fingerprint r.fingerprint,
    text_eq_iff r.fingerprint s.fingerprint,
  ),
  more s table rows ne.1 h.1,
)

-- With a key, each row is one.
pub each_once :
    (table : List Stored) → IsKeyed table → All (λ s. count_rows s.fingerprint table ≡ 1) table
unfolding count_rows has_row
each_once [] h = tt
each_once (s ∷ table) h = (
  ground (arith, text_eq_refl s.fingerprint, h.0, count_rows-of_keyed s.fingerprint table h.1),
  more s table table (all_differ s.fingerprint table h.0) (each_once table h.1),
)

is_in-take : (k : Text) (n : ℕ) (ks : List Text) → is_in k (take n ks) ≡ true → is_in k ks ≡ true
unfolding is_in
is_in-take k zero ks h = cc
is_in-take k (suc n) [] h = h
is_in-take k (suc n) (j ∷ ks) h = ground (arith, h, is_in-take k n ks)

pub is_in-delivered :
    (k : Text) (read : Option ℕ) (ks : List Text)
    → is_in k (delivered read ks) ≡ true
    → is_in k ks ≡ true
is_in-delivered k none ks h = h
is_in-delivered k (some n) ks h = is_in-take k n ks h

module _ (scan : ScanRecord) where
  -- The rows that pass a test are resolved, and the others are left.
  abbrev pub resolve_where : (Stored → Bool) → List Stored → List Stored
  resolve_where p [] = []
  resolve_where p (s ∷ table) = (if p s then resolve_row scan s else s) ∷ resolve_where p table

  -- How many they are.
  abbrev pub count_where : (Stored → Bool) → List Stored → ℕ
  count_where p [] = 0
  count_where p (s ∷ table) = (if p s then 1 else 0) + count_where p table

  abbrev pub is_absent : List Text → List Text → Stored → Bool
  is_absent candidates observed s =
      is_in s.fingerprint candidates && not (is_in s.fingerprint observed)

  -- The rows affected by the updates for the candidates.
  abbrev pub count_updates : List Text → List Text → List Stored → ℕ
  count_updates [] observed table = 0
  count_updates (k ∷ ks) observed table =
      (if is_in k observed then 0 else count_rows k table) + count_updates ks observed table

  resolve_where-none :
      (observed : List Text) (table : List Stored)
      → resolve_where (is_absent [] observed) table ≡ table
  unfolding is_in
  resolve_where-none observed [] = refl
  resolve_where-none observed (s ∷ table) = ap (◌∷◌ s) (resolve_where-none observed table)

  resolve_where-observed :
      (k : Text) (ks observed : List Text) (table : List Stored)
      → is_in k observed ≡ true
      → resolve_where (is_absent ks observed) table
        ≡ resolve_where (is_absent (k ∷ ks) observed) table
  unfolding is_in
  resolve_where-observed k ks observed [] h = refl
  resolve_where-observed k ks observed (s ∷ table) h =
      ground (arith, resolve_where-observed k ks observed table, text_eq_iff k s.fingerprint)

  resolve_where-resolve :
      (k : Text) (ks observed : List Text) (table : List Stored)
      → is_in k observed ≡ false
      → resolve_where (is_absent ks observed) (resolve scan k table)
        ≡ resolve_where (is_absent (k ∷ ks) observed) table
  unfolding is_in resolve
  resolve_where-resolve k ks observed [] h = refl
  resolve_where-resolve k ks observed (s ∷ table) h = ground (
    arith,
    resolve_where-resolve k ks observed table,
    text_eq_iff k s.fingerprint,
    text_eq_iff s.fingerprint k,
  )

  count_rows-resolve :
      (j k : Text) (table : List Stored) → count_rows j (resolve scan k table) ≡ count_rows j table
  unfolding count_rows resolve
  count_rows-resolve j k [] = refl
  count_rows-resolve j k (s ∷ table) = ground (arith, count_rows-resolve j k table)

  count_updates-resolve :
      (k : Text) (ks observed : List Text) (table : List Stored)
      → count_updates ks observed (resolve scan k table) ≡ count_updates ks observed table
  count_updates-resolve k [] observed table = refl
  count_updates-resolve k (j ∷ ks) observed table =
      ground (arith, count_rows-resolve j k table, count_updates-resolve k ks observed table)

  -- Rows, count and occurrences after the rows that pass a test were resolved.
  pub record IsResolved (p : Stored → Bool) (count : ℕ) (t : Tx) (n : ℕ) (t' : Tx) : Type 0 where
    pub counted : n ≡ count
    pub table : t'.findings ≡ resolve_where p t.findings
    pub occurrences : t'.occurrences ≡ t.occurrences

  module _ (fails : ℕ → Bool) (observed : List Text) where
    pub resolve_loop-IsResolved :
        (ks : List Text) (n : ℕ) (t : Tx)
        → Ensures fails t
            (IsResolved (is_absent ks observed) (n + count_updates ks observed t.findings) t)
            (resolve_loop fails scan observed ks n t)
    unfolding resolve_loop
    resolve_loop-IsResolved [] n t =
        Ensures-pure fails
          (IsResolved (is_absent [] observed) (n + count_updates [] observed t.findings) t) n t
          (record {
            counted = omega arith;
            table = sym (resolve_where-none observed t.findings);
            occurrences = refl;
          })
    resolve_loop-IsResolved (k ∷ ks) n t = elim (Bool-cases (is_in k observed)) [
      | inl seen ↦
          rw (seen, resolve_loop)
            (Ensures-mono fails t
              (IsResolved (is_absent ks observed) (n + count_updates ks observed t.findings) t)
              (IsResolved (is_absent (k ∷ ks) observed)
                (n + (0 + count_updates ks observed t.findings)) t)
              (resolve_loop fails scan observed ks n t) (resolve_loop-IsResolved ks n t)
              (λ m t' h. record {
                counted = omega (arith, h.counted);
                table = h.table ∙ resolve_where-observed k ks observed t.findings seen;
                occurrences = h.occurrences;
              }))
      | inr absent ↦
          rw (absent, resolve_loop)
            (Ensures-statement fails
              (IsResolved (is_absent (k ∷ ks) observed)
                (n + (count_rows k t.findings + count_updates ks observed t.findings)) t)
              (λ (u : Tx).
                (count_rows k u.findings, record u { findings = resolve scan k u.findings }))
              t (λ count. resolve_loop fails scan observed ks (n + count)) (λ u. (refl, refl))
              (λ s.
                let t₁ : Tx = record t { findings = resolve scan k t.findings; statements = s } in
                Ensures-mono fails t₁
                  (IsResolved (is_absent ks observed)
                    (n + count_rows k t.findings + count_updates ks observed t₁.findings) t₁)
                  (IsResolved (is_absent (k ∷ ks) observed)
                    (n + (count_rows k t.findings + count_updates ks observed t.findings)) t)
                  (resolve_loop fails scan observed ks (n + count_rows k t.findings) t₁)
                  (resolve_loop-IsResolved ks (n + count_rows k t.findings) t₁)
                  (λ m t' h. record {
                    counted =
                        omega (arith, h.counted, count_updates-resolve k ks observed t.findings);
                    table = h.table ∙ resolve_where-resolve k ks observed t.findings absent;
                    occurrences = h.occurrences;
                  })))
    ]

  pub resolve_where-cong :
      (p q : Stored → Bool) (table : List Stored)
      → All (λ s. p s ≡ q s) table
      → resolve_where p table ≡ resolve_where q table
  resolve_where-cong p q [] h = refl
  resolve_where-cong p q (s ∷ table) h = ground (arith, h.0, resolve_where-cong p q table h.1)

  pub resolve_where-ext :
      (p q : Stored → Bool) (table : List Stored)
      → ((s : Stored) → p s ≡ q s)
      → (resolve_where p table ≡ resolve_where q table)
        × (count_where p table ≡ count_where q table)
  resolve_where-ext p q [] h = (refl, refl)
  resolve_where-ext p q (s ∷ table) h = ground (arith, h s, resolve_where-ext p q table h)

  -- A row that resolveAbsent is to resolve.
  abbrev pub is_stale : Text → Text → List Text → Stored → Bool
  is_stale pack_ref control_id observed s =
      is_candidate pack_ref control_id scan s && not (is_in s.fingerprint observed)

  pub count_updates-select :
      (pack_ref control_id : Text) (observed : List Text) (rows table : List Stored)
      → All (λ s. count_rows s.fingerprint table ≡ 1) rows
      → count_updates (select_candidates pack_ref control_id scan rows) observed table
        ≡ count_where (is_stale pack_ref control_id observed) rows
  unfolding select_candidates
  count_updates-select pack_ref control_id observed [] table h = refl
  count_updates-select pack_ref control_id observed (s ∷ rows) table h =
      ground (arith, h.0, count_updates-select pack_ref control_id observed rows table h.1)
