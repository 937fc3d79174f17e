-- ===== src/Findings/Batches/Lookups.antt =====
-- internal/app/findings/findings.go: what existingFingerprints reads, one chunk after another.
use corkscrew.Prelude.{
  ℕ, zero, suc, ◌≤◌, ◌≡◌, refl, ap, ◌∙◌, Bool, true, ◌&&◌, ◌||◌, List, [], ◌∷◌, ◌++◌, Text,
  text_eq_iff, arith, length, take, drop, length-take, length-drop, leb,
}
use corkscrew.Findings.Types.{Stored}
use corkscrew.Findings.Tables.{is_in, has_row, select_existing}
use corkscrew.Findings.Tables.Upserts.{is_in-append}
use corkscrew.Findings.Attempt.{
  Tx, ok, Ensures, Ensures-pure, Ensures-bind, Ensures-statement, Ensures-mono,
}
use corkscrew.Findings.Record.{batch_max}
use corkscrew.Findings.Batches.{chunks, existing_fingerprints, all_existing}

is_in-take-drop :
    (n : ℕ) (k : Text) (xs : List Text) → (is_in k (take n xs) || is_in k (drop n xs)) ≡ is_in k xs
unfolding is_in
is_in-take-drop zero k xs = refl
is_in-take-drop (suc n) k [] = refl
is_in-take-drop (suc n) k (x ∷ xs) = ground (arith, is_in-take-drop n k xs)

is_in-select_existing :
    (k : Text) (chunk : List Text) (table : List Stored)
    → is_in k (select_existing chunk table) ≡ (is_in k chunk && has_row k table)
unfolding is_in select_existing has_row
is_in-select_existing k chunk [] = ground arith
is_in-select_existing k chunk (s ∷ table) =
    ground (arith, is_in-select_existing k chunk table, text_eq_iff s.fingerprint k)

-- A read leaves the tables alone.
pub record SameTables (t t' : Tx) : Type 0 where
  pub findings : t'.findings ≡ t.findings
  pub occurrences : t'.occurrences ≡ t.occurrences

-- Exactly the stored ones of the fingerprints asked for are added.
pub record IsLookup (t : Tx) (asked before after : List Text) (t' : Tx) : Type 0 where
  pub same : SameTables t t'
  pub found :
      (k : Text) → is_in k after ≡ (is_in k before || (is_in k asked && has_row k t.findings))

in_parts : (a b x y h : Bool) → b ≡ (a || (x && h)) → (b || (y && h)) ≡ (a || ((x || y) && h))
in_parts a b x y h e = ground arith

-- The lookup of a chunk, and then of what is left.
IsLookup-trans :
    (k : Text) (ks before between after : List Text) (t t' t'' : Tx)
    → IsLookup t (take batch_max (k ∷ ks)) before between t'
    → IsLookup t' (drop batch_max (k ∷ ks)) between after t''
    → IsLookup t (k ∷ ks) before after t''
IsLookup-trans k ks before between after t t' t'' h h' = record {
  same = record {
    findings = h'.same.findings ∙ h.same.findings;
    occurrences = h'.same.occurrences ∙ h.same.occurrences;
  };
  found = λ j.
      h'.found j
      ∙ rw h.same.findings (
          in_parts (is_in j before) _ _ _ (has_row j t.findings) (h.found j)
          ∙ ap (λ asked. is_in j before || (asked && has_row j t.findings))
              (is_in-take-drop batch_max j (k ∷ ks)));
}

looked_none : (t : Tx) (existing : List Text) → IsLookup t [] existing existing t
unfolding is_in
looked_none t existing = record {
  same = record { findings = refl; occurrences = refl };
  found = λ k. ground arith;
}

module _ (fails : ℕ → Bool) where
  existing_fingerprints-IsLookup :
      (t : Tx) (chunk existing : List Text)
      → length chunk ≤ batch_max
      → Ensures fails t (IsLookup t chunk existing) (existing_fingerprints fails chunk existing t)
  unfolding existing_fingerprints is_in
  existing_fingerprints-IsLookup t [] existing b =
      Ensures-pure fails (IsLookup t [] existing) existing t (looked_none t existing)
  existing_fingerprints-IsLookup t (c ∷ cs) existing b =
      let small : leb (length (c ∷ cs)) batch_max ≡ true = ground arith in
      rw small (
        Ensures-statement fails (IsLookup t (c ∷ cs) existing)
          (λ (u : Tx). (select_existing (c ∷ cs) u.findings, u)) t
          (λ found u. ok (existing ++ found) u) (λ u. (refl, refl))
          (λ n. Ensures-pure fails (IsLookup t (c ∷ cs) existing) _ _ (record {
            same = record { findings = refl; occurrences = refl };
            found = λ k.
                is_in-append k existing (select_existing (c ∷ cs) t.findings)
                ∙ ap (◌||◌ (is_in k existing)) (is_in-select_existing k (c ∷ cs) t.findings);
          })))

  pub all_existing-IsLookup :
      (n : ℕ) (t : Tx) (order existing : List Text)
      → length order ≤ n
      → Ensures fails t (IsLookup t order existing) (all_existing fails (chunks n order) existing t)
  unfolding all_existing chunks is_in
  all_existing-IsLookup zero t [] existing b =
      Ensures-pure fails (IsLookup t [] existing) existing t (looked_none t existing)
  all_existing-IsLookup zero t (k ∷ ks) existing b = absurd (omega arith)
  all_existing-IsLookup (suc n) t [] existing b =
      Ensures-pure fails (IsLookup t [] existing) existing t (looked_none t existing)
  all_existing-IsLookup (suc n) t (k ∷ ks) existing b =
      let chunk : List Text = take batch_max (k ∷ ks) in
      let rest : List Text = drop batch_max (k ∷ ks) in
      Ensures-bind fails t (IsLookup t chunk existing) (IsLookup t (k ∷ ks) existing)
        (existing_fingerprints fails chunk existing t) (all_existing fails (chunks n rest))
        (existing_fingerprints-IsLookup t chunk existing
          (omega (arith, length-take batch_max (k ∷ ks))))
        (λ existing' t' h.
          Ensures-mono fails t' (IsLookup t' rest existing') (IsLookup t (k ∷ ks) existing)
            (all_existing fails (chunks n rest) existing' t')
            (all_existing-IsLookup n t' rest existing'
              (omega (arith, length-drop batch_max (k ∷ ks))))
            (λ after t'' h'. IsLookup-trans k ks existing existing' after t t' t'' h h'))
