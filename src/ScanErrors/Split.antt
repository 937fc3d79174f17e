-- ===== src/ScanErrors/Split.antt =====
-- internal/shared/scan_errors.go: SplitScanErrors.
use corkscrew.Prelude.{
  ◌≡◌, inl, inr, true, false, List, [], ◌∷◌, ◌++◌, Text, All, All-append, append-nil, append_assoc,
  Bool-cases, if◌then◌else◌,
}
use corkscrew.ScanErrors.Entries.{is_scan_notice}

pub record SplitResult : Type 0 where
  pub errs : List Text
  pub notices : List Text

-- The loop, over what is left of the entries, with the two slices built so far.
split_loop : SplitResult → List Text → SplitResult
split_loop r [] = r
split_loop r (entry ∷ entries) =
    split_loop
      (if is_scan_notice entry
        then record r { notices = r.notices ++ entry ∷ [] }
        else record r { errs = r.errs ++ entry ∷ [] })
      entries

unfoldable pub split_scan_errors : List Text → SplitResult
unfolding split_loop
split_scan_errors entries = split_loop (record { errs = []; notices = [] }) entries

-- `zs` is an interleaving of `xs` and `ys`: each keeps its order, and nothing is lost or added.
pub data Interleaves : List Text → List Text → List Text → Type 0 where
  nil : Interleaves [] [] []
  left :
      {xs ys zs : List Text} (a : Text)
      → Interleaves xs ys zs
      → Interleaves (xs ++ a ∷ []) ys (zs ++ a ∷ [])
  right :
      {xs ys zs : List Text} (a : Text)
      → Interleaves xs ys zs
      → Interleaves xs (ys ++ a ∷ []) (zs ++ a ∷ [])

pub record IsPartition (entries : List Text) (r : SplitResult) : Type 0 where
  pub all_kept : Interleaves r.errs r.notices entries
  pub errs_are_errors : All (λ e. is_scan_notice e ≡ false) r.errs
  pub notices_are_notices : All (λ e. is_scan_notice e ≡ true) r.notices

IsPartition-split_loop :
    (done entries : List Text) (r : SplitResult)
    → IsPartition done r
    → IsPartition (done ++ entries) (split_loop r entries)
unfolding split_loop
IsPartition-split_loop done [] r h = rw append-nil h
IsPartition-split_loop done (entry ∷ entries) r h = elim (Bool-cases (is_scan_notice entry)) [
  | inl e ↦
      rw (e, ← append_assoc done (entry ∷ []) entries)
        (IsPartition-split_loop (done ++ entry ∷ []) entries _ (record {
          all_kept = right entry h.all_kept;
          errs_are_errors = h.errs_are_errors;
          notices_are_notices = All-append _ r.notices (entry ∷ []) h.notices_are_notices (e, tt);
        }))
  | inr e ↦
      rw (e, ← append_assoc done (entry ∷ []) entries)
        (IsPartition-split_loop (done ++ entry ∷ []) entries _ (record {
          all_kept = left entry h.all_kept;
          errs_are_errors = All-append _ r.errs (entry ∷ []) h.errs_are_errors (e, tt);
          notices_are_notices = h.notices_are_notices;
        }))
]

-- The response's entries are an interleaving of the errors and the notices, in their order, and
-- the first list holds only errors and the second only notices.
pub split-IsPartition : (entries : List Text) → IsPartition entries (split_scan_errors entries)
unfolding split_scan_errors
split-IsPartition entries =
    IsPartition-split_loop [] entries _
      (record { all_kept = nil; errs_are_errors = tt; notices_are_notices = tt })
