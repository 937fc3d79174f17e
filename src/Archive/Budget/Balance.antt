-- ===== src/Archive/Budget/Balance.antt =====
-- internal/archive/archive.go: the books of the budget.
use corkscrew.Prelude.{
  ℕ, ◌+◌, ◌≤◌, ◌<◌, ◌≡◌, ◌↔◌, refl, true, Option, none, some, [], arith, length, length-take, min,
}
use corkscrew.Prelude.Int.{ℤ, pos, negsuc}
use corkscrew.Archive.Types.{Failure, Limits, to_nat, Body}
use corkscrew.Archive.Budget.{
  Budget, new_budget, is_balanced, admit, skip, charge, copied, read_limited, next_int64, max_int64,
}

-- Every byte of the budget is written, skipped or left.
pub record IsBalanced (b : Budget) : Type 0 where
  pub accounted : b.written + b.skipped + b.remaining ≡ b.bytes_max

pub new_budget-IsBalanced : (l : Limits) → IsBalanced (new_budget l)
unfolding new_budget
new_budget-IsBalanced l = omega arith

pub is_balanced-of_IsBalanced : (b : Budget) → IsBalanced b → is_balanced b ≡ true
unfolding is_balanced
is_balanced-of_IsBalanced b h = ground arith

-- A declared size is admitted exactly if it is not negative and within both limits.
pub admit-nil_iff :
    (b : Budget) (size : ℤ)
    → (admit b size ≡ [])
      ↔ ((size ≡ pos (to_nat size)) × (to_nat size ≤ b.entry_max) × (to_nat size ≤ b.remaining))
unfolding admit
admit-nil_iff b (negsuc n) = ground arith
admit-nil_iff b (pos n) = ground arith

-- If the books balance, they balance after an entry was skipped, whether it was admitted or
-- refused.
pub skip-IsBalanced : (b : Budget) (size : ℤ) → IsBalanced b → IsBalanced (skip b size).1
unfolding skip
skip-IsBalanced b (negsuc n) h = ground arith
skip-IsBalanced b (pos n) h = ground arith

-- A skip changes neither the limit nor what was written.
pub skip_lem :
    (b : Budget) (size : ℤ)
    → ((skip b size).1.bytes_max ≡ b.bytes_max) × ((skip b size).1.written ≡ b.written)
unfolding skip
skip_lem b (negsuc n) = ground arith
skip_lem b (pos n) = ground arith

-- If the books balance, they balance after the end of copy, on success and on each of its failures.
pub charge-IsBalanced :
    (b : Budget) (n : ℕ) (e : Option Failure) → IsBalanced b → IsBalanced (charge b n e).1
unfolding charge
charge-IsBalanced b n none h = ground arith
charge-IsBalanced b n (some f) h = record { accounted = h.accounted }

read_within :
    (src : Body) (m : ℕ)
    → m < max_int64
    → (length (read_limited src (next_int64 m)).0 ≤ m + 1)
      × (length src.bytes ≤ m → read_limited src (next_int64 m) ≡ (src.bytes, src.fault))
unfolding read_limited next_int64
read_within src m h = ground (arith, length-take (m + 1) src.bytes)

-- Unless both limits are the greatest int64, no more than one byte past the tighter of the two limits
-- is read, and a body that stays within both is read whole, with its error.
pub copied_lem :
    (b : Budget) (src : Body)
    → min b.entry_max b.remaining < max_int64
    → (length (copied b src).0 ≤ min b.entry_max b.remaining + 1)
      × (length src.bytes ≤ min b.entry_max b.remaining → copied b src ≡ (src.bytes, src.fault))
unfolding copied
copied_lem b src h = read_within src (min b.entry_max b.remaining) h

read_at_max : (src : Body) → read_limited src (next_int64 max_int64) ≡ ([], none)
unfolding read_limited next_int64
read_at_max src = refl

charge_nothing : (b : Budget) → (charge b 0 none).0 ≡ []
unfolding charge
charge_nothing b = ground arith

-- With both limits at the greatest int64 the limit of the reader wraps to a negative number: of
-- any body nothing is read, and the copy still succeeds.
pub copy_overflows :
    (b : Budget) (src : Body)
    → min b.entry_max b.remaining ≡ max_int64
    → (copied b src ≡ ([], none)) × ((charge b (length (copied b src).0) (copied b src).1).0 ≡ [])
unfolding copied
copy_overflows b src h = rw (h, read_at_max src) (refl, charge_nothing b)
