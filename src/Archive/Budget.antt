-- ===== src/Archive/Budget.antt =====
-- internal/archive/archive.go: the byte budget of one extraction. Its counters start positive,
-- because the limits were validated, and every subtraction is guarded, so they are numbers.
pub mod Balance
use corkscrew.Prelude.{
  ℕ, ◌+◌, ◌-◌, ◌^◌, Bool, true, false, ◌&&◌, Option, none, some, List, [], ◌∷◌, length, take, min,
  ltb, leb, ◌==◌, if◌then◌else◌,
}
use corkscrew.Prelude.Int.{ℤ, pos, negsuc}
use corkscrew.Archive.Types.{
  Failure, Err, to_err, Limits, to_nat, Body, negative_entry_size, entry_size_exceeds,
  total_size_exceeds, entry_exceeds,
}

pub record Budget : Type 0 where
  pub bytes_max : ℕ
  pub remaining : ℕ
  pub entry_max : ℕ
  pub written : ℕ
  pub skipped : ℕ
  pub charged : Bool

unfoldable pub new_budget : Limits → Budget
new_budget limits = record {
  bytes_max = to_nat limits.bytes_max;
  remaining = to_nat limits.bytes_max;
  entry_max = to_nat limits.entry_bytes_max;
  written = 0;
  skipped = 0;
  charged = false;
}

-- assertBalanced, as the conjunction of its assertions
unfoldable pub is_balanced : Budget → Bool
is_balanced b = leb b.written b.bytes_max && (b.written + b.skipped + b.remaining == b.bytes_max)

unfoldable pub admit : Budget → ℤ → Err
admit b (negsuc n) = negative_entry_size ∷ []
admit b (pos n) =
    if ltb b.entry_max n
    then entry_size_exceeds ∷ []
    else if ltb b.remaining n
    then total_size_exceeds ∷ []
    else []

unfoldable pub skip : Budget → ℤ → Err × Budget
unfolding admit
skip b size = elim (admit b size) [
  | [] ↦ ([], record b { remaining = b.remaining - to_nat size; skipped = b.skipped + to_nat size })
  | f ∷ fs ↦ (f ∷ fs, b)
]

abbrev pub max_int64 : ℕ
max_int64 = 2 ^ 63 - 1

-- limit + 1 as an int64
unfoldable pub next_int64 : ℕ → ℤ
next_int64 n = if n == max_int64 then negsuc max_int64 else pos (n + 1)

-- What io.Copy reads through io.LimitReader(src, n): at most n bytes, and the error of src only
-- if that comes before the limit.
unfoldable pub read_limited : Body → ℤ → List ℕ × Option Failure
read_limited src (negsuc n) = ([], none)
read_limited src (pos n) =
    if leb n (length src.bytes) then (take n src.bytes, none) else (src.bytes, src.fault)

-- The end of copy, for `n` bytes written and the error of io.Copy.
unfoldable pub charge : Budget → ℕ → Option Failure → Err × Budget
charge b n (some f) = (f ∷ [], record b { charged = true })
charge b n none =
    if ltb b.entry_max n
    then (entry_exceeds ∷ [], record b { charged = true })
    else if ltb b.remaining n
    then (total_size_exceeds ∷ [], record b { charged = true })
    else ([], record b { remaining = b.remaining - n; written = b.written + n; charged = true })

-- The bytes that copy takes from a body.
unfoldable pub copied : Budget → Body → List ℕ × Option Failure
unfolding read_limited next_int64
copied b src = read_limited src (next_int64 (min b.entry_max b.remaining))
