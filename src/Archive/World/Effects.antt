-- ===== src/Archive/World/Effects.antt =====
-- internal/archive/archive.go: the bytes that go to the file system, and what copy charges.
use corkscrew.Prelude.{
  ℕ, ◌+◌, ◌≤◌, ◌<◌, ◌≡◌, refl, ap, ◌∙◌, Option, none, some, List, [], ◌∷◌, ◌++◌, arith, length,
  length-take, min, sum_by,
}
use corkscrew.Archive.Types.{Failure, Body}
use corkscrew.Archive.Budget.{Budget, charge, copied, read_limited, next_int64, max_int64}
use corkscrew.Archive.Budget.Balance.{IsBalanced, charge-IsBalanced, copied_lem}
use corkscrew.Archive.Paths.{FilePath}
use corkscrew.Archive.World.{
  Effect, mkdir_all, create, write, close_file, rename, remove, Log, Os, io_error, copy,
}

abbrev pub bytes_of : Effect → ℕ
bytes_of (write p bytes) = length bytes
bytes_of (mkdir_all p) = 0
bytes_of (create p m) = 0
bytes_of (close_file p) = 0
bytes_of (rename p q) = 0
bytes_of (remove p) = 0

-- All the bytes that were written.
abbrev pub total_bytes : Log → ℕ
total_bytes = sum_by bytes_of

read-le : (src : Body) (m : ℕ) → length (read_limited src (next_int64 m)).0 ≤ m + 1
unfolding read_limited next_int64
read-le src m = ground (arith, length-take (m + 1) src.bytes)

read_all :
    (src : Body) (m : ℕ)
    → m < max_int64
    → length (read_limited src (next_int64 m)).0 ≤ m
    → length src.bytes ≤ m
unfolding read_limited next_int64
read_all src m h k = ground (arith, length-take (m + 1) src.bytes)

copied_all :
    (b : Budget) (src : Body)
    → min b.entry_max b.remaining < max_int64
    → length (copied b src).0 ≤ min b.entry_max b.remaining
    → length src.bytes ≤ min b.entry_max b.remaining
unfolding copied
copied_all b src h k = read_all src (min b.entry_max b.remaining) h k

pub copied-le : (b : Budget) (src : Body) → length (copied b src).0 ≤ b.remaining + 1
unfolding copied
copied-le b src = omega (arith, read-le src (min b.entry_max b.remaining))

pub charge_lem :
    (b : Budget) (n : ℕ) (e : Option Failure)
    → (charge b n e).0 ≡ []
    → (e ≡ none)
      × (n ≤ b.entry_max)
      × (n ≤ b.remaining)
      × ((charge b n e).1.written ≡ b.written + n)
unfolding charge
charge_lem b n none h = ground arith
charge_lem b n (some f) h = cc

pub charge-bytes_max :
    (b : Budget) (n : ℕ) (e : Option Failure) → (charge b n e).1.bytes_max ≡ b.bytes_max
unfolding charge
charge-bytes_max b n none = ground arith
charge-bytes_max b n (some f) = refl

io_error-none : (a b : Option Failure) → io_error a b ≡ none → (a ≡ none) × (b ≡ none)
io_error-none none b h = (refl, h)
io_error-none (some f) b h = cc

module _ (os : Os) (target : FilePath) (src : Body) (b : Budget) (log : Log) where
  -- Unless both limits are the greatest int64: a copy without error has written the whole body in
  -- one call, the body ended without an error, exactly its length was charged, and it is within
  -- the limit of an entry and what was left of the total.
  pub copy_whole :
      min b.entry_max b.remaining < max_int64
      → (copy os target src b log).result ≡ []
      → ((copy os target src b log).log ≡ log ++ write target src.bytes ∷ [])
        × (src.fault ≡ none)
        × ((copy os target src b log).budget.written ≡ b.written + length src.bytes)
        × (length src.bytes ≤ b.entry_max)
        × (length src.bytes ≤ b.remaining)
  unfolding copy
  copy_whole room ok =
      let (e, n, m, w) = charge_lem b (length (copied b src).0) _ ok in
      let (wrote, read) = io_error-none _ (copied b src).1 e in
      let (short, whole) = copied_lem b src room in
      let fits : length src.bytes ≤ min b.entry_max b.remaining =
        copied_all b src room (omega (arith, n, m)) in
      let same : copied b src ≡ (src.bytes, src.fault) = whole fits in
      let none_left : src.fault ≡ none = cc (same, read) in
      let bytes : (copied b src).0 ≡ src.bytes = cc same in
      (
        ap (λ l. log ++ write target l ∷ []) bytes,
        none_left,
        w ∙ ap (λ (l : List ℕ). b.written + length l) bytes,
        omega (arith, fits),
        omega (arith, fits),
      )

  pub copy-log : (copy os target src b log).log ≡ log ++ write target (copied b src).0 ∷ []
  unfolding copy
  copy-log = refl

  pub copy-budget :
      ((copy os target src b log).budget.bytes_max ≡ b.bytes_max)
      × (IsBalanced b → IsBalanced (copy os target src b log).budget)
      × ((copy os target src b log).result ≡ []
          → (copy os target src b log).budget.written ≡ b.written + length (copied b src).0)
  unfolding copy
  copy-budget =
      let n = length (copied b src).0 in
      let e = io_error (os log (write target (copied b src).0)) (copied b src).1 in
      (charge-bytes_max b n e, charge-IsBalanced b n e, λ ok. (charge_lem b n e ok).3)
