-- ===== src/Prelude/Decimal.antt =====
-- strconv.Itoa of a number that is not negative, and strconv.Atoi, for an int of 64 bits.
use Prim.Native.Nat.{ℕ, zero, suc, ◌+◌, ◌-◌, ◌*◌, ◌/◌, ◌%◌, ◌^◌, ◌≤◌, ◌<◌}
use mathlib.Core.Path.{◌≡◌, refl, sym, ap, ◌∙◌}
use mathlib.Core.Logic.{◌≢◌, inl, inr}
use mathlib.Core.Bool.{Bool, true, false, ◌&&◌}
use mathlib.Core.Option.{Option, none, some}
use mathlib.Core.List.{[], ◌∷◌}
use native.Mathlib.Omega.{arith}
use corkscrew.Prelude.Tests.{◌==◌, ltb, leb, if◌then◌else◌, Bool-cases}
use corkscrew.Prelude.Strings.{Text}
use corkscrew.Prelude.Int.{ℤ, pos, negsuc}

-- The digits of a number before `out`, with fuel for the divisions.
emit : ℕ → ℕ → Text → Text
emit zero n out = out
emit (suc fuel) n out =
    let rest = emit fuel (n / 10) ((b'0' + n % 10) ∷ out) in
    if ltb n 10 then (b'0' + n) ∷ out else rest

unfoldable pub itoa : ℕ → Text
unfolding emit
itoa n = emit (suc n) n []

unfoldable pub is_digit : ℕ → Bool
is_digit c = leb b'0' c && leb c b'9'

scan : ℕ → Text → Option ℕ
unfolding is_digit
scan n [] = some n
scan n (c ∷ s) = if is_digit c then scan (n * 10 + (c - b'0')) s else none

-- One digit at least.
unsigned : Text → Option ℕ
unfolding scan
unsigned [] = none
unsigned (c ∷ s) = scan 0 (c ∷ s)

positive : Option ℕ → Option ℤ
positive none = none
positive (some n) = if ltb n (2 ^ 63) then some (pos n) else none

negative : Option ℕ → Option ℤ
negative none = none
negative (some zero) = some (pos 0)
negative (some (suc n)) = if ltb n (2 ^ 63) then some (negsuc n) else none

unfoldable pub atoi : Text → Option ℤ
unfolding unsigned positive negative
atoi [] = none
atoi (c ∷ s) =
    if c == b'-'
    then negative (unsigned s)
    else if c == b'+'
    then positive (unsigned s)
    else positive (unsigned (c ∷ s))

scan-digit : (a d : ℕ) (out : Text) → d < 10 → scan a ((b'0' + d) ∷ out) ≡ scan (a * 10 + d) out
unfolding scan is_digit
scan-digit a d out h =
    let digit : is_digit (b'0' + d) ≡ true = ground arith in
    rw digit (ap (λ (n : ℕ). scan n out) (omega arith))

-- The digits are read back to the number.
scan-emit : (fuel n : ℕ) (out : Text) → n < fuel → scan 0 (emit fuel n out) ≡ scan n out
unfolding emit
scan-emit zero n out h = elim h [ ]
scan-emit (suc fuel) n out h = elim (Bool-cases (ltb n 10)) [
  | inl small ↦
      rw small (scan-digit 0 n out (ground arith) ∙ ap (λ (k : ℕ). scan k out) (omega arith))
  | inr big ↦ rw big (
      scan-emit fuel (n / 10) _ (ground arith)
      ∙ scan-digit (n / 10) (n % 10) out (omega arith)
      ∙ ap (λ (k : ℕ). scan k out) (omega arith))
]

emit-head :
    (fuel n : ℕ) (out : Text)
    → n < fuel
    → (c : ℕ) × (s : Text) × (emit fuel n out ≡ c ∷ s) × (b'0' ≤ c)
unfolding emit
emit-head zero n out h = elim h [ ]
emit-head (suc fuel) n out h = elim (Bool-cases (ltb n 10)) [
  | inl small ↦ rw small (b'0' + n, out, refl, omega arith)
  | inr big ↦ rw big (emit-head fuel (n / 10) _ (ground arith))
]

signless :
    (c : ℕ) (s : Text) (n : ℕ)
    → b'0' ≤ c
    → scan 0 (c ∷ s) ≡ some n
    → n < 2 ^ 63
    → atoi (c ∷ s) ≡ some (pos n)
unfolding atoi unsigned positive
signless c s n digit value h =
    let minus : (c == b'-') ≡ false = ground arith in
    let plus : (c == b'+') ≡ false = ground arith in rw (minus, plus, value) (ground arith)

-- Atoi undoes Itoa.
pub atoi-itoa : (n : ℕ) → n < 2 ^ 63 → atoi (itoa n) ≡ some (pos n)
unfolding itoa atoi
atoi-itoa n h =
    let (c, s, e, digit) = emit-head (suc n) n [] (omega arith) in
    let value : scan 0 (c ∷ s) ≡ some n =
      ap (scan 0) (sym e) ∙ scan-emit (suc n) n [] (omega arith) in
    rw e (signless c s n digit value h)

pub itoa-ne-nil : (n : ℕ) → itoa n ≢ []
unfolding itoa
itoa-ne-nil n h = let (c, s, e, digit) = emit-head (suc n) n [] (omega arith) in cc
