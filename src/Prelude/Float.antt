-- ===== src/Prelude/Float.antt =====
-- Go's float64, by its bits: the sign, and the 63 bits below it.
use Prim.Native.Nat.{ℕ, ◌+◌, ◌-◌, ◌*◌, ◌/◌, ◌%◌, ◌^◌}
use mathlib.Core.Bool.{Bool, ◌&&◌, ◌||◌, not}
use corkscrew.Prelude.Tests.{◌==◌, ltb, leb, if◌then◌else◌}

pub record Float : Type 0 where
  pub negative : Bool
  pub magnitude : ℕ

-- The bits of infinity; above them there is no number.
abbrev pub infinity : ℕ
infinity = 2047 * 2 ^ 52

unfoldable pub is_nan : Float → Bool
is_nan a = ltb infinity a.magnitude

unfoldable pub bits_lt : Float → Float → Bool
bits_lt a b =
    if a.negative
    then (if b.negative
        then ltb b.magnitude a.magnitude
        else ltb 0 a.magnitude || ltb 0 b.magnitude)
    else not b.negative && ltb a.magnitude b.magnitude

-- a < b
unfoldable pub float_lt : Float → Float → Bool
unfolding is_nan bits_lt
float_lt a b = not (is_nan a) && not (is_nan b) && bits_lt a b

-- a == b
unfoldable pub float_eq : Float → Float → Bool
unfolding is_nan bits_lt
float_eq a b = not (is_nan a) && not (is_nan b) && not (bits_lt a b) && not (bits_lt b a)

-- The exponent and the significand of a number that is at least the least normal one: it is the
-- significand times 2 ^ (exponent - 1075).
abbrev pub exponent : ℕ → ℕ
exponent magnitude = magnitude / 2 ^ 52

abbrev pub significand : ℕ → ℕ
significand magnitude = 2 ^ 52 + magnitude % 2 ^ 52

-- Of a number that is less than 2 ^ 63 and at least 1 in absolute value: it has no fraction.
unfoldable pub has_no_fraction : ℕ → Bool
has_no_fraction magnitude =
    leb 1075 (exponent magnitude) || significand magnitude % 2 ^ (1075 - exponent magnitude) == 0

-- a == float64(int(a)), where the conversion of what an int cannot hold gives the least int.
unfoldable pub is_integral : Float → Bool
unfolding has_no_fraction
is_integral a =
    a.magnitude == 0
    || (leb (1023 * 2 ^ 52) a.magnitude
        && ltb a.magnitude (1086 * 2 ^ 52)
        && has_no_fraction a.magnitude)
    || (a.negative && a.magnitude == 1086 * 2 ^ 52)
