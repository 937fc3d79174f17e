-- ===== src/Prelude/Floats.antt =====
-- What the tests on float64 say of the numbers.
use Prim.Native.Nat.{ℕ, zero, suc, ◌-◌, ◌*◌, ◌/◌, ◌%◌, ◌^◌, ◌≤◌, ◌<◌}
use native.Mathlib.Nat.{div-add-mod, mul-mod_left, mul_comm}
use native.Mathlib.Omega.{arith}
use mathlib.Core.Path.{◌≡◌, refl, sym, ap, ◌∙◌}
use mathlib.Core.Logic.{◌↔◌, ◌⊎◌, inl, inr}
use mathlib.Core.Bool.{Bool, true, false, ◌&&◌, ◌||◌}
use corkscrew.Prelude.Tests.{◌==◌, leb, ==_iff, Bool-cases}
use corkscrew.Prelude.Int.{ℤ, pos, negsuc, int_lt}
use corkscrew.Prelude.Float.{
  Float, infinity, is_nan, bits_lt, float_eq, float_lt, exponent, significand, has_no_fraction,
  is_integral,
}

abbrev pub IsNumber : Float → Type 0
IsNumber a = a.magnitude ≤ infinity

-- The same number: both zeros are one.
abbrev pub IsSameNumber : Float → Float → Type 0
IsSameNumber a b = IsNumber a × IsNumber b × ((a ≡ b) ⊎ ((a.magnitude ≡ 0) × (b.magnitude ≡ 0)))

-- A multiple of the power of two that its exponent leaves below the point.
abbrev pub IsMultiple : ℕ → Type 0
IsMultiple magnitude =
    (1075 ≤ exponent magnitude)
    ⊎ ((k : ℕ) × (k * 2 ^ (1075 - exponent magnitude) ≡ significand magnitude))

-- An integer that an int of 64 bits holds: zero, or at least 1 and less than 2 ^ 63 in absolute
-- value and with nothing below the point, or -2 ^ 63.
abbrev pub IsInteger : Float → Type 0
IsInteger a =
    (a.magnitude ≡ 0)
    ⊎ (((1023 * 2 ^ 52 ≤ a.magnitude) × (a.magnitude < 1086 * 2 ^ 52) × IsMultiple a.magnitude)
        ⊎ ((a.negative ≡ true) × (a.magnitude ≡ 1086 * 2 ^ 52)))

multiple_iff : (d s : ℕ) → (s % d ≡ 0) ↔ ((k : ℕ) × (k * d ≡ s))
multiple_iff d s = (
  λ h. (s / d, mul_comm (s / d) d ∙ omega (arith, h, div-add-mod s d)),
  λ h. ap (λ (n : ℕ). n % d) (sym h.1) ∙ mul-mod_left h.0 d,
)

eq_of_fields : (a b : Float) → a.negative ≡ b.negative → a.magnitude ≡ b.magnitude → a ≡ b
eq_of_fields a b e f =
    ap (λ (n : Bool). let c : Float = record { negative = n; magnitude = a.magnitude } in c) e
    ∙ ap (λ (m : ℕ). let c : Float = record { negative = b.negative; magnitude = m } in c) f

-- The order on the bits, both ways, tells the numbers apart.
incomparable :
    (a b : Float)
    → bits_lt a b ≡ false
    → bits_lt b a ≡ false
    → (a ≡ b) ⊎ ((a.magnitude ≡ 0) × (b.magnitude ≡ 0))
unfolding bits_lt
incomparable a b h k = elim (Bool-cases a.negative) [
  | inl na ↦ elim (Bool-cases b.negative) [
    | inl nb ↦ inl (eq_of_fields a b (na ∙ sym nb) (ground (arith, h, k, na, nb)))
    | inr nb ↦ inr (ground (arith, h, na, nb), ground (arith, h, na, nb))
  ]
  | inr na ↦ elim (Bool-cases b.negative) [
    | inl nb ↦ inr (ground (arith, k, na, nb), ground (arith, k, na, nb))
    | inr nb ↦ inl (eq_of_fields a b (na ∙ sym nb) (ground (arith, h, k, na, nb)))
  ]
]

bits_lt_irrefl : (a : Float) → bits_lt a a ≡ false
unfolding bits_lt
bits_lt_irrefl a = ground arith

bits_lt_zeros : (a b : Float) → a.magnitude ≡ 0 → b.magnitude ≡ 0 → bits_lt a b ≡ false
unfolding bits_lt
bits_lt_zeros a b e f = ground arith

same_bits :
    (a b : Float)
    → (a ≡ b) ⊎ ((a.magnitude ≡ 0) × (b.magnitude ≡ 0))
    → (bits_lt a b ≡ false) × (bits_lt b a ≡ false)
same_bits a b (inl e) = rw e (bits_lt_irrefl b, bits_lt_irrefl b)
same_bits a b (inr (e, f)) = (bits_lt_zeros a b e f, bits_lt_zeros b a f e)

pub float_eq_iff : (a b : Float) → (float_eq a b ≡ true) ↔ IsSameNumber a b
unfolding float_eq is_nan
float_eq_iff a b = (
  λ h. (
    ground (arith, h),
    ground (arith, h),
    incomparable a b (ground (arith, h)) (ground (arith, h)),
  ),
  λ h. ground (arith, h.0, h.1, (same_bits a b h.2).0, (same_bits a b h.2).1),
)

or_true : (b c : Bool) → c ≡ true → (b || c) ≡ true
or_true true c h = refl
or_true false c h = h

has_no_fraction_iff : (m : ℕ) → (has_no_fraction m ≡ true) ↔ IsMultiple m
unfolding has_no_fraction
has_no_fraction_iff m = (
  λ h. elim (Bool-cases (leb 1075 (exponent m))) [
    | inl e ↦ inl (ground (arith, e))
    | inr e ↦ inr (
        (multiple_iff (2 ^ (1075 - exponent m)) (significand m)).0
          ((==_iff (significand m % 2 ^ (1075 - exponent m)) 0).0 (rw e at h)))
  ],
  λ k. elim k [
    | inl e ↦ ground (arith, e)
    | inr e ↦ or_true (leb 1075 (exponent m)) _ (
        (==_iff (significand m % 2 ^ (1075 - exponent m)) 0).1
          ((multiple_iff (2 ^ (1075 - exponent m)) (significand m)).1 e))
  ],
)

pub is_integral_iff : (a : Float) → (is_integral a ≡ true) ↔ IsInteger a
unfolding is_integral
is_integral_iff a =
    let whole = has_no_fraction_iff a.magnitude in
    (
      λ h. elim (Bool-cases (a.magnitude == 0)) [
        | inl naught ↦ inl (ground (arith, naught))
        | inr e ↦ elim (Bool-cases (a.negative && a.magnitude == 1086 * 2 ^ 52)) [
          | inl least ↦ inr (inr (ground (arith, least), ground (arith, least)))
          | inr f ↦ inr (
              inl (
                ground (arith, h, e, f),
                ground (arith, h, e, f),
                whole.0 (ground (arith, h, e, f)),
              ))
        ]
      ],
      λ h. elim h [
        | inl e ↦ ground (arith, e)
        | inr (inl (low, high, m)) ↦ ground (arith, low, high, whole.1 m)
        | inr (inr (n, e)) ↦ ground (arith, n, e)
      ],
    )

-- The order of the numbers by their sign and the bits below it, as an integer.
abbrev pub signed : Bool → ℕ → ℤ
signed true zero = pos 0
signed true (suc m) = negsuc m
signed false m = pos m

abbrev pub IsBelow : Float → Float → Type 0
IsBelow a b =
    IsNumber a
    × IsNumber b
    × (int_lt (signed a.negative a.magnitude) (signed b.negative b.magnitude) ≡ true)

signed_lem :
    (na : Bool) (ma : ℕ) (nb : Bool) (mb : ℕ)
    → bits_lt (record { negative = na; magnitude = ma }) (record { negative = nb; magnitude = mb })
      ≡ int_lt (signed na ma) (signed nb mb)
unfolding bits_lt
signed_lem false m false n = refl
signed_lem false m true zero = ground arith
signed_lem false m true (suc n) = refl
signed_lem true zero false n = ground arith
signed_lem true (suc m) false n = ground arith
signed_lem true zero true zero = ground arith
signed_lem true zero true (suc n) = ground arith
signed_lem true (suc m) true zero = ground arith
signed_lem true (suc m) true (suc n) = ground arith

pub float_lt_iff : (a b : Float) → (float_lt a b ≡ true) ↔ IsBelow a b
unfolding float_lt is_nan
float_lt_iff a b =
    let same : bits_lt a b
        ≡ int_lt (signed a.negative a.magnitude) (signed b.negative b.magnitude) =
      signed_lem a.negative a.magnitude b.negative b.magnitude in
    (
      λ h. (ground (arith, h), ground (arith, h), sym same ∙ ground (arith, h)),
      λ h. let less : bits_lt a b ≡ true = same ∙ h.2 in ground (arith, h.0, h.1, less),
    )
