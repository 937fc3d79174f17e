-- ===== src/Prelude/Int.antt =====
-- Go's signed integers, with their order; `negsuc n` is -(n + 1).
use Prim.Native.Nat.{ℕ}
use mathlib.Core.Path.{◌≡◌}
use mathlib.Core.Logic.{◌↔◌}
use mathlib.Core.Bool.{Bool, true, false}
use native.Mathlib.Omega.{arith}
use corkscrew.Prelude.Tests.{◌==◌, ltb}

pub data ℤ : Type 0 where
  pos : ℕ → ℤ
  negsuc : ℕ → ℤ

abbrev pub int_eq : ℤ → ℤ → Bool
int_eq (pos m) (pos n) = m == n
int_eq (negsuc m) (negsuc n) = m == n
int_eq _ _ = false

abbrev pub int_lt : ℤ → ℤ → Bool
int_lt (pos m) (pos n) = ltb m n
int_lt (negsuc m) (negsuc n) = ltb n m
int_lt (negsuc m) (pos n) = true
int_lt (pos m) (negsuc n) = false

pub int_eq_iff : (a b : ℤ) → (int_eq a b ≡ true) ↔ (a ≡ b)
int_eq_iff (pos m) (pos n) = ground arith
int_eq_iff (negsuc m) (negsuc n) = ground arith
int_eq_iff (pos m) (negsuc n) = ground arith
int_eq_iff (negsuc m) (pos n) = ground arith

pub int_lt_trans : (a b c : ℤ) → int_lt a b ≡ true → int_lt b c ≡ true → int_lt a c ≡ true
int_lt_trans (pos m) (pos n) (pos k) h l = ground arith
int_lt_trans (negsuc m) (negsuc n) (negsuc k) h l = ground arith
int_lt_trans (negsuc m) (negsuc n) (pos k) h l = ground arith
int_lt_trans (negsuc m) (pos n) (pos k) h l = ground arith
int_lt_trans (pos m) (negsuc n) c h l = ground arith
int_lt_trans a (pos n) (negsuc k) h l = ground arith

pub int_lt_irrefl : (a : ℤ) → int_lt a a ≡ false
int_lt_irrefl (pos m) = ground arith
int_lt_irrefl (negsuc m) = ground arith

pub int_lt_total : (a b : ℤ) → int_eq a b ≡ false → int_lt a b ≡ false → int_lt b a ≡ true
int_lt_total (pos m) (pos n) h l = ground arith
int_lt_total (negsuc m) (negsuc n) h l = ground arith
int_lt_total (pos m) (negsuc n) h l = ground arith
int_lt_total (negsuc m) (pos n) h l = ground arith
