-- ===== src/Packs/Version/Order.antt =====
-- pkg/query/compliance/pack.go: Compare orders the versions.
use corkscrew.Prelude.{◌≡◌, ◌↔◌, ◌⊎◌, inl, inr, refl, sym, ap, ◌∙◌, true, arith, Bool-cases}
use corkscrew.Prelude.Int.{
  ℤ, pos, int_eq, int_lt, int_eq_iff, int_lt_trans, int_lt_irrefl, int_lt_total,
}
use corkscrew.Packs.Version.{PackVersion, compare, compare_field}

-- A number is less, or the same and what follows is less.
abbrev LessThen : ℤ → ℤ → Type 0 → Type 0
LessThen a b Rest = (int_lt a b ≡ true) ⊎ ((a ≡ b) × Rest)

-- The order of the numbers, the major one first.
abbrev pub Less : PackVersion → PackVersion → Type 0
Less v w = LessThen v.major w.major (LessThen v.minor w.minor (int_lt v.patch w.patch ≡ true))

LessThen_trans :
    (a b c : ℤ) {P Q R : Type 0} → (P → Q → R) → LessThen a b P → LessThen b c Q → LessThen a c R
LessThen_trans a b c f (inl h) (inl k) = inl (int_lt_trans a b c h k)
LessThen_trans a b c f (inl h) (inr k) = inl (ap (int_lt a) (sym k.0) ∙ h)
LessThen_trans a b c f (inr h) (inl k) = inl (ap (λ x. int_lt x c) h.0 ∙ k)
LessThen_trans a b c f (inr h) (inr k) = inr (h.0 ∙ k.0, f h.1 k.1)

LessThen_irrefl : (a : ℤ) {P : Type 0} → (P → ⊥) → LessThen a a P → ⊥
LessThen_irrefl a f (inl h) = ground (arith, int_lt_irrefl a)
LessThen_irrefl a f (inr h) = f h.1

pub Less-trans : (u v w : PackVersion) → Less u v → Less v w → Less u w
Less-trans u v w h k =
    LessThen_trans u.major v.major w.major
      (LessThen_trans u.minor v.minor w.minor (int_lt_trans u.patch v.patch w.patch)) h k

pub Less-irrefl : (v : PackVersion) → Less v v → ⊥
Less-irrefl v h =
    LessThen_irrefl v.major
      (LessThen_irrefl v.minor (λ k. ground (arith, k, int_lt_irrefl v.patch))) h

compare_field-above :
    (a b rest : ℤ) {Rest : Type 0}
    → (rest ≡ pos 1) ↔ Rest
    → (compare_field a b rest ≡ pos 1) ↔ LessThen b a Rest
unfolding compare_field
compare_field-above a b rest h = elim (Bool-cases (int_eq a b)) [
  | inl e ↦ rw e (
    λ k. inr (sym ((int_eq_iff a b).0 e), h.0 k),
    λ k. elim k [
      | inl less ↦ ground (arith, int_eq_iff a b, int_lt_irrefl a)
      | inr same ↦ h.1 same.1
    ],
  )
  | inr e ↦ elim (Bool-cases (int_lt a b)) [
    | inl less ↦ rw e (
        rw less (
          λ k. ground (arith, k),
          λ k. elim k [
            | inl more ↦ ground (arith, int_lt_irrefl a, int_lt_trans a b a)
            | inr same ↦ ground (arith, same.0, int_eq_iff a b)
          ],
        ))
    | inr not_less ↦ rw e (rw not_less (λ k. inl (int_lt_total a b e not_less), λ k. refl))
  ]
]

last-above : (a b : ℤ) → (compare_field a b (pos 0) ≡ pos 1) ↔ (int_lt b a ≡ true)
unfolding compare_field
last-above a b =
    ground (arith, int_eq_iff a b, int_lt_irrefl a, int_lt_trans a b a, int_lt_total a b)

-- Compare says 1 exactly if the other version is less.
pub compare-above_iff : (v w : PackVersion) → (compare v w ≡ pos 1) ↔ Less w v
unfolding compare
compare-above_iff v w =
    compare_field-above v.major w.major _
      (compare_field-above v.minor w.minor _ (last-above v.patch w.patch))

positive_field :
    (a b rest : ℤ)
    → (int_lt (pos 0) rest ≡ true → rest ≡ pos 1)
    → int_lt (pos 0) (compare_field a b rest) ≡ true
    → compare_field a b rest ≡ pos 1
unfolding compare_field
positive_field a b rest h k = ground (arith, h)

pub compare-positive_iff : (v w : PackVersion) → (int_lt (pos 0) (compare v w) ≡ true) ↔ Less w v
unfolding compare
compare-positive_iff v w = (
  λ h. (compare-above_iff v w).0 (
      positive_field v.major w.major _
        (positive_field v.minor w.minor _ (positive_field v.patch w.patch (pos 0) (λ e. cc))) h),
  λ h. ap (int_lt (pos 0)) ((compare-above_iff v w).1 h),
)
