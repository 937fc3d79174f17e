-- ===== src/Packs/Parameter/Equal.antt =====
-- pkg/query/compliance/pack.go: which values the enum loop of ValidateParameter takes for equal.
use corkscrew.Prelude.{
  ℕ, ◌≡◌, ◌↔◌, refl, ap, inl, inr, Bool, true, false, arith, text_eq_iff, Bool-cases, Run, done,
  panic, ◌==◌, if◌then◌else◌, ==_iff,
}
use corkscrew.Prelude.Int.{int_eq_iff}
use corkscrew.Prelude.Floats.{IsSameNumber, float_eq_iff}
use corkscrew.Packs.Types.{
  Value, nil, text, int, int32, int64, float, bool, list, object, other, uncomparable,
}
use corkscrew.Packs.Parameter.{bool_eq, value_eq}

-- Both have one type, and it cannot be compared.
abbrev pub AreUncomparable : Value → Value → Type 0
AreUncomparable (list a) (list b) = Unit {0}
AreUncomparable (object a) (object b) = Unit {0}
AreUncomparable (uncomparable k a) (uncomparable j b) = k ≡ j
AreUncomparable _ _ = ⊥

-- The values are the same; of two float64, the numbers are.
abbrev pub AreSame : Value → Value → Type 0
AreSame (float a) (float b) = IsSameNumber a b
AreSame v w = v ≡ w

-- What `==` of two values gives.
pub data Compared (v w : Value) : Run Bool → Type 0 where
  fails : AreUncomparable v w → Compared v w panic
  same : (AreUncomparable v w → ⊥) → AreSame v w → Compared v w (done true)
  different : (AreUncomparable v w → ⊥) → (AreSame v w → ⊥) → Compared v w (done false)

told :
    (v w : Value) (b : Bool)
    → (AreUncomparable v w → ⊥)
    → (b ≡ true) ↔ AreSame v w
    → Compared v w (done b)
told v w true h k = same h (k.0 refl)
told v w false h k = different h (λ e. let bad = k.1 e in cc)

kinds_told :
    (j k a b : ℕ)
    → Compared (uncomparable j a) (uncomparable k b) (if j == k then panic else done false)
kinds_told j k a b = elim (Bool-cases (j == k)) [
  | inl e ↦ rw e (fails ((==_iff j k).0 e))
  | inr e ↦
      rw e
        (different (λ h. ground (arith, h, e)) (λ h. let eq : j ≡ k = cc in ground (arith, eq, e)))
]

pub value_eq-Compared : (v w : Value) → Compared v w (value_eq v w)
unfolding value_eq bool_eq
value_eq-Compared nil nil = same (λ h. h) refl
value_eq-Compared (text s) (text t) =
    told _ _ _ (λ h. h) (λ e. ap text ((text_eq_iff s t).0 e), λ e. (text_eq_iff s t).1 cc)
value_eq-Compared (int m) (int n) =
    told _ _ _ (λ h. h) (λ e. ap int ((int_eq_iff m n).0 e), λ e. (int_eq_iff m n).1 cc)
value_eq-Compared (int32 m) (int32 n) =
    told _ _ _ (λ h. h) (λ e. ap int32 ((int_eq_iff m n).0 e), λ e. (int_eq_iff m n).1 cc)
value_eq-Compared (int64 m) (int64 n) =
    told _ _ _ (λ h. h) (λ e. ap int64 ((int_eq_iff m n).0 e), λ e. (int_eq_iff m n).1 cc)
value_eq-Compared (float a) (float b) = told _ _ _ (λ h. h) (float_eq_iff a b)
value_eq-Compared (bool true) (bool true) = same (λ h. h) refl
value_eq-Compared (bool true) (bool false) = different (λ h. h) (λ e. cc)
value_eq-Compared (bool false) (bool true) = different (λ h. h) (λ e. cc)
value_eq-Compared (bool false) (bool false) = same (λ h. h) refl
value_eq-Compared (list a) (list b) = fails tt
value_eq-Compared (object a) (object b) = fails tt
value_eq-Compared (other m) (other n) =
    told _ _ _ (λ h. h) (λ e. ap other ((==_iff m n).0 e), λ e. (==_iff m n).1 cc)
value_eq-Compared (uncomparable j a) (uncomparable k b) = kinds_told j k a b
value_eq-Compared _ _ = different (λ h. h) (λ e. cc)
