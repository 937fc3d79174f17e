-- ===== src/Packs/Check/Parameters.antt =====
-- pkg/query/compliance/pack.go: the checks of parameters in ValidatePack.
use corkscrew.Prelude.{
  ℕ, suc, ◌≡◌, ◌↔◌, refl, Bool, false, Option, none, some, List, [], ◌∷◌, arith, Text, All,
}
use corkscrew.Prelude.Int.{ℤ, pos, int_lt}
use corkscrew.Prelude.Float.{float_lt}
use corkscrew.Packs.Types.{ParameterValidation, PackParameter}
use corkscrew.Packs.Distinct.{contains, AreDistinct, AreFresh, AreFresh-cons, cons-AreFresh}
use corkscrew.Packs.Check.{
  collect, is_negative, are_crossed, rules_errors, validation_tests, parameter_tests,
  validation_errors, parameter_errors, parameters_errors,
}
use corkscrew.Packs.Check.Valid.{IsValidation, IsParameter, parameter_names}
use corkscrew.Packs.Check.Forms.{collect-nil_iff, append-nil_iff, nonempty_iff, form_iff}

is_negative_iff :
    (limit : Option ℤ)
    → (is_negative limit ≡ false) ↔ ((n : ℤ) → limit ≡ some n → int_lt n (pos 0) ≡ false)
unfolding is_negative
is_negative_iff none = (λ h n e. cc, λ h. refl)
is_negative_iff (some m) = (λ h n e. let eq : n ≡ m = cc in rw eq h, λ h. h m refl)

are_crossed_iff :
    {A : Type 0} (lt : A → A → Bool) (low high : Option A)
    → (are_crossed lt low high ≡ false)
      ↔ ((a b : A) → low ≡ some a → high ≡ some b → lt b a ≡ false)
unfolding are_crossed
are_crossed_iff lt none high = (λ h a b e f. cc, λ h. refl)
are_crossed_iff lt (some low) none = (λ h a b e f. cc, λ h. refl)
are_crossed_iff lt (some low) (some high) = (
  λ h a b e f. let low_a : a ≡ low = cc in let high_b : b ≡ high = cc in rw (low_a, high_b) h,
  λ h. h low high refl refl,
)

module _ (compiles : Text → Bool) where
  validation_errors-nil_iff :
      (i : ℕ) (v : ParameterValidation)
      → (validation_errors compiles i v ≡ []) ↔ IsValidation compiles v
  unfolding validation_errors
  validation_errors-nil_iff i v =
      let tests = collect-nil_iff (validation_tests compiles i v) in
      (
        λ h.
            let (a, (b, (c, (d, (e, u))))) = tests.0 h in
            record {
              pattern = (form_iff v.pattern (compiles v.pattern)).0 a;
              min_length = (is_negative_iff v.min_length).0 b;
              max_length = (is_negative_iff v.max_length).0 c;
              lengths = (are_crossed_iff int_lt v.min_length v.max_length).0 d;
              values = (are_crossed_iff float_lt v.min_value v.max_value).0 e;
            },
        λ h. tests.1 (
          (form_iff v.pattern (compiles v.pattern)).1 h.pattern,
          (
            (is_negative_iff v.min_length).1 h.min_length,
            (
              (is_negative_iff v.max_length).1 h.max_length,
              (
                (are_crossed_iff int_lt v.min_length v.max_length).1 h.lengths,
                ((are_crossed_iff float_lt v.min_value v.max_value).1 h.values, tt),
              ),
            ),
          ),
        ),
      )

  rules_errors-nil_iff :
      (i : ℕ) (rules : Option ParameterValidation)
      → (rules_errors compiles i rules ≡ [])
        ↔ ((v : ParameterValidation) → rules ≡ some v → IsValidation compiles v)
  rules_errors-nil_iff i none = (λ h v e. cc, λ h. refl)
  rules_errors-nil_iff i (some w) = (
    λ h v e. let eq : v ≡ w = cc in rw eq ((validation_errors-nil_iff i w).0 h),
    λ h. (validation_errors-nil_iff i w).1 (h w refl),
  )

  parameter_errors-nil_iff :
      (i : ℕ) (seen : List Text) (p : PackParameter)
      → (parameter_errors compiles i seen p ≡ [])
        ↔ (IsParameter compiles p × (contains p.name seen ≡ false))
  unfolding parameter_errors
  parameter_errors-nil_iff i seen p =
      let both = append-nil_iff (collect (parameter_tests compiles i seen p)) _ in
      let tests = collect-nil_iff (parameter_tests compiles i seen p) in
      let rules = rules_errors-nil_iff i p.validation in
      (
        λ h.
            let (mine, others) = both.0 h in
            let (a, (b, (c, u))) = tests.0 mine in
            (
              record {
                name = (nonempty_iff p.name).0 a;
                type = ground (arith, c);
                rules = rules.0 others;
              },
              b,
            ),
        λ h. both.1 (
          tests.1 ((nonempty_iff p.name).1 h.0.name, (h.1, (ground (arith, h.0.type), tt))),
          rules.1 h.0.rules,
        ),
      )

  pub parameters_errors-nil_iff :
      (i : ℕ) (seen : List Text) (ps : List PackParameter)
      → (parameters_errors compiles i seen ps ≡ []) ↔ (
          All (IsParameter compiles) ps
          × AreFresh seen (parameter_names ps)
          × AreDistinct (parameter_names ps))
  unfolding parameters_errors
  parameters_errors-nil_iff i seen [] = (λ e. (tt, tt, tt), λ h. refl)
  parameters_errors-nil_iff i seen (p ∷ ps) =
      let one = parameter_errors-nil_iff i seen p in
      let rest = parameters_errors-nil_iff (suc i) (p.name ∷ seen) ps in
      let both = append-nil_iff (parameter_errors compiles i seen p) _ in
      (
        λ e.
            let (here, others) = both.0 e in
            let (good, unseen) = one.0 here in
            let (all, later, own) = rest.0 others in
            let (different, fresh) = cons-AreFresh p.name seen (parameter_names ps) later in
            ((good, all), (unseen, fresh), (different, own)),
        λ h. both.1 (
          one.1 (h.0.0, h.1.0),
          rest.1 (h.0.1, AreFresh-cons p.name seen (parameter_names ps) h.2.0 h.1.1, h.2.1),
        ),
      )
