-- ===== src/Packs/Check/Forms.antt =====
-- pkg/query/compliance/pack.go: the tests of single fields in ValidatePack.
use corkscrew.Prelude.{
  ◌≡◌, ◌≢◌, ◌↔◌, refl, sym, ap, ◌∙◌, inl, inr, Bool, true, false, ◌&&◌, not, List, [], ◌∷◌, ◌++◌,
  arith, Text, text_eq, text_eq_iff, All, Lacks, split, join, split-Lacks, split-join, join-split,
  Bool-cases,
}
use corkscrew.Packs.Check.{PackError, collect, two_parts, is_valid_namespace}
use corkscrew.Packs.Check.Valid.{IsNamespace}

pub collect-nil_iff :
    (tests : List (Bool × PackError)) → (collect tests ≡ []) ↔ All (λ t. t.0 ≡ false) tests
collect-nil_iff [] = (λ e. tt, λ h. refl)
collect-nil_iff ((true, e) ∷ rest) = (λ h. cc, λ h. cc)
collect-nil_iff ((false, e) ∷ rest) =
    (λ h. (refl, (collect-nil_iff rest).0 h), λ h. (collect-nil_iff rest).1 h.1)

pub append-nil_iff : (xs ys : List PackError) → (xs ++ ys ≡ []) ↔ ((xs ≡ []) × (ys ≡ []))
append-nil_iff [] ys = (λ h. (refl, h), λ h. h.1)
append-nil_iff (x ∷ xs) ys = (λ h. cc, λ h. cc)

pub nonempty_iff : (s : Text) → (text_eq s [] ≡ false) ↔ (s ≢ [])
nonempty_iff s =
    (λ h e. ground (arith, text_eq_iff s [], h, e), λ h. ground (arith, text_eq_iff s [], h))

-- The test of a form that only a text that is not empty has to have.
pub form_iff :
    (s : Text) (good : Bool) → (not (text_eq s []) && not good ≡ false) ↔ (s ≢ [] → good ≡ true)
form_iff s true = (λ h k. refl, λ h. ground arith)
form_iff s false = (
  λ h k. ground (arith, nonempty_iff s, h, k),
  λ h. elim (Bool-cases (text_eq s [])) [
    | inl e ↦ ground (arith, e)
    | inr e ↦ ground (arith, h ((nonempty_iff s).0 e))
  ],
)

two_parts_lem :
    (parts : List Text)
    → two_parts parts ≡ true
    → (a : Text) × (b : Text) × (parts ≡ a ∷ b ∷ []) × (a ≢ []) × (b ≢ [])
unfolding two_parts
two_parts_lem [] h = cc
two_parts_lem (a ∷ []) h = cc
two_parts_lem (a ∷ b ∷ []) h =
    (a, b, refl, (nonempty_iff a).0 (ground (arith, h)), (nonempty_iff b).0 (ground (arith, h)))
two_parts_lem (a ∷ b ∷ c ∷ d) h = cc

pub is_valid_namespace_iff :
    (namespace : Text) → (is_valid_namespace namespace ≡ true) ↔ IsNamespace namespace
unfolding is_valid_namespace two_parts join
is_valid_namespace_iff namespace = (
  λ h.
      let (a, b, e, nonempty_a, nonempty_b) = two_parts_lem (split b'/' namespace) h in
      let all = split-Lacks b'/' namespace in
      let lacks : All (Lacks b'/') (a ∷ b ∷ []) = rw e at all in
      let joined : join (b'/' ∷ []) (a ∷ b ∷ []) ≡ namespace =
        ap (join (b'/' ∷ [])) (sym e) ∙ join-split b'/' namespace in
      (a, b, nonempty_a, nonempty_b, lacks.0, lacks.1.0, sym joined),
  λ h.
      let (a, b, nonempty_a, nonempty_b, lacks_a, lacks_b, e) = h in
      let parts : split b'/' (a ++ b'/' ∷ b) ≡ a ∷ b ∷ [] =
        split-join b'/' (a ∷ b ∷ []) (λ k. cc) (lacks_a, (lacks_b, tt)) in
      rw e
        (rw parts (ground (arith, (nonempty_iff a).1 nonempty_a, (nonempty_iff b).1 nonempty_b))),
)
