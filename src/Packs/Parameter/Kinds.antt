-- ===== src/Packs/Parameter/Kinds.antt =====
-- pkg/query/compliance/pack.go: which values the type switch of ValidateParameter accepts.
use corkscrew.Prelude.{
  ℕ, ◌≡◌, ◌↔◌, ◌⊎◌, refl, sym, ap, ◌∙◌, inl, inr, Bool, true, arith, Text, codes, text_eq,
  text_eq_iff, Bool-cases,
}
use corkscrew.Prelude.Int.{ℤ}
use corkscrew.Prelude.Float.{Float}
use corkscrew.Prelude.Floats.{IsInteger, is_integral_iff}
use corkscrew.Packs.Types.{Value, text, int, int32, int64, float, bool, list, object}
use corkscrew.Packs.Parameter.{is_text, is_int, is_bool, is_list, is_object, has_type}

abbrev pub IsText : Value → Type 0
IsText v = (s : Text) × (v ≡ text s)

-- An integer of one of the three types, or a float64 that is one.
abbrev pub IsInt : Value → Type 0
IsInt v =
    ((n : ℤ) × ((v ≡ int n) ⊎ ((v ≡ int32 n) ⊎ (v ≡ int64 n))))
    ⊎ ((a : Float) × (v ≡ float a) × IsInteger a)

-- A value of the type that the parameter names; a name that is none of the five asks for nothing.
pub record IsOfType (type : Text) (v : Value) : Type 0 where
  pub string_value : type ≡ codes "string" → IsText v
  pub int_value : type ≡ codes "int" → IsInt v
  pub bool_value : type ≡ codes "bool" → (b : Bool) × (v ≡ bool b)
  pub list_value : type ≡ codes "list" → (n : ℕ) × (v ≡ list n)
  pub object_value : type ≡ codes "object" → (n : ℕ) × (v ≡ object n)

is_text-IsText : (v : Value) → is_text v ≡ true → IsText v
unfolding is_text
is_text-IsText (text s) h = (s, refl)
is_text-IsText _ h = cc

is_text_iff : (v : Value) → (is_text v ≡ true) ↔ IsText v
unfolding is_text
is_text_iff v = (is_text-IsText v, λ h. rw h.1 refl)

is_int-IsInt : (v : Value) → is_int v ≡ true → IsInt v
unfolding is_int
is_int-IsInt (int n) h = inl (n, inl refl)
is_int-IsInt (int32 n) h = inl (n, inr (inl refl))
is_int-IsInt (int64 n) h = inl (n, inr (inr refl))
is_int-IsInt (float a) h = inr (a, refl, (is_integral_iff a).0 h)
is_int-IsInt _ h = cc

is_int_iff : (v : Value) → (is_int v ≡ true) ↔ IsInt v
unfolding is_int
is_int_iff v = (
  is_int-IsInt v,
  λ h. elim h [
    | inl (n, inl e) ↦ rw e refl
    | inl (n, inr (inl e)) ↦ rw e refl
    | inl (n, inr (inr e)) ↦ rw e refl
    | inr (a, e, whole) ↦ rw e ((is_integral_iff a).1 whole)
  ],
)

is_bool-of : (v : Value) → is_bool v ≡ true → (b : Bool) × (v ≡ bool b)
unfolding is_bool
is_bool-of (bool b) h = (b, refl)
is_bool-of _ h = cc

is_bool_iff : (v : Value) → (is_bool v ≡ true) ↔ ((b : Bool) × (v ≡ bool b))
unfolding is_bool
is_bool_iff v = (is_bool-of v, λ h. rw h.1 refl)

is_list-of : (v : Value) → is_list v ≡ true → (n : ℕ) × (v ≡ list n)
unfolding is_list
is_list-of (list n) h = (n, refl)
is_list-of _ h = cc

is_list_iff : (v : Value) → (is_list v ≡ true) ↔ ((n : ℕ) × (v ≡ list n))
unfolding is_list
is_list_iff v = (is_list-of v, λ h. rw h.1 refl)

is_object-of : (v : Value) → is_object v ≡ true → (n : ℕ) × (v ≡ object n)
unfolding is_object
is_object-of (object n) h = (n, refl)
is_object-of _ h = cc

is_object_iff : (v : Value) → (is_object v ≡ true) ↔ ((n : ℕ) × (v ≡ object n))
unfolding is_object
is_object_iff v = (is_object-of v, λ h. rw h.1 refl)

pub has_type_iff : (type : Text) (v : Value) → (has_type type v ≡ true) ↔ IsOfType type v
unfolding has_type text_eq
has_type_iff type v = (
  λ h. record {
    string_value = λ e. (is_text_iff v).0 (ap (λ (t : Text). has_type t v) (sym e) ∙ h);
    int_value = λ e. (is_int_iff v).0 (ap (λ (t : Text). has_type t v) (sym e) ∙ h);
    bool_value = λ e. (is_bool_iff v).0 (ap (λ (t : Text). has_type t v) (sym e) ∙ h);
    list_value = λ e. (is_list_iff v).0 (ap (λ (t : Text). has_type t v) (sym e) ∙ h);
    object_value = λ e. (is_object_iff v).0 (ap (λ (t : Text). has_type t v) (sym e) ∙ h);
  },
  λ h. elim (Bool-cases (text_eq type (codes "string"))) [
    | inl here ↦
        let e = (text_eq_iff type (codes "string")).0 here in
        ap (λ (t : Text). has_type t v) e ∙ (is_text_iff v).1 (h.string_value e)
    | inr string_no ↦ elim (Bool-cases (text_eq type (codes "int"))) [
      | inl here ↦
          let e = (text_eq_iff type (codes "int")).0 here in
          ap (λ (t : Text). has_type t v) e ∙ (is_int_iff v).1 (h.int_value e)
      | inr int_no ↦ elim (Bool-cases (text_eq type (codes "bool"))) [
        | inl here ↦
            let e = (text_eq_iff type (codes "bool")).0 here in
            ap (λ (t : Text). has_type t v) e ∙ (is_bool_iff v).1 (h.bool_value e)
        | inr bool_no ↦ elim (Bool-cases (text_eq type (codes "list"))) [
          | inl here ↦
              let e = (text_eq_iff type (codes "list")).0 here in
              ap (λ (t : Text). has_type t v) e ∙ (is_list_iff v).1 (h.list_value e)
          | inr list_no ↦ elim (Bool-cases (text_eq type (codes "object"))) [
            | inl here ↦
                let e = (text_eq_iff type (codes "object")).0 here in
                ap (λ (t : Text). has_type t v) e ∙ (is_object_iff v).1 (h.object_value e)
            | inr object_no ↦ ground (arith, string_no, int_no, bool_no, list_no, object_no)
          ]
        ]
      ]
    ]
  ],
)
