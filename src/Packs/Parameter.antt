-- ===== src/Packs/Parameter.antt =====
-- pkg/query/compliance/pack.go: ValidateParameter. `matches` is the match of a compiled pattern.
pub mod Kinds
pub mod Equal
pub mod Accepts
mod Tests
use corkscrew.Prelude.{
  ℕ, Bool, true, false, ◌&&◌, not, Option, none, some, List, [], ◌∷◌, Text, codes, text_eq, length,
  ◌==◌, if◌then◌else◌, Run, done, panic,
}
use corkscrew.Prelude.Int.{ℤ, pos, int_eq, int_lt}
use corkscrew.Prelude.Float.{Float, float_eq, float_lt, is_integral}
use corkscrew.Packs.Types.{
  Value, nil, text, int, int32, int64, float, bool, list, object, other, uncomparable,
  ParameterValidation, PackParameter,
}

-- ValidationError, by its message.
pub data ParameterError : Type 0 where
  required wrong_type too_short too_long no_match too_low too_high not_listed : ParameterError

unfoldable pub bool_eq : Bool → Bool → Bool
bool_eq true b = b
bool_eq false true = false
bool_eq false false = true

-- a == b of two interface values, which panics where both have the same type and it
-- cannot be compared.
unfoldable pub value_eq : Value → Value → Run Bool
unfolding bool_eq
value_eq nil nil = done true
value_eq (text s) (text t) = done (text_eq s t)
value_eq (int a) (int b) = done (int_eq a b)
value_eq (int32 a) (int32 b) = done (int_eq a b)
value_eq (int64 a) (int64 b) = done (int_eq a b)
value_eq (float a) (float b) = done (float_eq a b)
value_eq (bool a) (bool b) = done (bool_eq a b)
value_eq (list a) (list b) = panic
value_eq (object a) (object b) = panic
value_eq (other a) (other b) = done (a == b)
value_eq (uncomparable k a) (uncomparable j b) = if k == j then panic else done false
value_eq _ _ = done false

unfoldable pub is_text : Value → Bool
is_text (text s) = true
is_text _ = false

unfoldable pub is_int : Value → Bool
is_int (int a) = true
is_int (int32 a) = true
is_int (int64 a) = true
is_int (float a) = is_integral a
is_int _ = false

unfoldable pub is_bool : Value → Bool
is_bool (bool b) = true
is_bool _ = false

unfoldable pub is_list : Value → Bool
is_list (list a) = true
is_list _ = false

unfoldable pub is_object : Value → Bool
is_object (object a) = true
is_object _ = false

-- The type switch; any other type takes every value.
unfoldable pub has_type : Text → Value → Bool
unfolding is_text is_int is_bool is_list is_object
has_type type value =
    if text_eq type (codes "string")
    then is_text value
    else if text_eq type (codes "int")
    then is_int value
    else if text_eq type (codes "bool")
    then is_bool value
    else if text_eq type (codes "list")
    then is_list value
    else if text_eq type (codes "object")
    then is_object value
    else true

-- A limit that is given, and which fails the test.
abbrev pub breaks : {A : Type 0} → (A → Bool) → Option A → Bool
breaks test none = false
breaks test (some a) = test a

unfoldable pub apply_validation_rules :
    (Text → Text → Bool) → ParameterValidation → Value → Option ParameterError
apply_validation_rules matches v (text s) =
    if breaks (λ n. int_lt (pos (length s)) n) v.min_length
    then some too_short
    else if breaks (λ n. int_lt n (pos (length s))) v.max_length
    then some too_long
    else if breaks (λ pattern. not (matches pattern s)) v.regex
    then some no_match
    else none
apply_validation_rules matches v (float a) =
    if breaks (λ n. float_lt a n) v.min_value
    then some too_low
    else if breaks (λ n. float_lt n a) v.max_value
    then some too_high
    else none
apply_validation_rules matches v _ = none

-- The loop over the enum values.
unfoldable pub check_enum : Value → List Value → Run (Option ParameterError)
unfolding value_eq
check_enum value [] = done (some not_listed)
check_enum value (e ∷ es) =
    let rest = check_enum value es in
    elim (value_eq value e) [ panic ↦ panic | done true ↦ done none | done false ↦ rest ]

-- What follows the type switch.
unfoldable pub check_value :
    (Text → Text → Bool)
    → Option ParameterValidation
    → List Value
    → Value
    → Run (Option ParameterError)
unfolding apply_validation_rules check_enum
check_value matches (some v) enum value = done (apply_validation_rules matches v value)
check_value matches none [] value = done none
check_value matches none (e ∷ es) value = check_enum value (e ∷ es)

unfoldable pub validate_parameter :
    (Text → Text → Bool) → PackParameter → Value → Run (Option ParameterError)
unfolding has_type check_value
validate_parameter matches p nil = if p.required then done (some required) else done none
validate_parameter matches p value =
    if has_type p.type value
    then check_value matches p.validation p.enum_values value
    else done (some wrong_type)
