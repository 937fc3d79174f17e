-- ===== src/Packs/Parameter/Accepts.antt =====
-- pkg/query/compliance/pack.go: which values ValidateParameter accepts.
use corkscrew.Prelude.{◌≡◌, ◌⊎◌, Bool, true, false, Option, none, some, List, [], ◌∷◌, Text, length}
use corkscrew.Prelude.Int.{ℤ, pos, int_lt}
use corkscrew.Prelude.Float.{Float}
use corkscrew.Prelude.Floats.{IsBelow}
use corkscrew.Packs.Types.{Value, nil, text, float, ParameterValidation, PackParameter}
use corkscrew.Packs.Parameter.Kinds.{IsOfType}
use corkscrew.Packs.Parameter.Equal.{AreUncomparable, AreSame}

-- The value is the same as one of the list, and can be compared with it and those before it.
abbrev pub IsListed : Value → List Value → Type 0
IsListed value [] = ⊥
IsListed value (e ∷ es) =
    (AreUncomparable value e → ⊥) × (AreSame value e ⊎ ((AreSame value e → ⊥) × IsListed value es))

-- The rules on texts hold of a text, the rules on numbers hold of a float64, and no rule is about
-- any other value.
abbrev pub Obeys : (Text → Text → Bool) → ParameterValidation → Value → Type 0
Obeys matches v (text s) =
    ((n : ℤ) → v.min_length ≡ some n → int_lt (pos (length s)) n ≡ false)
    × ((n : ℤ) → v.max_length ≡ some n → int_lt n (pos (length s)) ≡ false)
    × ((pattern : Text) → v.regex ≡ some pattern → matches pattern s ≡ true)
Obeys matches v (float a) =
    ((n : Float) → v.min_value ≡ some n → IsBelow a n → ⊥)
    × ((n : Float) → v.max_value ≡ some n → IsBelow n a → ⊥)
Obeys matches v _ = Unit {0}

-- With rules, the value obeys them; without, it is in the list of values if there is one.
abbrev pub IsAllowed :
    (Text → Text → Bool) → Option ParameterValidation → List Value → Value → Type 0
IsAllowed matches (some v) enum value = Obeys matches v value
IsAllowed matches none [] value = Unit {0}
IsAllowed matches none (e ∷ es) value = IsListed value (e ∷ es)

abbrev pub IsAccepted : (Text → Text → Bool) → PackParameter → Value → Type 0
IsAccepted matches p nil = p.required ≡ false
IsAccepted matches p value =
    IsOfType p.type value × IsAllowed matches p.validation p.enum_values value
