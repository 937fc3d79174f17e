-- ===== src/Packs/Parameter/Tests.antt =====
-- Tests for ValidateParameter of pkg/query/compliance/pack.go.
use corkscrew.Prelude.{
  ◌≡◌, refl, true, false, none, some, [], ◌∷◌, codes, text_eq, done, panic, ◌+◌, ◌*◌, ◌^◌,
}
use corkscrew.Prelude.Int.{pos}
use corkscrew.Prelude.Float.{is_integral}
use corkscrew.Packs.Types.{text, list, PackParameter}
use corkscrew.Packs.Parameter.{validate_parameter}

-- 2.5, 3.0 and -2 ^ 63
fraction : is_integral (record { negative = false; magnitude = 1024 * 2 ^ 52 + 2 ^ 50 }) ≡ false
unfolding is_integral
fraction = refl

three : is_integral (record { negative = false; magnitude = 1024 * 2 ^ 52 + 2 ^ 51 }) ≡ true
unfolding is_integral
three = refl

least_int : is_integral (record { negative = true; magnitude = 1086 * 2 ^ 52 }) ≡ true
unfolding is_integral
least_int = refl

abbrev region : PackParameter
region = record {
  name = codes "region";
  type = codes "string";
  required = true;
  validation = none;
  enum_values = text (codes "us") ∷ text (codes "eu") ∷ [];
  body = 0;
}

-- Rules leave the list of values unread.
abbrev region_with_rules : PackParameter
region_with_rules = record region {
  validation = some (record {
    min_length = some (pos 2);
    max_length = none;
    pattern = [];
    min_value = none;
    max_value = none;
    regex = none;
  });
}

unlisted_passes :
    validate_parameter (λ p s. true) region_with_rules (text (codes "moon")) ≡ done none
unfolding validate_parameter text_eq
unlisted_passes = refl

-- Two slices cannot be compared.
abbrev zones : PackParameter
zones = record region { type = codes "list"; enum_values = list 1 ∷ [] }

lists_panic : validate_parameter (λ p s. true) zones (list 1) ≡ panic
unfolding validate_parameter text_eq
lists_panic = refl
