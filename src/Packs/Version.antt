-- ===== src/Packs/Version.antt =====
-- pkg/query/compliance/pack.go: ParseVersion and Compare, with what they use of fmt.Sscanf.
pub mod Order
use corkscrew.Prelude.{
  ℕ, zero, suc, Bool, true, false, ◌&&◌, ◌||◌, Option, none, some, List, [], ◌∷◌, Text, leb, ◌==◌,
  get_or, if◌then◌else◌, split, ◌≡◌, ◌≢◌, ◌↔◌, inl, inr, arith, Option-cases,
}
use corkscrew.Prelude.Decimal.{atoi, is_digit}
use corkscrew.Prelude.Int.{ℤ, pos, negsuc, int_eq, int_lt}

-- A space of package fmt, by its bytes in UTF-8.
is_space_1 : ℕ → Bool
is_space_1 a = (leb 9 a && leb a 13) || a == b' '

is_space_2 : ℕ → ℕ → Bool
is_space_2 a b = a == 194 && (b == 133 || b == 160)

is_space_3 : ℕ → ℕ → ℕ → Bool
is_space_3 a b c =
    (a == 225 && b == 154 && c == 128)
    || (a == 226 && b == 128 && ((leb 128 c && leb c 138) || c == 168 || c == 169 || c == 175))
    || (a == 226 && b == 129 && c == 159)
    || (a == 227 && b == 128 && c == 128)

-- The bytes of the space that a text begins with, 0 if there is none.
space_width : Text → ℕ
unfolding is_space_1 is_space_2 is_space_3
space_width s =
    let a = get_or s 0 0 in
    let b = get_or s 1 0 in
    if is_space_1 a
    then 1
    else if is_space_2 a b
    then 2
    else if is_space_3 a b (get_or s 2 0)
    then 3
    else 0

-- The text after its spaces, with the bytes of a space that are left; a newline is an error.
unfoldable pub skip_space : ℕ → Text → Option Text
unfolding space_width
skip_space n [] = some []
skip_space (suc n) (c ∷ s) = skip_space n s
skip_space zero (c ∷ s) =
    if c == 10
    then none
    else (elim (space_width (c ∷ s)) [ zero ↦ some (c ∷ s) | suc n ↦ skip_space n s ])

digits : Text → Text
unfolding is_digit
digits [] = []
digits (c ∷ s) = if is_digit c then c ∷ digits s else []

-- A sign, if there is one, and the digits after it.
token : Text → Text
unfolding digits
token [] = []
token (c ∷ s) = if c == b'+' || c == b'-' then c ∷ digits s else digits (c ∷ s)

-- fmt.Sscanf(s, "%d", &n): what follows the number is not read.
unfoldable pub scan_int : Text → Option ℤ
unfolding token atoi skip_space
scan_int s = elim (skip_space 0 s) [ none ↦ none | some r ↦ atoi (token r) ]

pub record PackVersion : Type 0 where
  pub major : ℤ
  pub minor : ℤ
  pub patch : ℤ
  pub prerelease : Text
  pub build : Text

version_of : Option ℤ → Option ℤ → Option ℤ → Option PackVersion
version_of (some major) (some minor) (some patch) =
    some (record { major = major; minor = minor; patch = patch; prerelease = []; build = [] })
version_of _ _ _ = none

parse_parts : List Text → Option PackVersion
unfolding version_of scan_int
parse_parts (major ∷ minor ∷ patch ∷ rest) =
    version_of (scan_int major) (scan_int minor) (scan_int patch)
parse_parts _ = none

unfoldable pub parse_version : Text → Option PackVersion
unfolding parse_parts split
parse_version version = parse_parts (split b'.' version)

unfoldable pub is_version : Text → Bool
is_version version = elim (parse_version version) [ none ↦ false | some v ↦ true ]

-- One field of Compare, beside what follows it.
unfoldable pub compare_field : ℤ → ℤ → ℤ → ℤ
compare_field a b rest = if int_eq a b then rest else if int_lt a b then negsuc 0 else pos 1

unfoldable pub compare : PackVersion → PackVersion → ℤ
unfolding compare_field
compare v other =
    compare_field v.major other.major
      (compare_field v.minor other.minor (compare_field v.patch other.patch (pos 0)))

pub is_version_iff : (s : Text) → (is_version s ≡ true) ↔ (parse_version s ≢ none)
unfolding is_version
is_version_iff s = elim (Option-cases (parse_version s)) [
  | inl e ↦ (λ h. ground (arith, e), λ h. absurd (h e))
  | inr (v, e) ↦ (λ h k. cc, λ h. ground (arith, e))
]
