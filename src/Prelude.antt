-- ===== src/Prelude.antt =====
-- The names that the other modules share: the libraries', passed on, and those of the children.
mod Tests
mod Lists
mod Strings
mod Panics
mod Splitting
mod Sums
pub mod Decimal
pub mod Int
pub mod Float
pub mod Floats
mod Sorting
pub use Tests.*
pub use Lists.*
pub use Sums.*
unfoldable pub use Strings.{text_eq, has_prefix, join, split, contains_byte}
pub use Strings.{
  Text, codes, text_eq_iff, text_eq_refl, text_eq_ne, has_prefix-append, has_prefix-excludes,
}
pub use Panics.*
pub use Splitting.*
unfoldable pub use Sorting.{sort_texts, text_le}
pub use Sorting.{
  text_le_total, text_le_trans, text_le_antisym, text_le_refl, sort_texts-perm, sort_texts-IsSorted,
  IsSorted,
}
pub use Prim.Native.Nat.{ℕ, zero, suc, ◌+◌, ◌-◌, ◌*◌, ◌/◌, ◌%◌, ◌^◌, ◌≤◌, ◌<◌, min}
pub use mathlib.Core.Path.{◌≡◌, refl, sym, ap, ◌∙◌}
pub use mathlib.Core.Logic.{◌≢◌, ◌↔◌, ◌⊎◌, inl, inr}
pub use mathlib.Core.Bool.{Bool, true, false, ◌&&◌, ◌||◌, not}
pub use mathlib.Core.Option.{Option, none, some}
pub use mathlib.Core.List.{List, [], ◌∷◌, ◌++◌, map, append_assoc, append-nil}
pub use native.Mathlib.Omega.{arith}
