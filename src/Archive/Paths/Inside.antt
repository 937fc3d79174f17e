-- ===== src/Archive/Paths/Inside.antt =====
-- internal/archive/archive.go: confine never leaves the destination.
use corkscrew.Prelude.{
  ℕ, ◌≡◌, ◌≢◌, refl, inl, inr, List, [], ◌∷◌, ◌++◌, arith, Text, codes, text_eq, text_eq_iff, All,
  All-append_right, split, split-Lacks, drop, join, Bool-cases,
}
use corkscrew.Archive.Paths.{
  FilePath, dot_dot, resolve, relative_to, confined, confine_relative, confine,
}
use corkscrew.Archive.Paths.Plain.{IsPlain, resolve-IsPlain, below_of_relative}

-- The target lies strictly below the destination, by plain elements only.
pub record IsInside (dest target : FilePath) : Type 0 where
  pub below : FilePath
  pub at : target ≡ dest ++ below
  pub strictly : below ≢ []
  pub plain : All IsPlain below

IsInside-of_relative :
    (dest : FilePath) (relative : Text) (rel : List Text) (target : FilePath)
    → All IsPlain dest
    → relative_to dest (resolve dest (split b'/' relative)) ≡ rel
    → confine_relative dest relative ≡ confined target
    → IsInside dest target
unfolding confine_relative
IsInside-of_relative dest relative [] target h e c = cc
IsInside-of_relative dest relative (r ∷ rel) target h e c = elim (Bool-cases (text_eq r dot_dot)) [
  | inl up ↦ absurd (ground arith)
  | inr down ↦
      let same : target ≡ resolve dest (split b'/' relative) = ground arith in
      let at : target ≡ dest ++ r ∷ rel = rw same (
        below_of_relative dest (resolve dest (split b'/' relative)) r rel e
          (λ u. ground (arith, text_eq_iff r dot_dot))) in
      record {
        below = r ∷ rel;
        at = at;
        strictly = λ u. cc;
        plain = All-append_right IsPlain dest (r ∷ rel) (
            rw (← at, same)
              (resolve-IsPlain dest (split b'/' relative) h (split-Lacks b'/' relative)));
      }
]

-- If the elements of the destination are plain, a name that confine accepts is mapped to a path
-- strictly below the destination, by elements that are neither empty nor `.` nor `..` and hold no separator; so no name, however
-- crafted, reaches the destination itself or anything outside it.
pub confine-IsInside :
    (dest : FilePath) (name : Text) (strip_components : ℕ) (target : FilePath)
    → All IsPlain dest
    → confine dest name strip_components ≡ confined target
    → IsInside dest target
unfolding confine
confine-IsInside dest name strip_components target h c =
    let relative = join (codes "/") (drop strip_components (split b'/' name)) in
    IsInside-of_relative dest relative _ target h refl (ground arith)
