-- ===== src/Archive/Paths.antt =====
-- internal/archive/archive.go: confine. An absolute clean path is the list of its elements: the
-- path `/a/b` is `a ∷ b ∷ []`, and `/` is `[]`. The system is a Unix: a volume name is empty, and
-- the separator is `/`.
pub mod Plain
pub mod Inside
pub mod Kept
use corkscrew.Prelude.{
  ℕ, Bool, true, false, ◌||◌, not, List, [], ◌∷◌, ◌++◌, Text, codes, text_eq, has_prefix, join,
  split, contains_byte, length, drop, leb, if◌then◌else◌,
}
use corkscrew.Archive.Types.{Failure, invalid_entry_name, absolute_entry_name, escapes_destination}

abbrev pub FilePath : Type 0
FilePath = List Text

abbrev pub dot : Text
dot = codes "."

abbrev pub dot_dot : Text
dot_dot = codes ".."

-- The path without its last element; the root stays.
unfoldable pub parent : FilePath → FilePath
parent [] = []
parent (c ∷ []) = []
parent (c ∷ d ∷ cs) = c ∷ parent (d ∷ cs)

-- filepath.Clean of an absolute path: `path` is the clean part so far, then come the elements.
unfoldable pub resolve : FilePath → List Text → FilePath
unfolding parent
resolve path [] = path
resolve path (c ∷ cs) =
    resolve
      (if text_eq c [] || text_eq c dot
        then path
        else if text_eq c dot_dot
        then parent path
        else path ++ c ∷ [])
      cs

-- One `..` for each element.
abbrev ups : List Text → List Text
ups [] = []
ups (c ∷ cs) = dot_dot ∷ ups cs

-- filepath.Rel of two absolute clean paths; `[]` is the path `.`
unfoldable pub relative_to : FilePath → FilePath → List Text
relative_to [] target = target
relative_to (b ∷ base) [] = ups (b ∷ base)
relative_to (b ∷ base) (c ∷ target) =
    if text_eq b c then relative_to base target else ups (b ∷ base) ++ c ∷ target

pub data Confined : Type 0 where
  skipped : Confined
  refused : Failure → Confined
  confined : FilePath → Confined

-- The end of confine, once the relative name is known.
unfoldable pub confine_relative : FilePath → Text → Confined
unfolding resolve relative_to
confine_relative dest relative =
    let target = resolve dest (split b'/' relative) in
    elim (relative_to dest target) [
      | [] ↦ skipped
      | c ∷ _ ↦ if text_eq c dot_dot then refused escapes_destination else confined target
    ]

unfoldable pub confine : FilePath → Text → ℕ → Confined
unfolding confine_relative
confine dest name strip_components =
    if contains_byte b'\\' name || contains_byte 0 name
    then refused invalid_entry_name
    else if has_prefix (codes "/") name
    then refused absolute_entry_name
    else (let parts = split b'/' name in
        if leb (length parts) strip_components
        then skipped
        else (let relative = join (codes "/") (drop strip_components parts) in
            if text_eq relative [] then skipped else confine_relative dest relative))
