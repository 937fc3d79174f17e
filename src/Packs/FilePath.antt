-- ===== src/Packs/FilePath.antt =====
-- Package path/filepath on a Unix, as far as pkg/query/compliance/loader.go calls it.
use corkscrew.Prelude.{
  Bool, true, false, List, [], ◌∷◌, ◌++◌, Text, codes, text_eq, has_prefix, join, split,
  if◌then◌else◌,
}

abbrev dot_dot : Text
dot_dot = codes ".."

-- The elements without the last, which `..` takes back; a leading `..` is not taken back.
abbrev step_up : Bool → List Text → List Text
step_up rooted [] = if rooted then [] else dot_dot ∷ []
step_up rooted (c ∷ []) = if text_eq c dot_dot then c ∷ dot_dot ∷ [] else []
step_up rooted (c ∷ d ∷ cs) = c ∷ step_up false (d ∷ cs)

-- The elements of a clean path, from those so far and those to come.
abbrev resolve : Bool → List Text → List Text → List Text
resolve rooted done [] = done
resolve rooted done (c ∷ cs) =
    resolve rooted
      (if text_eq c []
        then done
        else if text_eq c (codes ".")
        then done
        else if text_eq c dot_dot
        then step_up rooted done
        else done ++ c ∷ [])
      cs

abbrev print_path : Bool → List Text → Text
print_path true cs = b'/' ∷ join (codes "/") cs
print_path false [] = codes "."
print_path false (c ∷ cs) = join (codes "/") (c ∷ cs)

-- filepath.Clean
unfoldable pub clean : Text → Text
clean path =
    let rooted = has_prefix (codes "/") path in
    print_path rooted (resolve rooted [] (split b'/' path))

abbrev drop_empty : List Text → List Text
drop_empty [] = []
drop_empty ([] ∷ cs) = drop_empty cs
drop_empty ((b ∷ c) ∷ cs) = (b ∷ c) ∷ cs

abbrev clean_if_any : List Text → Text
clean_if_any [] = []
clean_if_any (c ∷ cs) = clean (join (codes "/") (c ∷ cs))

-- filepath.Join
unfoldable pub join_path : List Text → Text
join_path cs = clean_if_any (drop_empty cs)

abbrev without_last : List Text → List Text
without_last [] = []
without_last (c ∷ []) = [] ∷ []
without_last (c ∷ d ∷ cs) = c ∷ without_last (d ∷ cs)

-- filepath.Dir: what is up to the last separator, cleaned.
unfoldable pub dir : Text → Text
dir path = clean (join (codes "/") (without_last (split b'/' path)))
