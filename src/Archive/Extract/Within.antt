-- ===== src/Archive/Extract/Within.antt =====
-- internal/archive/archive.go: the calls that ExtractTree may make.
use corkscrew.Prelude.{◌≡◌, ◌≢◌, refl, ap, List, [], ◌∷◌, ◌++◌, Text, All}
use corkscrew.Archive.Paths.{FilePath, parent}
use corkscrew.Archive.Paths.Plain.{IsPlain}
use corkscrew.Archive.Paths.Inside.{IsInside}
use corkscrew.Archive.World.{
  Effect, file_mode, mkdir_all, create, write, close_file, rename, remove,
}

-- A path at or below the destination, by plain elements.
pub record IsWithin (dest path : FilePath) : Type 0 where
  pub below : FilePath
  pub at : path ≡ dest ++ below
  pub plain : All IsPlain below

-- What ExtractTree may do: make directories at or below the destination, and create, write and
-- close files strictly below it.
abbrev pub InTree : FilePath → Effect → Type 0
InTree dest (mkdir_all path) = IsWithin dest path
InTree dest (create path mode) = IsInside dest path × (mode ≡ file_mode)
InTree dest (write path bytes) = IsInside dest path
InTree dest (close_file path) = IsInside dest path
InTree dest (rename path path') = ⊥
InTree dest (remove path) = ⊥

parent-append :
    (dest : FilePath) (c : Text) (cs : List Text)
    → parent (dest ++ c ∷ cs) ≡ dest ++ parent (c ∷ cs)
unfolding parent
parent-append [] c cs = refl
parent-append (d ∷ []) c cs = refl
parent-append (d ∷ d' ∷ dest) c cs = ap (◌∷◌ d) (parent-append (d' ∷ dest) c cs)

parent-IsPlain : (cs : List Text) → All IsPlain cs → All IsPlain (parent cs)
unfolding parent
parent-IsPlain [] h = tt
parent-IsPlain (c ∷ []) h = tt
parent-IsPlain (c ∷ d ∷ cs) h = (h.0, parent-IsPlain (d ∷ cs) h.1)

parent_below-IsWithin :
    (dest below : FilePath)
    → below ≢ []
    → All IsPlain below
    → IsWithin dest (parent (dest ++ below))
parent_below-IsWithin dest [] ne h = absurd (ne refl)
parent_below-IsWithin dest (c ∷ cs) ne h = record {
  below = parent (c ∷ cs);
  at = parent-append dest c cs;
  plain = parent-IsPlain (c ∷ cs) h;
}

pub parent-IsWithin :
    (dest target : FilePath) → IsInside dest target → IsWithin dest (parent target)
parent-IsWithin dest target i = rw (i.at) (parent_below-IsWithin dest i.below i.strictly i.plain)
