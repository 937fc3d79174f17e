-- ===== src/Archive/Extract.antt =====
-- internal/archive/archive.go: ExtractTree and ExtractFile.
pub mod Within
pub mod Calls
pub mod Visits
pub mod Tree
pub mod File
pub mod Install
use corkscrew.Prelude.{
  ℕ, Bool, true, false, ◌&&◌, ◌||◌, not, Option, none, some, List, [], ◌∷◌, ◌++◌, Text, codes,
  text_eq, split, contains_byte, if◌then◌else◌, Run, done, assert_that, ◌>>=◌, ◌>>◌,
}
use corkscrew.Prelude.Int.{ℤ, pos, negsuc}
use corkscrew.Archive.Types.{
  Failure, Err, Format, Limits, Entry, Kind, kind_file, kind_dir, ArchiveFile, negative_strip,
  invalid_binary_name, binary_not_found,
}
use corkscrew.Archive.Paths.{
  FilePath, dot, dot_dot, parent, Confined, skipped, refused, confined, confine,
}
use corkscrew.Archive.World.{Os, Log, Step, mkdir_all, file_mode, write_entry, write_atomic}
use corkscrew.Archive.Walk.{State, Visited, Walked, Visitor, keep_going, walk}

abbrev is_plain_element : Text → Bool
is_plain_element c =
    not (text_eq c [])
    && (not (text_eq c dot) && (not (text_eq c dot_dot) && not (contains_byte b'/' c)))

-- assertDestination: the destination is absolute and filepath.Clean leaves it alone.
unfoldable pub is_clean : FilePath → Bool
is_clean [] = true
is_clean (c ∷ cs) = is_plain_element c && is_clean cs

-- The error and the calls of an extraction.
pub record Extraction : Type 0 where
  pub err : Err
  pub log : Log

abbrev pub after_step : Bool → Step Err → State → Visited
after_step is_done st s = record {
  is_done = is_done;
  err = st.result;
  state = record s { budget = st.budget; log = st.log };
}

abbrev pub ended : Walked → Extraction
ended w = record { err = w.err; log = w.state.log }

-- `if !found { return fmt.Errorf("… not found") }`
abbrev pub require_found : Walked → Extraction
require_found w = elim w.err [
  | f ∷ fs ↦ record { err = f ∷ fs; log = w.state.log }
  | [] ↦ record { err = if w.state.found then [] else binary_not_found ∷ []; log = w.state.log }
]

module _ (os : Os) where
  -- The visitor of ExtractTree for a file that goes to `target`.
  unfoldable pub extract_to : FilePath → Entry → State → Visited
  extract_to target e s =
      let call = mkdir_all (parent target) in
      let s' = record s { log = s.log ++ call ∷ [] } in
      elim (os s.log call) [
        | some f ↦ keep_going (f ∷ []) s'
        | none ↦ after_step false (write_entry os target file_mode e s'.budget s'.log) s'
      ]

  -- The visitor of ExtractTree.
  unfoldable pub visit_tree : FilePath → ℕ → Visitor
  unfolding extract_to
  visit_tree dest strip_components e s = elim (confine dest e.name strip_components) [
    | refused f ↦ keep_going (f ∷ []) s
    | skipped ↦ keep_going [] s
    | confined target ↦ elim e.kind [
      | kind_dir ↦ keep_going [] s
      | kind_file ↦ extract_to target e s
    ]
  ]

  unfoldable pub extract_tree : Format → ArchiveFile → FilePath → ℤ → Limits → Log → Run Extraction
  extract_tree format file dest strip_components limits log = do
    assert_that (is_clean dest)
    elim strip_components [
      | negsuc n ↦ done (record { err = negative_strip ∷ []; log = log })
      | pos strip ↦
          let call = mkdir_all dest in
          elim (os log call) [
            | some f ↦ done (record { err = f ∷ []; log = log ++ call ∷ [] })
            | none ↦ do
              w ← walk (visit_tree dest strip) format file limits false (log ++ call ∷ [])
              done (ended w)
          ]
    ]

-- path.Base
abbrev last_not_empty : Text → List Text → Text
last_not_empty d [] = d
last_not_empty d ([] ∷ cs) = last_not_empty d cs
last_not_empty d ((b ∷ r) ∷ cs) = last_not_empty (b ∷ r) cs

unfoldable pub base : Text → Text
base [] = dot
base (c ∷ s) = last_not_empty (codes "/") (split b'/' (c ∷ s))

-- Is this the entry that ExtractFile looks for?
unfoldable pub is_wanted : Text → Entry → Bool
unfolding base
is_wanted name e = elim e.kind [
  | kind_dir ↦ false
  | kind_file ↦ text_eq (base e.name) name || text_eq (base e.name) (name ++ codes ".exe")
]

module _ (os : Os) where
  -- The visitor of ExtractFile.
  unfoldable pub visit_file : Text → FilePath → Visitor
  unfolding is_wanted
  visit_file name dest e s =
      if is_wanted name e
      then after_step true (write_atomic os dest e s.budget s.log) (record s { found = true })
      else keep_going [] s

  unfoldable pub extract_file :
      Format → ArchiveFile → Text → FilePath → Limits → Log → Run Extraction
  extract_file format file name dest limits log = do
    assert_that (is_clean dest)
    (if text_eq name [] || (contains_byte b'/' name || contains_byte b'\\' name)
        then done (record { err = invalid_binary_name ∷ []; log = log })
        else (do
          w ← walk (visit_file name dest) format file limits false log
          done (require_found w)))
