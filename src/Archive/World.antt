-- ===== src/Archive/World.antt =====
-- internal/archive/archive.go: the calls of package os, their answers, and the functions that
-- write one entry.
pub mod Effects
use corkscrew.Prelude.{
  ℕ, Bool, true, false, ◌++◌, Option, none, some, List, [], ◌∷◌, Text, codes, length, ◌==◌,
  if◌then◌else◌,
}
use corkscrew.Archive.Types.{
  Failure, Err, to_err, not_exist, Body, Opened, open_failed, opened, Entry,
}
use corkscrew.Archive.Budget.{Budget, charge, copied}
use corkscrew.Archive.Paths.{FilePath}

pub data Mode : Type 0 where
  file_mode binary_mode : Mode

-- The calls that change the file system. A path beside the destination's elements has a suffix.
pub data Effect : Type 0 where
  mkdir_all : FilePath → Effect
  create : FilePath → Mode → Effect
  write : FilePath → List ℕ → Effect
  close_file : FilePath → Effect
  rename : FilePath → FilePath → Effect
  remove : FilePath → Effect

-- What was called so far.
abbrev pub Log : Type 0
Log = List Effect

-- The operating system: whether a call fails, after the calls before it.
abbrev pub Os : Type 0
Os = Log → Effect → Option Failure

-- A result beside the budget and the log after it.
pub record Step {ℓ} (A : Type ℓ) : Type ℓ where
  pub result : A
  pub budget : Budget
  pub log : Log

-- io.Copy writes before it reports an error of the source, and its own error comes first.
abbrev pub io_error : Option Failure → Option Failure → Option Failure
io_error none read = read
io_error (some f) read = some f

-- The error of os.Remove, unless it says that the file does not exist.
abbrev pub unless_missing : Option Failure → Err
unless_missing (some not_exist) = []
unless_missing (some f) = f ∷ []
unless_missing none = []

-- destPath + ".partial"
abbrev pub partial_path : FilePath → FilePath
partial_path [] = codes ".partial" ∷ []
partial_path (c ∷ []) = (c ++ codes ".partial") ∷ []
partial_path (c ∷ d ∷ cs) = c ∷ partial_path (d ∷ cs)

module _ (os : Os) where
  -- budget.copy
  unfoldable pub copy : FilePath → Body → Budget → Log → Step Err
  copy target src b log =
      let chunk = copied b src in
      let call = write target chunk.0 in
      let charged = charge b (length chunk.0) (io_error (os log call) chunk.1) in
      record { result = charged.0; budget = charged.1; log = log ++ call ∷ [] }

  -- writeEntry once the entry is open
  unfoldable pub write_body : FilePath → Mode → Body → Budget → Log → Step Err
  unfolding copy
  write_body target mode body b log =
      let call = create target mode in
      elim (os log call) [
        | some f ↦ record {
          result = f ∷ to_err body.close_fault;
          budget = b;
          log = log ++ call ∷ [];
        }
        | none ↦
            let copying = copy target body b (log ++ call ∷ []) in
            let closing = close_file target in
            record {
              result =
                  copying.result ++ (to_err (os copying.log closing) ++ to_err body.close_fault);
              budget = copying.budget;
              log = copying.log ++ closing ∷ [];
            }
      ]

  unfoldable pub write_entry : FilePath → Mode → Entry → Budget → Log → Step Err
  unfolding write_body
  write_entry target mode e b log = elim e.content [
    | open_failed f ↦ record { result = f ∷ []; budget = b; log = log }
    | opened body ↦ write_body target mode body b log
  ]

  unfoldable pub remove_if_exists : FilePath → Budget → Log → Step Err
  remove_if_exists name b log = record {
    result = unless_missing (os log (remove name));
    budget = b;
    log = log ++ remove name ∷ [];
  }

  -- What writeAtomic does after a failure: it removes the temporary file.
  unfoldable pub give_up : FilePath → Err → Budget → Log → Step Err
  unfolding remove_if_exists
  give_up tmp err b log =
      let removal = remove_if_exists tmp b log in
      record { result = err ++ removal.result; budget = removal.budget; log = removal.log }

  unfoldable pub write_atomic : FilePath → Entry → Budget → Log → Step Err
  unfolding write_entry give_up
  write_atomic dest e b log =
      let tmp = partial_path dest in
      let writing = write_entry tmp binary_mode e b log in
      elim writing.result [
        | f ∷ fs ↦ give_up tmp (f ∷ fs) writing.budget writing.log
        | [] ↦
            let call = rename tmp dest in
            elim (os writing.log call) [
              | some f ↦ give_up tmp (f ∷ []) writing.budget (writing.log ++ call ∷ [])
              | none ↦ record {
                result = [];
                budget = writing.budget;
                log = writing.log ++ call ∷ [];
              }
            ]
      ]
