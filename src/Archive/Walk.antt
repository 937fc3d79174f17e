-- ===== src/Archive/Walk.antt =====
-- internal/archive/walk.go: the walks over the members of an archive.
pub mod Keeps
use corkscrew.Prelude.{
  ℕ, suc, ◌+◌, Bool, true, false, Option, none, some, List, [], ◌∷◌, ◌++◌, Text, length, ltb, leb,
  if◌then◌else◌, Run, done, assert_that, ◌>>=◌, ◌>>◌,
}
use corkscrew.Prelude.Int.{ℤ, pos}
use corkscrew.Archive.Types.{
  Failure, Err, to_err, Format, format_tar_gz, format_zip, format_other, Limits, to_nat, validate,
  Opened, Entry, Kind, kind_file, kind_dir, Header, TypeFlag, type_reg, type_dir,
  type_x_global_header, type_other, TarFile, ZipEntry, FileMode, mode_regular, mode_dir, mode_other,
  ZipFile, Readable, unreadable, readable, ArchiveFile, too_many_entries, unsupported_type,
  size_overflows, unknown_format,
}
use corkscrew.Archive.Budget.{Budget, new_budget, is_balanced, admit, skip, max_int64}
use corkscrew.Archive.World.{Log}

-- What changes along a walk: the variable `found` that a visitor may capture, the budget, and the
-- calls to the operating system.
pub record State : Type 0 where
  pub found : Bool
  pub budget : Budget
  pub log : Log

-- What a visitor returns, and the state after it.
pub record Visited : Type 0 where
  pub is_done : Bool
  pub err : Err
  pub state : State

-- The error of a walk, and the state after it.
pub record Walked : Type 0 where
  pub err : Err
  pub state : State

abbrev pub Visitor : Type 0
Visitor = Entry → State → Visited

abbrev pub uncharge : State → State
uncharge s = record s { budget = record (s.budget) { charged = false } }

-- A state with the budget of a skip, and its error.
abbrev pub skip_entry : ℤ → State → Walked
skip_entry size s =
    let skipping = skip s.budget size in
    record { err = skipping.0; state = record s { budget = skipping.1 } }

-- The kind of an entry that is visited.
abbrev pub kind_of_flag : TypeFlag → Option Kind
kind_of_flag type_reg = some kind_file
kind_of_flag type_dir = some kind_dir
kind_of_flag type_x_global_header = none
kind_of_flag (type_other n) = none

abbrev pub is_global : TypeFlag → Bool
is_global type_x_global_header = true
is_global _ = false

abbrev pub kind_of_mode : FileMode → Option Kind
kind_of_mode mode_regular = some kind_file
kind_of_mode mode_dir = some kind_dir
kind_of_mode mode_other = none

abbrev pub keep_going : Err → State → Visited
keep_going err s = record { is_done = false; err = err; state = s }

-- `if err != nil { return … }`, else the rest.
abbrev pub on_err : Err → Visited → Visited → Visited
on_err [] failing rest = rest
on_err (f ∷ fs) failing rest = failing

-- `if done { return }`, and else the skip unless the entry was charged.
abbrev pub settle : Bool → Bool → Visited → Visited → Visited
settle true charged v skipping = v
settle false true v skipping = v
settle false false v skipping = skipping

-- `if err != nil || done { return err }`, else the rest of the loop.
abbrev pub return_if : Err → Bool → State → Walked → Walked
return_if (f ∷ fs) is_done s rest = record { err = f ∷ fs; state = s }
return_if [] true s rest = record { err = []; state = s }
return_if [] false s rest = rest

-- errors.Join(err, r.Close())
abbrev pub join_close : Err → Walked → Walked
join_close close w = record w { err = w.err ++ close }

-- assertBalanced, then the return.
abbrev pub balanced : Walked → Run Walked
balanced w = assert_that (is_balanced w.state.budget) >> done w

module _ (visit : Visitor) where
  -- One entry of a tar: it is admitted and visited, and skipped if its bytes were not charged.
  unfoldable pub tar_entry : Entry → State → Visited
  tar_entry e s =
      let refusal = admit s.budget e.size in
      let v = visit e (uncharge s) in
      let skipping = skip_entry e.size v.state in
      on_err refusal (keep_going refusal s) (
        on_err v.err v
          (settle v.is_done v.state.budget.charged v (keep_going skipping.err skipping.state)))

  -- The loop, for the header with number `count`.
  unfoldable pub walk_tar : ℕ → ℕ → Option Failure → List Header → State → Walked
  walk_tar entry_count_max count fault [] s = record { err = to_err fault; state = s }
  walk_tar entry_count_max count fault (h ∷ hs) s =
      if leb entry_count_max count
      then record { err = too_many_entries ∷ []; state = s }
      else elim (kind_of_flag h.type_flag) [
        | some k ↦
            let e : Entry = record {
              name = h.name;
              kind = k;
              size = h.size;
              content = h.content;
            } in
            let v = tar_entry e s in
            let rest = walk_tar entry_count_max (suc count) fault hs v.state in
            return_if v.err v.is_done v.state rest
        | none ↦ elim (is_global h.type_flag) [
          | true ↦ walk_tar entry_count_max (suc count) fault hs s
          | false ↦ record { err = unsupported_type ∷ []; state = s }
        ]
      ]

  -- One entry of a zip: it is admitted and visited.
  unfoldable pub zip_entry : Entry → State → Visited
  zip_entry e s =
      let refusal = admit s.budget e.size in on_err refusal (keep_going refusal s) (visit e s)

  unfoldable pub walk_zip_loop : List ZipEntry → State → Walked
  walk_zip_loop [] s = record { err = []; state = s }
  walk_zip_loop (z ∷ zs) s = elim (kind_of_mode z.mode) [
    | none ↦ record { err = unsupported_type ∷ []; state = s }
    | some k ↦
        if ltb max_int64 z.uncompressed_size
        then record { err = size_overflows ∷ []; state = s }
        else (let e : Entry = record {
          name = z.name;
          kind = k;
          size = pos z.uncompressed_size;
          content = z.content;
        } in
            let v = zip_entry e s in
            let rest = walk_zip_loop zs v.state in return_if v.err v.is_done v.state rest)
  ]

  unfoldable pub walk_zip_files : ℕ → List ZipEntry → State → Walked
  walk_zip_files entry_count_max files s =
      if ltb entry_count_max (length files)
      then record { err = too_many_entries ∷ []; state = s }
      else walk_zip_loop files s

  unfoldable pub walk_tar_gz : Readable TarFile → ℕ → State → Walked
  unfolding walk_tar
  walk_tar_gz (unreadable err) entry_count_max s = record { err = err; state = s }
  walk_tar_gz (readable file) entry_count_max s =
      join_close file.close_err (walk_tar entry_count_max 0 file.fault file.headers s)

  unfoldable pub walk_zip : Readable ZipFile → ℕ → State → Walked
  unfolding walk_zip_files
  walk_zip (unreadable err) entry_count_max s = record { err = err; state = s }
  walk_zip (readable file) entry_count_max s =
      join_close file.close_err (walk_zip_files entry_count_max file.files s)

  -- The switch over the format, and assertBalanced before the return.
  unfoldable pub walk_format : Format → ArchiveFile → ℕ → State → Run Walked
  unfolding walk_tar_gz walk_zip
  walk_format format_tar_gz file n s = balanced (walk_tar_gz file.as_tar n s)
  walk_format format_zip file n s = balanced (walk_zip file.as_zip n s)
  walk_format (format_other f) file n s = done (record { err = unknown_format ∷ []; state = s })

  -- walk, from the value of `found` and the calls so far.
  unfoldable pub walk : Format → ArchiveFile → Limits → Bool → Log → Run Walked
  unfolding walk_format
  walk format file limits found log =
      let start : State = record { found = found; budget = new_budget limits; log = log } in
      elim (validate limits) [
        | f ∷ fs ↦ done (record { err = f ∷ fs; state = start })
        | [] ↦ walk_format format file (to_nat limits.entry_count_max) start
      ]
