-- ===== src/Archive/Extract/Install.antt =====
-- internal/archive/archive.go: what ExtractFile does to the file system.
use corkscrew.Prelude.{
  ℕ, ◌+◌, ◌≤◌, ◌≡◌, refl, inl, inr, true, false, [], ◌∷◌, ◌++◌, ◌||◌, arith, Text, text_eq,
  contains_byte, All, done, Bool-cases, Option-cases,
}
use corkscrew.Archive.Types.{
  Failure, Err, Format, Limits, to_nat, Entry, ArchiveFile, invalid_binary_name,
}
use corkscrew.Archive.Budget.{Budget, new_budget}
use corkscrew.Archive.Paths.{FilePath}
use corkscrew.Archive.World.{
  Os, Log, Effect, binary_mode, mkdir_all, create, write, close_file, rename, remove, partial_path,
  give_up, remove_if_exists, write_entry, write_atomic,
}
use corkscrew.Archive.World.Effects.{total_bytes}
use corkscrew.Archive.Walk.{State, Walked}
use corkscrew.Archive.Walk.Keeps.{walk-keeps, Err-cases}
use corkscrew.Archive.Extract.{
  Extraction, is_clean, is_wanted, visit_file, extract_file, require_found,
}
use corkscrew.Archive.Extract.Calls.{
  Sound, Bounded, Bounded-of_Sound, Sound-call, Bounded-call, Leaves, write_entry-Leaves,
  SoundState, BoundedState, VisitLeaves, unchanged, rules_of,
}

-- What ExtractFile may do: create, write, close and remove the temporary file, and rename it to
-- the destination.
abbrev pub InPlace : FilePath → Effect → Type 0
InPlace dest (mkdir_all path) = ⊥
InPlace dest (create path mode) = (path ≡ partial_path dest) × (mode ≡ binary_mode)
InPlace dest (write path bytes) = path ≡ partial_path dest
InPlace dest (close_file path) = path ≡ partial_path dest
InPlace dest (rename path path') = (path ≡ partial_path dest) × (path' ≡ dest)
InPlace dest (remove path) = path ≡ partial_path dest

-- What is said of an extraction of one file under a limit of `max` bytes.
pub record IsInPlace (dest : FilePath) (max : ℕ) (x : Extraction) : Type 0 where
  pub calls : All (InPlace dest) x.log
  pub bytes : total_bytes x.log ≤ max + 1
  pub bytes_if_ok : x.err ≡ [] → total_bytes x.log ≤ max

module _ (os : Os) (dest : FilePath) (max : ℕ) where
  abbrev tmp : FilePath
  tmp = partial_path dest

  give_up-Leaves :
      (f : Failure) (fs : Err) (b : Budget) (log : Log)
      → Bounded (InPlace dest) max b log
      → Leaves (InPlace dest) max (give_up os tmp (f ∷ fs) b log)
  unfolding give_up remove_if_exists
  give_up-Leaves f fs b log h =
      (Bounded-call (InPlace dest) max b log (remove tmp) refl refl h, λ k. cc)

  write_atomic-Leaves :
      (e : Entry) (b : Budget) (log : Log)
      → Sound (InPlace dest) max b log
      → Leaves (InPlace dest) max (write_atomic os dest e b log)
  unfolding write_atomic
  write_atomic-Leaves e b log s =
      let w = write_entry os tmp binary_mode e b log in
      let (after, ok) =
        write_entry-Leaves (InPlace dest) max os tmp binary_mode
          (record { creates = (refl, refl); writes = λ bytes. refl; closes = refl }) e.content e b
          log refl s in
      elim (Err-cases w.result) [
        | inr (f, fs, bad) ↦ rw (bad, write_atomic) (give_up-Leaves f fs w.budget w.log after)
        | inl good ↦
            let call = rename tmp dest in
            let renamed =
              Sound-call (InPlace dest) max w.budget w.log call refl (refl, refl) (ok good) in
            let renamed' =
              Bounded-of_Sound (InPlace dest) max w.budget (w.log ++ call ∷ []) renamed in
            elim (Option-cases (os w.log call)) [
              | inr (f, bad) ↦
                  rw (good, bad, write_atomic)
                    (give_up-Leaves f [] w.budget (w.log ++ call ∷ []) renamed')
              | inl fine ↦ rw (good, fine, write_atomic) (renamed', λ k. renamed)
            ]
      ]

  visit_file-Leaves :
      (name : Text) (e : Entry) (s : State)
      → SoundState (InPlace dest) max s
      → VisitLeaves (InPlace dest) max (visit_file os name dest e s)
  unfolding visit_file
  visit_file-Leaves name e s h = elim (Bool-cases (is_wanted name e)) [
    | inl wanted ↦ rw (wanted, visit_file) (write_atomic-Leaves e s.budget s.log h)
    | inr other ↦ rw (other, visit_file) (unchanged (InPlace dest) max [] s h)
  ]

module _ (os : Os) (dest : FilePath) (limits : Limits) where
  abbrev bytes_max : ℕ
  bytes_max = to_nat limits.bytes_max

  start-Sound : Sound (InPlace dest) bytes_max (new_budget limits) []
  unfolding new_budget
  start-Sound = record {
    balanced = record { accounted = omega arith };
    same_max = refl;
    calls = tt;
    counted = refl;
  }

  require_found-IsInPlace :
      (w : Walked)
      → BoundedState (InPlace dest) bytes_max w.state
      → (w.err ≡ [] → SoundState (InPlace dest) bytes_max w.state)
      → IsInPlace dest bytes_max (require_found w)
  require_found-IsInPlace w b s = elim (Err-cases w.err) [
    | inr (f, fs, bad) ↦
        rw (bad, require_found) (record { calls = b.calls; bytes = b.bytes; bytes_if_ok = λ k. cc })
    | inl good ↦
        let h = s good in
        rw (good, require_found)
          (record {
            calls = b.calls;
            bytes = b.bytes;
            bytes_if_ok = λ k. omega (arith, h.counted, h.balanced.accounted, h.same_max);
          })
  ]

  -- Whatever the archive holds and however the system answers, ExtractFile to an absolute clean
  -- path returns with no assertion failed; the only file that it ever creates, writes or removes
  -- is the temporary one, and the destination only changes by a rename of that file; and it
  -- writes at most one byte more than `BytesMax`, and no more than `BytesMax` if it returns no
  -- error.
  pub extract_file-IsInPlace :
      (format : Format) (file : ArchiveFile) (name : Text)
      → is_clean dest ≡ true
      → (x : Extraction) × (extract_file os format file name dest limits [] ≡ done x)
        × IsInPlace dest bytes_max x
  unfolding extract_file
  extract_file-IsInPlace format file name clean =
      elim (Bool-cases (text_eq name [] || (contains_byte b'/' name || contains_byte b'\\' name))) [
        | inl bad ↦ (
          record { err = invalid_binary_name ∷ []; log = [] },
          rw (clean, bad, extract_file),
          record { calls = tt; bytes = omega arith; bytes_if_ok = λ k. omega arith },
        )
        | inr good ↦
            let (w, returned, g) =
              walk-keeps (visit_file os name dest) (SoundState (InPlace dest) bytes_max)
                (BoundedState (InPlace dest) bytes_max)
                (rules_of (InPlace dest) bytes_max (visit_file os name dest)
                  (visit_file-Leaves os dest bytes_max name))
                format file limits false [] start-Sound (λ s h. h.balanced) in
            (
              require_found w,
              rw (clean, good, returned, extract_file),
              require_found-IsInPlace w g.0 g.1,
            )
      ]
