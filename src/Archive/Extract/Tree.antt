-- ===== src/Archive/Extract/Tree.antt =====
-- internal/archive/archive.go: what ExtractTree does to the file system.
use corkscrew.Prelude.{
  ℕ, ◌+◌, ◌≤◌, ◌≡◌, refl, sym, inl, inr, true, false, [], ◌∷◌, arith, text_eq_iff, append-nil, All,
  done, Option-cases,
}
use corkscrew.Prelude.Int.{ℤ, pos, negsuc}
use corkscrew.Archive.Types.{Err, Format, Limits, to_nat, negative_strip, ArchiveFile}
use corkscrew.Archive.Budget.{new_budget}
use corkscrew.Archive.Paths.{FilePath, dot, dot_dot}
use corkscrew.Archive.Paths.Plain.{IsPlain}
use corkscrew.Archive.World.{Os, Log, mkdir_all}
use corkscrew.Archive.World.Effects.{total_bytes}
use corkscrew.Archive.Walk.{Walked}
use corkscrew.Archive.Walk.Keeps.{walk-keeps}
use corkscrew.Archive.Extract.{Extraction, is_clean, visit_tree, extract_tree, ended}
use corkscrew.Archive.Extract.Within.{InTree}
use corkscrew.Archive.Extract.Calls.{Sound, SoundState, BoundedState}
use corkscrew.Archive.Extract.Visits.{tree_rules}

is_clean-IsPlain : (dest : FilePath) → is_clean dest ≡ true → All IsPlain dest
unfolding is_clean
is_clean-IsPlain [] h = tt
is_clean-IsPlain (c ∷ cs) h = (
  record {
    not_empty = λ e. ground (arith, text_eq_iff c []);
    not_dot = λ e. ground (arith, text_eq_iff c dot);
    not_dot_dot = λ e. ground (arith, text_eq_iff c dot_dot);
    no_slash = ground arith;
  },
  is_clean-IsPlain cs (ground arith),
)

-- What is said of an extraction into `dest` under a limit of `max` bytes.
pub record IsContained (dest : FilePath) (max : ℕ) (x : Extraction) : Type 0 where
  pub calls : All (InTree dest) x.log
  pub bytes : total_bytes x.log ≤ max + 1
  pub bytes_if_ok : x.err ≡ [] → total_bytes x.log ≤ max

module _ (os : Os) (dest : FilePath) (limits : Limits) where
  abbrev start_log : Log
  start_log = mkdir_all dest ∷ []

  abbrev bytes_max : ℕ
  bytes_max = to_nat limits.bytes_max

  start-Sound : Sound (InTree dest) bytes_max (new_budget limits) start_log
  unfolding new_budget
  start-Sound = record {
    balanced = record { accounted = omega arith };
    same_max = refl;
    calls = (record { below = []; at = sym (append-nil dest); plain = tt }, tt);
    counted = refl;
  }

  start_log-IsContained :
      (err : Err) → IsContained dest bytes_max (record { err = err; log = start_log })
  start_log-IsContained err = record {
    calls = start-Sound.calls;
    bytes = omega arith;
    bytes_if_ok = λ k. omega arith;
  }

  ended-IsContained :
      (w : Walked)
      → BoundedState (InTree dest) bytes_max w.state
      → (w.err ≡ [] → SoundState (InTree dest) bytes_max w.state)
      → IsContained dest bytes_max (ended w)
  ended-IsContained w b s = record {
    calls = b.calls;
    bytes = b.bytes;
    bytes_if_ok = λ k. let h = s k in omega (arith, h.counted, h.balanced.accounted, h.same_max);
  }

  -- Whatever the archive holds and however the system answers, ExtractTree into an absolute clean
  -- destination returns with no assertion failed; it only makes directories at or below the
  -- destination and creates, writes and closes files strictly below it; and it writes at most one
  -- byte more than `BytesMax`, and no more than `BytesMax` if it returns no error.
  pub extract_tree-IsContained :
      (format : Format) (file : ArchiveFile) (strip_components : ℤ)
      → is_clean dest ≡ true
      → (x : Extraction) × (extract_tree os format file dest strip_components limits [] ≡ done x)
        × IsContained dest bytes_max x
  unfolding extract_tree
  extract_tree-IsContained format file (negsuc n) clean = (
    record { err = negative_strip ∷ []; log = [] },
    rw (clean, extract_tree),
    record { calls = tt; bytes = omega arith; bytes_if_ok = λ k. omega arith },
  )
  extract_tree-IsContained format file (pos strip) clean =
      elim (Option-cases (os [] (mkdir_all dest))) [
        | inr (f, e) ↦ (
          record { err = f ∷ []; log = start_log },
          rw (clean, e, extract_tree),
          start_log-IsContained (f ∷ []),
        )
        | inl e ↦
            let (w, returned, g) =
              walk-keeps (visit_tree os dest strip) (SoundState (InTree dest) bytes_max)
                (BoundedState (InTree dest) bytes_max)
                (tree_rules dest bytes_max os strip (is_clean-IsPlain dest clean)) format file
                limits false start_log start-Sound (λ s h. h.balanced) in
            (ended w, rw (clean, e, returned, extract_tree), ended-IsContained w g.0 g.1)
      ]
