-- ===== src/Archive/Extract/Visits.antt =====
-- internal/archive/archive.go: what the visitor of ExtractTree keeps.
use corkscrew.Prelude.{ℕ, ◌≡◌, refl, inl, inr, [], ◌∷◌, ◌++◌, All, Option-cases}
use corkscrew.Archive.Types.{Entry, Kind, kind_file, kind_dir}
use corkscrew.Archive.Paths.{FilePath, parent, Confined, skipped, refused, confined, confine}
use corkscrew.Archive.Paths.Plain.{IsPlain}
use corkscrew.Archive.Paths.Inside.{IsInside, confine-IsInside}
use corkscrew.Archive.World.{Os, file_mode, mkdir_all}
use corkscrew.Archive.Walk.{State}
use corkscrew.Archive.Walk.Keeps.{Rules}
use corkscrew.Archive.Extract.{extract_to, visit_tree}
use corkscrew.Archive.Extract.Within.{InTree, parent-IsWithin}
use corkscrew.Archive.Extract.Calls.{
  Sound, Bounded-of_Sound, Sound-call, write_entry-Leaves, SoundState, BoundedState, VisitLeaves,
  unchanged, rules_of,
}

module _ (dest : FilePath) (max : ℕ) where
  extract_to-Leaves :
      (os : Os) (target : FilePath) (e : Entry) (s : State)
      → IsInside dest target
      → SoundState (InTree dest) max s
      → VisitLeaves (InTree dest) max (extract_to os target e s)
  unfolding extract_to
  extract_to-Leaves os target e s inside h =
      let call = mkdir_all (parent target) in
      let log = s.log ++ call ∷ [] in
      let h' : Sound (InTree dest) max s.budget log =
        Sound-call (InTree dest) max s.budget s.log call refl (parent-IsWithin dest target inside)
          h in
      elim (Option-cases (os s.log call)) [
        | inr (f, bad) ↦
            rw (bad, extract_to) (Bounded-of_Sound (InTree dest) max s.budget log h', λ k. cc)
        | inl good ↦
            rw (good, extract_to)
              (write_entry-Leaves (InTree dest) max os target file_mode
                (record { creates = (inside, refl); writes = λ bytes. inside; closes = inside })
                e.content e s.budget log refl h')
      ]

  -- The branches of the visitor.
  confined-Leaves :
      (os : Os) (strip : ℕ) (e : Entry) (s : State) (c : Confined) (k : Kind)
      → All IsPlain dest
      → confine dest e.name strip ≡ c
      → e.kind ≡ k
      → SoundState (InTree dest) max s
      → VisitLeaves (InTree dest) max (visit_tree os dest strip e s)
  unfolding visit_tree
  confined-Leaves os strip e s skipped k clean c same h =
      rw (c, visit_tree) (unchanged (InTree dest) max [] s h)
  confined-Leaves os strip e s (refused f) k clean c same h =
      rw (c, visit_tree) (unchanged (InTree dest) max (f ∷ []) s h)
  confined-Leaves os strip e s (confined target) kind_dir clean c same h =
      rw (c, same, visit_tree) (unchanged (InTree dest) max [] s h)
  confined-Leaves os strip e s (confined target) kind_file clean c same h =
      rw (c, same, visit_tree)
        (extract_to-Leaves os target e s (confine-IsInside dest e.name strip target clean c) h)

  pub tree_rules :
      (os : Os) (strip : ℕ)
      → All IsPlain dest
      → Rules
          (visit_tree os dest strip)
          (SoundState (InTree dest) max)
          (BoundedState (InTree dest) max)
  tree_rules os strip clean =
      rules_of (InTree dest) max (visit_tree os dest strip)
        (λ e s h. confined-Leaves os strip e s (confine dest e.name strip) e.kind clean refl refl h)
