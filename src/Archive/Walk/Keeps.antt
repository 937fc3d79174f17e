-- ===== src/Archive/Walk/Keeps.antt =====
-- internal/archive/walk.go: invariants of the walks. `P` holds between entries, and `Q` also after
-- a failure.
use corkscrew.Prelude.{
  ℕ, suc, ◌≡◌, refl, ◌⊎◌, inl, inr, Bool, true, false, Option, List, [], ◌∷◌, ◌++◌, leb, ltb,
  length, Run, done, Bool-cases, Option-cases,
}
use corkscrew.Prelude.Int.{ℤ, pos}
use corkscrew.Archive.Types.{
  Failure, Err, Format, format_tar_gz, format_zip, format_other, Limits, Entry, Header, ZipEntry,
  TarFile, ZipFile, Readable, unreadable, readable, ArchiveFile, to_nat, validate, unknown_format,
}
use corkscrew.Archive.Budget.{new_budget, admit, max_int64}
use corkscrew.Archive.Budget.Balance.{IsBalanced, is_balanced-of_IsBalanced}
use corkscrew.Archive.World.{Log}
use corkscrew.Archive.Walk.{
  State, Visited, Walked, Visitor, uncharge, skip_entry, kind_of_flag, is_global, kind_of_mode,
  tar_entry, walk_tar, zip_entry, keep_going, join_close, on_err, settle, return_if, walk_zip_loop,
  walk_zip_files, walk_tar_gz, walk_zip, balanced, walk_format, walk,
}

-- The obligations of a visitor.
pub record Rules (visit : Visitor) (P Q : State → Type 0) : Type 0 where
  pub weaken : (s : State) → P s → Q s
  pub visit_fails : (e : Entry) (s : State) → P s → Q (visit e s).state
  pub visit_keeps : (e : Entry) (s : State) → P s → (visit e s).err ≡ [] → P (visit e s).state
  pub uncharge_keeps : (s : State) → P s → P (uncharge s)
  pub skip_keeps : (size : ℤ) (s : State) → P s → P (skip_entry size s).state

-- What a part of a walk guarantees.
abbrev pub Guarantee : (State → Type 0) → (State → Type 0) → Err → State → Type 0
Guarantee P Q err s = Q s × (err ≡ [] → P s)

pub Err-cases : (e : Err) → (e ≡ []) ⊎ ((f : Failure) × (fs : Err) × (e ≡ f ∷ fs))
Err-cases [] = inl refl
Err-cases (f ∷ fs) = inr (f, fs, refl)

pub nil_of_append : (e f : Err) → e ++ f ≡ [] → e ≡ []
nil_of_append [] f h = refl
nil_of_append (x ∷ e) f h = cc

module _ (visit : Visitor) (P Q : State → Type 0) (rules : Rules visit P Q) where
  abbrev Keeps : Visited → Type 0
  Keeps v = Guarantee P Q v.err v.state

  on_err-Keeps :
      (e : Err) (v rest : Visited)
      → e ≡ v.err
      → Q v.state
      → (e ≡ [] → Keeps rest)
      → Keeps (on_err e v rest)
  on_err-Keeps [] v rest same q r = r refl
  on_err-Keeps (f ∷ fs) v rest same q r = (q, λ k. cc)

  settle-Keeps :
      (is_done charged : Bool) (v skipping : Visited)
      → Keeps v
      → Keeps skipping
      → Keeps (settle is_done charged v skipping)
  settle-Keeps true charged v skipping k l = k
  settle-Keeps false true v skipping k l = k
  settle-Keeps false false v skipping k l = l

  both : (s : State) (e : Err) → P s → Guarantee P Q e s
  both s e p = (rules.weaken s p, λ k. p)

  tar_entry-Keeps : (e : Entry) (s : State) → P s → Keeps (tar_entry visit e s)
  unfolding tar_entry
  tar_entry-Keeps e s p =
      let v = visit e (uncharge s) in
      let p' = rules.uncharge_keeps s p in
      let refusal = admit s.budget e.size in
      let k = skip_entry e.size v.state in
      let skipping = keep_going k.err k.state in
      let settled = settle v.is_done v.state.budget.charged v skipping in
      on_err-Keeps refusal (keep_going refusal s) (on_err v.err v settled) refl (rules.weaken s p)
        (λ admitted.
          on_err-Keeps v.err v settled refl (rules.visit_fails e (uncharge s) p') (λ good.
            let kept = rules.visit_keeps e (uncharge s) p' good in
            settle-Keeps v.is_done v.state.budget.charged v skipping (both v.state v.err kept)
              (both k.state k.err (rules.skip_keeps e.size v.state kept))))

  zip_entry-Keeps : (e : Entry) (s : State) → P s → Keeps (zip_entry visit e s)
  unfolding zip_entry
  zip_entry-Keeps e s p =
      let refusal = admit s.budget e.size in
      on_err-Keeps refusal (keep_going refusal s) (visit e s) refl (rules.weaken s p)
        (λ admitted. (rules.visit_fails e s p, rules.visit_keeps e s p))

  abbrev Ends : Walked → Type 0
  Ends w = Guarantee P Q w.err w.state

  return_if-keeps :
      (e : Err) (is_done : Bool) (s : State) (rest : Walked)
      → Guarantee P Q e s
      → (P s → Ends rest)
      → Ends (return_if e is_done s rest)
  return_if-keeps (f ∷ fs) is_done s rest g r = (g.0, λ k. cc)
  return_if-keeps [] true s rest g r = g
  return_if-keeps [] false s rest g r = r (g.1 refl)

  walk_tar-keeps :
      (n count : ℕ) (fault : Option Failure) (hs : List Header) (s : State)
      → P s
      → Ends (walk_tar visit n count fault hs s)
  unfolding walk_tar
  walk_tar-keeps n count fault [] s p = both s _ p
  walk_tar-keeps n count fault (h ∷ hs) s p = elim (Bool-cases (leb n count)) [
    | inl full ↦ rw (full, walk_tar) (both s _ p)
    | inr room ↦ elim (Option-cases (kind_of_flag h.type_flag)) [
      | inr (k, visited) ↦
          let e : Entry = record { name = h.name; kind = k; size = h.size; content = h.content } in
          let v = tar_entry visit e s in
          rw (room, visited, walk_tar)
            (return_if-keeps v.err v.is_done v.state (walk_tar visit n (suc count) fault hs v.state)
              (tar_entry-Keeps e s p) (walk_tar-keeps n (suc count) fault hs v.state))
      | inl other ↦ elim (Bool-cases (is_global h.type_flag)) [
        | inl passed ↦
            rw (room, other, passed, walk_tar) (walk_tar-keeps n (suc count) fault hs s p)
        | inr bad ↦ rw (room, other, bad, walk_tar) (both s _ p)
      ]
    ]
  ]

  walk_zip_loop-keeps : (zs : List ZipEntry) (s : State) → P s → Ends (walk_zip_loop visit zs s)
  unfolding walk_zip_loop
  walk_zip_loop-keeps [] s p = both s _ p
  walk_zip_loop-keeps (z ∷ zs) s p = elim (Option-cases (kind_of_mode z.mode)) [
    | inl bad ↦ rw (bad, walk_zip_loop) (both s _ p)
    | inr (k, visited) ↦ elim (Bool-cases (ltb max_int64 z.uncompressed_size)) [
      | inl large ↦ rw (visited, large, walk_zip_loop) (both s _ p)
      | inr fits ↦
          let e : Entry = record {
            name = z.name;
            kind = k;
            size = pos z.uncompressed_size;
            content = z.content;
          } in
          let v = zip_entry visit e s in
          rw (visited, fits, walk_zip_loop)
            (return_if-keeps v.err v.is_done v.state (walk_zip_loop visit zs v.state)
              (zip_entry-Keeps e s p) (walk_zip_loop-keeps zs v.state))
    ]
  ]

  walk_zip_files-keeps :
      (n : ℕ) (zs : List ZipEntry) (s : State) → P s → Ends (walk_zip_files visit n zs s)
  unfolding walk_zip_files
  walk_zip_files-keeps n zs s p = elim (Bool-cases (ltb n (length zs))) [
    | inl full ↦ rw full (both s _ p)
    | inr room ↦ rw room (walk_zip_loop-keeps zs s p)
  ]

  join_close-keeps : (close : Err) (w : Walked) → Ends w → Ends (join_close close w)
  join_close-keeps close w g = (g.0, λ k. g.1 (nil_of_append w.err close k))

  walk_tar_gz-keeps :
      (r : Readable TarFile) (n : ℕ) (s : State) → P s → Ends (walk_tar_gz visit r n s)
  unfolding walk_tar_gz
  walk_tar_gz-keeps (unreadable err) n s p = both s err p
  walk_tar_gz-keeps (readable file) n s p =
      join_close-keeps file.close_err (walk_tar visit n 0 file.fault file.headers s)
        (walk_tar-keeps n 0 file.fault file.headers s p)

  walk_zip-keeps : (r : Readable ZipFile) (n : ℕ) (s : State) → P s → Ends (walk_zip visit r n s)
  unfolding walk_zip
  walk_zip-keeps (unreadable err) n s p = both s err p
  walk_zip-keeps (readable file) n s p =
      join_close-keeps file.close_err (walk_zip_files visit n file.files s)
        (walk_zip_files-keeps n file.files s p)

  abbrev Returns : Run Walked → Type 0
  Returns r = (w : Walked) × (r ≡ done w) × Ends w

  balanced-Returns :
      (w : Walked) → Ends w → ((s : State) → Q s → IsBalanced s.budget) → Returns (balanced w)
  balanced-Returns w g b = (w, rw (is_balanced-of_IsBalanced w.state.budget (b w.state g.0)), g)

  walk_format-keeps :
      (format : Format) (file : ArchiveFile) (n : ℕ) (s : State)
      → P s
      → ((s : State) → Q s → IsBalanced s.budget)
      → Returns (walk_format visit format file n s)
  unfolding walk_format
  walk_format-keeps format_tar_gz file n s p b =
      balanced-Returns (walk_tar_gz visit file.as_tar n s) (walk_tar_gz-keeps file.as_tar n s p) b
  walk_format-keeps format_zip file n s p b =
      balanced-Returns (walk_zip visit file.as_zip n s) (walk_zip-keeps file.as_zip n s p) b
  walk_format-keeps (format_other f) file n s p b =
      (record { err = unknown_format ∷ []; state = s }, refl, both s (unknown_format ∷ []) p)

  -- A walk from a state where `P` holds returns, with `Q` after it, and with `P` if it has no
  -- error. The assertion that the books balance does not fail, if they balance wherever `Q` holds.
  pub walk-keeps :
      (format : Format) (file : ArchiveFile) (limits : Limits) (found : Bool) (log : Log)
      → P (record { found = found; budget = new_budget limits; log = log })
      → ((s : State) → Q s → IsBalanced s.budget)
      → (w : Walked) × (walk visit format file limits found log ≡ done w) × Ends w
  unfolding walk
  walk-keeps format file limits found log p b =
      let s : State = record { found = found; budget = new_budget limits; log = log } in
      elim (Err-cases (validate limits)) [
        | inr (f, fs, bad) ↦ (record { err = f ∷ fs; state = s }, rw (bad, walk), both s (f ∷ fs) p)
        | inl valid ↦
            rw (valid, walk) (walk_format-keeps format file (to_nat limits.entry_count_max) s p b)
      ]
