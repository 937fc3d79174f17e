-- ===== src/Archive/Extract/File.antt =====
-- internal/archive/archive.go: what writeAtomic does.
use corkscrew.Prelude.{
  ◌+◌, ◌<◌, ◌≡◌, ◌≢◌, refl, ap, ◌∙◌, inl, inr, none, [], ◌∷◌, ◌++◌, append_assoc, min, length,
  Option-cases,
}
use corkscrew.Archive.Types.{Failure, Err, Body, Opened, open_failed, opened, Entry}
use corkscrew.Archive.Budget.{Budget, max_int64}
use corkscrew.Archive.Paths.{FilePath}
use corkscrew.Archive.World.{
  Os, Effect, Log, Mode, binary_mode, create, write, close_file, rename, Step, copy, write_body,
  write_entry, give_up, write_atomic, partial_path,
}
use corkscrew.Archive.World.Effects.{copy_whole}
use corkscrew.Archive.Walk.Keeps.{Err-cases, nil_of_append}

cons_ne_nil : (f : Failure) (fs : Err) → f ∷ fs ≢ []
cons_ne_nil f fs h = cc

module _ (os : Os) where
  -- The calls that write a whole body to `target`, and its place in the books.
  abbrev whole_calls : FilePath → Mode → Body → Log
  whole_calls target mode body =
      create target mode ∷ write target body.bytes ∷ close_file target ∷ []

  record IsWritten (target : FilePath) (mode : Mode) (body : Body) (b : Budget) (log : Log)
      (s : Step Err) : Type 0 where
    calls : s.log ≡ log ++ whole_calls target mode body
    no_fault : body.fault ≡ none
    charged : s.budget.written ≡ b.written + length body.bytes

  append_three :
      (log : Log) (c d e : Effect) → ((log ++ c ∷ []) ++ d ∷ []) ++ e ∷ [] ≡ log ++ c ∷ d ∷ e ∷ []
  append_three log c d e =
      append_assoc (log ++ c ∷ []) (d ∷ []) (e ∷ []) ∙ append_assoc log (c ∷ []) (d ∷ e ∷ [])

  write_body-IsWritten :
      (target : FilePath) (mode : Mode) (body : Body) (b : Budget) (log : Log)
      → min b.entry_max b.remaining < max_int64
      → (write_body os target mode body b log).result ≡ []
      → IsWritten target mode body b log (write_body os target mode body b log)
  unfolding write_body
  write_body-IsWritten target mode body b log room ok =
      let call = create target mode in
      elim (Option-cases (os log call)) [
        | inr (f, e) ↦ absurd (cons_ne_nil f _ (rw (e, write_body) at ok))
        | inl e ↦
            let copied_ok : (copy os target body b (log ++ call ∷ [])).result ≡ [] =
              nil_of_append _ _ (rw (e, write_body) at ok) in
            let (wrote, ended, charged, _, _) =
              copy_whole os target body b (log ++ call ∷ []) room copied_ok in
            rw (e, write_body)
              (record {
                calls =
                    ap (λ l. l ++ close_file target ∷ []) wrote
                    ∙ append_three log call (write target body.bytes) (close_file target);
                no_fault = ended;
                charged = charged;
              })
      ]

  write_entry-IsWritten :
      (target : FilePath) (mode : Mode) (e : Entry) (c : Opened) (b : Budget) (log : Log)
      → e.content ≡ c
      → min b.entry_max b.remaining < max_int64
      → (write_entry os target mode e b log).result ≡ []
      → (body : Body) × (c ≡ opened body)
        × IsWritten target mode body b log (write_entry os target mode e b log)
  unfolding write_entry
  write_entry-IsWritten target mode e (open_failed f) b log same room ok =
      absurd (cons_ne_nil f [] (rw same at ok))
  write_entry-IsWritten target mode e (opened body) b log same room ok =
      (body, refl, rw same (write_body-IsWritten target mode body b log room (rw same at ok)))

  give_up-fails :
      (tmp : FilePath) (f : Failure) (fs : Err) (b : Budget) (log : Log)
      → (give_up os tmp (f ∷ fs) b log).result ≢ []
  unfolding give_up
  give_up-fails tmp f fs b log h = cons_ne_nil f _ h

  -- What the destination of writeAtomic sees if it succeeds.
  pub record IsInstalled (dest : FilePath) (e : Entry) (b : Budget) (log : Log) (s : Step Err)
      : Type 0 where
    pub body : Body
    pub from_entry : e.content ≡ opened body
    pub read_to_end : body.fault ≡ none
    pub charged : s.budget.written ≡ b.written + length body.bytes
    pub calls :
        s.log
        ≡ log
          ++ create (partial_path dest) binary_mode
            ∷ write (partial_path dest) body.bytes
            ∷ close_file (partial_path dest)
            ∷ rename (partial_path dest) dest
            ∷ []

  -- Unless both limits are the greatest int64: a writeAtomic without error has read its entry to
  -- the end without an error, charged exactly the length, created the temporary file, written all
  -- the bytes to it in one copy, closed it, and only then renamed it to the destination; and it
  -- has made no other call.
  pub write_atomic-IsInstalled :
      (dest : FilePath) (e : Entry) (b : Budget) (log : Log)
      → min b.entry_max b.remaining < max_int64
      → (write_atomic os dest e b log).result ≡ []
      → IsInstalled dest e b log (write_atomic os dest e b log)
  unfolding write_atomic
  write_atomic-IsInstalled dest e b log room ok =
      let tmp = partial_path dest in
      let w = write_entry os tmp binary_mode e b log in
      elim (Err-cases w.result) [
        | inr (f, fs, bad) ↦
            absurd (give_up-fails tmp f fs w.budget w.log (rw (bad, write_atomic) at ok))
        | inl good ↦ elim (Option-cases (os w.log (rename tmp dest))) [
          | inr (f, bad) ↦ absurd (
              give_up-fails tmp f [] w.budget (w.log ++ rename tmp dest ∷ [])
                (rw (good, bad, write_atomic) at ok))
          | inl renamed ↦
              let (body, same, i) =
                write_entry-IsWritten tmp binary_mode e e.content b log refl room good in
              rw (good, renamed, write_atomic)
                (record {
                  body = body;
                  from_entry = same;
                  read_to_end = i.no_fault;
                  charged = i.charged;
                  calls =
                      ap (λ l. l ++ rename tmp dest ∷ []) i.calls
                      ∙ append_assoc log (whole_calls tmp binary_mode body) (rename tmp dest ∷ []);
                })
        ]
      ]
