-- ===== src/Archive/Extract/Calls.antt =====
-- internal/archive/archive.go: what is said of the calls of an extraction, each of which `May` happen.
use corkscrew.Prelude.{
  ℕ, List, ◌+◌, ◌≤◌, ◌≡◌, refl, ◌∙◌, sym, inl, inr, [], ◌∷◌, ◌++◌, arith, length, All, All-append,
  sum_by-append, Option-cases,
}
use corkscrew.Prelude.Int.{ℤ}
use corkscrew.Archive.Types.{Err, Entry, Body, Opened, open_failed, opened}
use corkscrew.Archive.Budget.{Budget, copied, skip}
use corkscrew.Archive.Budget.Balance.{IsBalanced, skip-IsBalanced, skip_lem}
use corkscrew.Archive.Paths.{FilePath}
use corkscrew.Archive.World.{
  Os, Log, Step, Effect, Mode, create, write, close_file, copy, write_body, write_entry,
}
use corkscrew.Archive.World.Effects.{total_bytes, bytes_of, copied-le, copy-log, copy-budget}
use corkscrew.Archive.Walk.{State, Visited, uncharge, keep_going}
use corkscrew.Archive.Walk.Keeps.{Rules, nil_of_append}

module _ (May : Effect → Type 0) (max : ℕ) where
  -- Between entries: the books balance, and the budget knows all the bytes that were written.
  pub record Sound (b : Budget) (log : Log) : Type 0 where
    pub balanced : IsBalanced b
    pub same_max : b.bytes_max ≡ max
    pub calls : All May log
    pub counted : total_bytes log ≡ b.written

  -- Also after a failure.
  pub record Bounded (b : Budget) (log : Log) : Type 0 where
    pub balanced : IsBalanced b
    pub calls : All May log
    pub bytes : total_bytes log ≤ max + 1

  pub Bounded-of_Sound : (b : Budget) (log : Log) → Sound b log → Bounded b log
  Bounded-of_Sound b log s = record {
    balanced = s.balanced;
    calls = s.calls;
    bytes = omega (arith, s.counted, s.balanced.accounted, s.same_max);
  }

  -- A call that writes nothing.
  pub Sound-call :
      (b : Budget) (log : Log) (e : Effect)
      → bytes_of e ≡ 0
      → May e
      → Sound b log
      → Sound b (log ++ e ∷ [])
  Sound-call b log e z i s = record {
    balanced = s.balanced;
    same_max = s.same_max;
    calls = All-append May log (e ∷ []) s.calls (i, tt);
    counted = omega (arith, sum_by-append bytes_of log (e ∷ []), s.counted, z);
  }

  pub Bounded-call :
      (b : Budget) (log : Log) (e : Effect)
      → bytes_of e ≡ 0
      → May e
      → Bounded b log
      → Bounded b (log ++ e ∷ [])
  Bounded-call b log e z i s = record {
    balanced = s.balanced;
    calls = All-append May log (e ∷ []) s.calls (i, tt);
    bytes = omega (arith, sum_by-append bytes_of log (e ∷ []), s.bytes, z);
  }

  abbrev pub Leaves : Step Err → Type 0
  Leaves st = Bounded st.budget st.log × (st.result ≡ [] → Sound st.budget st.log)

  -- An entry may be written to the target.
  pub record IsWritable (target : FilePath) (mode : Mode) : Type 0 where
    pub creates : May (create target mode)
    pub writes : (bytes : List ℕ) → May (write target bytes)
    pub closes : May (close_file target)

  module _ (os : Os) (target : FilePath) (mode : Mode) (may : IsWritable target mode) where
    copy-Leaves :
        (src : Body) (b : Budget) (log : Log) → Sound b log → Leaves (copy os target src b log)
    copy-Leaves src b log s =
        let chunk = (copied b src).0 in
        let (same, keeps, counts) = copy-budget os target src b log in
        let logged = copy-log os target src b log in
        let calls : All May (log ++ write target chunk ∷ []) =
          All-append May log (write target chunk ∷ []) s.calls (may.writes chunk, tt) in
        let total : total_bytes (log ++ write target chunk ∷ []) ≡ b.written + length chunk =
          omega (arith, sum_by-append bytes_of log (write target chunk ∷ []), s.counted) in
        (
          record {
            balanced = keeps s.balanced;
            calls = rw logged calls;
            bytes =
                rw logged (omega (arith, total, copied-le b src, s.balanced.accounted, s.same_max));
          },
          λ ok. record {
            balanced = keeps s.balanced;
            same_max = same ∙ s.same_max;
            calls = rw logged calls;
            counted = rw logged (total ∙ sym (counts ok));
          },
        )

    write_body-Leaves :
        (src : Body) (b : Budget) (log : Log)
        → Sound b log
        → Leaves (write_body os target mode src b log)
    unfolding write_body
    write_body-Leaves src b log s =
        let call = create target mode in
        let s' = Sound-call b log call refl may.creates s in
        let st = copy os target src b (log ++ call ∷ []) in
        let (after, ok) = copy-Leaves src b (log ++ call ∷ []) s' in
        elim (Option-cases (os log call)) [
          | inr (f, e) ↦ rw (e, write_body) (Bounded-of_Sound b (log ++ call ∷ []) s', λ k. cc)
          | inl e ↦
              rw (e, write_body)
                (
                  Bounded-call st.budget st.log (close_file target) refl may.closes after,
                  λ k.
                      Sound-call st.budget st.log (close_file target) refl may.closes
                        (ok (nil_of_append st.result _ k)),
                )
        ]

    pub write_entry-Leaves :
        (content : Opened) (e : Entry) (b : Budget) (log : Log)
        → e.content ≡ content
        → Sound b log
        → Leaves (write_entry os target mode e b log)
    unfolding write_entry
    write_entry-Leaves (open_failed f) e b log same s =
        rw (same, write_entry) (Bounded-of_Sound b log s, λ k. cc)
    write_entry-Leaves (opened src) e b log same s =
        rw (same, write_entry) (write_body-Leaves src b log s)

  pub skip-Sound : (size : ℤ) (b : Budget) (log : Log) → Sound b log → Sound (skip b size).1 log
  skip-Sound size b log h = record {
    balanced = skip-IsBalanced b size h.balanced;
    same_max = (skip_lem b size).0 ∙ h.same_max;
    calls = h.calls;
    counted = h.counted ∙ sym (skip_lem b size).1;
  }

  abbrev pub SoundState : State → Type 0
  SoundState s = Sound s.budget s.log

  abbrev pub BoundedState : State → Type 0
  BoundedState s = Bounded s.budget s.log

  abbrev pub VisitLeaves : Visited → Type 0
  VisitLeaves v = BoundedState v.state × (v.err ≡ [] → SoundState v.state)

  pub unchanged : (err : Err) (s : State) → SoundState s → VisitLeaves (keep_going err s)
  unchanged err s h = (Bounded-of_Sound s.budget s.log h, λ k. h)

  uncharge-Sound : (s : State) → SoundState s → SoundState (uncharge s)
  uncharge-Sound s h = record {
    balanced = record { accounted = h.balanced.accounted };
    same_max = h.same_max;
    calls = h.calls;
    counted = h.counted;
  }

  -- A visitor whose every visit keeps the books keeps them along a walk.
  pub rules_of :
      (visit : Entry → State → Visited)
      → ((e : Entry) (s : State) → SoundState s → VisitLeaves (visit e s))
      → Rules visit SoundState BoundedState
  rules_of visit leaves = record {
    weaken = λ s h. Bounded-of_Sound s.budget s.log h;
    visit_fails = λ e s h. (leaves e s h).0;
    visit_keeps = λ e s h. (leaves e s h).1;
    uncharge_keeps = uncharge-Sound;
    skip_keeps = λ size s h. skip-Sound size s.budget s.log h;
  }
