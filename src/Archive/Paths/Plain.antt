-- ===== src/Archive/Paths/Plain.antt =====
-- internal/archive/archive.go: the elements of a clean path.
use corkscrew.Prelude.{
  ◌≡◌, ◌≢◌, refl, ◌∙◌, List, [], ◌∷◌, ◌++◌, arith, Text, text_eq, text_eq_iff, text_eq_refl,
  text_eq_ne, sym, append_assoc, append-nil, All, All-append, Lacks, Bool-cases, inl, inr, ◌||◌,
}
use corkscrew.Archive.Paths.{FilePath, dot, dot_dot, parent, resolve, relative_to}

-- An element of a clean path: a name that is not empty, not `.`, not `..`, and has no separator.
pub record IsPlain (c : Text) : Type 0 where
  pub not_empty : c ≢ []
  pub not_dot : c ≢ dot
  pub not_dot_dot : c ≢ dot_dot
  pub no_slash : Lacks b'/' c

parent-IsPlain : (path : FilePath) → All IsPlain path → All IsPlain (parent path)
unfolding parent
parent-IsPlain [] h = tt
parent-IsPlain (c ∷ []) h = tt
parent-IsPlain (c ∷ d ∷ cs) h = (h.0, parent-IsPlain (d ∷ cs) h.1)

-- A clean path stays clean, whatever elements follow.
pub resolve-IsPlain :
    (path : FilePath) (cs : List Text)
    → All IsPlain path
    → All (Lacks b'/') cs
    → All IsPlain (resolve path cs)
unfolding resolve
resolve-IsPlain path [] h k = h
resolve-IsPlain path (c ∷ cs) h k = elim (Bool-cases (text_eq c [] || text_eq c dot)) [
  | inl e ↦ rw (e) (resolve-IsPlain path cs h k.1)
  | inr e ↦ elim (Bool-cases (text_eq c dot_dot)) [
    | inl u ↦ rw (e, u) (resolve-IsPlain (parent path) cs (parent-IsPlain path h) k.1)
    | inr u ↦
        rw (e, u)
          (resolve-IsPlain (path ++ c ∷ []) cs
            (All-append IsPlain path (c ∷ []) h (
              record {
                not_empty = λ s. ground (arith, text_eq_iff c []);
                not_dot = λ s. ground (arith, text_eq_iff c dot);
                not_dot_dot = λ s. ground (arith, text_eq_iff c dot_dot);
                no_slash = k.0;
              },
              tt,
            ))
            k.1)
  ]
]

-- Plain elements are appended one by one.
pub resolve-plain :
    (path : FilePath) (cs : List Text) → All IsPlain cs → resolve path cs ≡ path ++ cs
unfolding resolve
resolve-plain path [] h = sym (append-nil path)
resolve-plain path (c ∷ cs) h =
    rw
      (
        text_eq_ne c [] h.0.not_empty,
        text_eq_ne c dot h.0.not_dot,
        text_eq_ne c dot_dot h.0.not_dot_dot,
      )
      (resolve-plain (path ++ c ∷ []) cs h.1 ∙ append_assoc path (c ∷ []) cs)

-- If the relative path does not begin with `..`, the target lies at or below the base.
pub below_of_relative :
    (base target : FilePath) (c : Text) (cs : List Text)
    → relative_to base target ≡ c ∷ cs
    → c ≢ dot_dot
    → target ≡ base ++ c ∷ cs
unfolding relative_to
below_of_relative [] target c cs e ne = e
below_of_relative (b ∷ base) [] c cs e ne = ground arith
below_of_relative (b ∷ base) (t ∷ target) c cs e ne =
    ground (arith, text_eq_iff b t, below_of_relative base target c cs)

pub relative_to-append : (base cs : FilePath) → relative_to base (base ++ cs) ≡ cs
unfolding relative_to
relative_to-append [] cs = refl
relative_to-append (b ∷ base) cs = rw text_eq_refl (relative_to-append base cs)
