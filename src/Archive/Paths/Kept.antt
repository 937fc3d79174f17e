-- ===== src/Archive/Paths/Kept.antt =====
-- internal/archive/archive.go: confine maps well-formed names to themselves.
use corkscrew.Prelude.{
  ◌≡◌, ◌≢◌, refl, false, List, [], ◌∷◌, ◌++◌, arith, Text, codes, text_eq_ne, All, All-append_right,
  All-map, split, split-join, has_prefix, has_prefix-join, join, join-Lacks, contains_byte, Lacks,
  drop, length, length-append, leb,
}
use corkscrew.Archive.Paths.{FilePath, dot_dot, confined, confine_relative, confine}
use corkscrew.Archive.Paths.Plain.{IsPlain, resolve-plain, relative_to-append}

-- A plain element that confine's first test lets pass.
pub record IsOrdinary (c : Text) : Type 0 where
  pub plain : IsPlain c
  pub no_backslash : Lacks b'\\' c
  pub no_nul : Lacks 0 c

drop-append {ℓ} : {A : Type ℓ} (xs ys : List A) → drop (length xs) (xs ++ ys) ≡ ys
drop-append [] ys = refl
drop-append (x ∷ xs) ys = drop-append xs ys

join_ne_nil : (sep c : Text) (cs : List Text) → IsPlain c → join sep (c ∷ cs) ≢ []
unfolding join
join_ne_nil sep [] cs h e = h.not_empty refl
join_ne_nil sep (b ∷ c) [] h e = cc
join_ne_nil sep (b ∷ c) (d ∷ cs) h e = cc

IsPlain-of_ordinary : (cs : List Text) → All IsOrdinary cs → All IsPlain cs
IsPlain-of_ordinary = All-map IsOrdinary IsPlain (λ c h. h.plain)

confine_relative-plain :
    (dest : FilePath) (c : Text) (cs : List Text)
    → All IsPlain (c ∷ cs)
    → confine_relative dest (join (codes "/") (c ∷ cs)) ≡ confined (dest ++ c ∷ cs)
unfolding confine_relative
confine_relative-plain dest c cs h =
    let parts : split b'/' (join (codes "/") (c ∷ cs)) ≡ c ∷ cs =
      split-join b'/' (c ∷ cs) (λ e. cc)
        (All-map IsPlain (Lacks b'/') (λ x p. p.no_slash) (c ∷ cs) h) in
    rw
      (
        parts,
        resolve-plain dest (c ∷ cs) h,
        relative_to-append dest (c ∷ cs),
        text_eq_ne c dot_dot h.0.not_dot_dot,
        confine_relative,
      )
      (rw (parts, resolve-plain dest (c ∷ cs) h))

first_no_slash :
    (lead : List Text) (c : Text) (cs : List Text)
    → All IsOrdinary (lead ++ c ∷ cs)
    → has_prefix (codes "/") (join (codes "/") (lead ++ c ∷ cs)) ≡ false
first_no_slash [] c cs h =
    has_prefix-join b'/' (codes "/") c cs h.0.plain.not_empty h.0.plain.no_slash
first_no_slash (d ∷ lead) c cs h =
    has_prefix-join b'/' (codes "/") d (lead ++ c ∷ cs) h.0.plain.not_empty h.0.plain.no_slash

longer :
    (lead : List Text) (c : Text) (cs : List Text)
    → leb (length (lead ++ c ∷ cs)) (length lead) ≡ false
longer lead c cs = ground (arith, length-append lead (c ∷ cs))

append_ne_nil : (lead : List Text) (c : Text) (cs : List Text) → lead ++ c ∷ cs ≢ []
append_ne_nil [] c cs e = cc
append_ne_nil (d ∷ lead) c cs e = cc

-- A name whose elements are plain, without backslash and NUL, and more than are stripped, is
-- mapped to the elements that remain, below the destination: stripping removes exactly the
-- leading ones, and nothing else of the name is changed.
pub confine-ordinary :
    (dest : FilePath) (lead : List Text) (c : Text) (cs : List Text)
    → All IsOrdinary (lead ++ c ∷ cs)
    → confine dest (join (codes "/") (lead ++ c ∷ cs)) (length lead) ≡ confined (dest ++ c ∷ cs)
unfolding confine contains_byte
confine-ordinary dest lead c cs h =
    let all = lead ++ c ∷ cs in
    let name = join (codes "/") all in
    let no_backslash : contains_byte b'\\' name ≡ false =
      join-Lacks b'\\' (codes "/") all refl
        (All-map IsOrdinary (Lacks b'\\') (λ x p. p.no_backslash) all h) in
    let no_nul : contains_byte 0 name ≡ false =
      join-Lacks 0 (codes "/") all refl (All-map IsOrdinary (Lacks 0) (λ x p. p.no_nul) all h) in
    let kept : All IsOrdinary (c ∷ cs) = All-append_right IsOrdinary lead (c ∷ cs) h in
    let parts : split b'/' name ≡ all =
      split-join b'/' all (append_ne_nil lead c cs)
        (All-map IsOrdinary (Lacks b'/') (λ x p. p.plain.no_slash) all h) in
    rw
      (
        no_backslash,
        no_nul,
        first_no_slash lead c cs h,
        parts,
        longer lead c cs,
        drop-append lead (c ∷ cs),
        text_eq_ne (join (codes "/") (c ∷ cs)) [] (join_ne_nil (codes "/") c cs kept.0.plain),
        confine,
      )
      (confine_relative-plain dest c cs (IsPlain-of_ordinary (c ∷ cs) kept))
