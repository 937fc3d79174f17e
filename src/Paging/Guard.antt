-- ===== src/Paging/Guard.antt =====
-- internal/shared/paging/paging.go: the guard of one pagination loop.
use corkscrew.Prelude.{
  ℕ, ◌+◌, ◌<◌, ◌≡◌, ◌≢◌, ◌↔◌, ◌⊎◌, inl, inr, not, Option, none, some, [], arith, ltb, leb,
  if◌then◌else◌, Text, text_eq, text_eq_iff, tests, Bool-cases, Run, done, assert_that, ◌>>◌,
}

abbrev pub pages_max_default : ℕ
pages_max_default = 10_000

pub data PageError : Type 0 where
  page_limit : Text → ℕ → PageError
  token_repeated : Text → ℕ → PageError

pub record Guard : Type 0 where
  pub label : Text
  pub pages_max : ℕ
  pub pages : ℕ
  pub token_previous : Text

-- New: the guard before any page.
unfoldable pub new : Text → ℕ → Run Guard
new label pages_max = do
  assert_that (ltb 0 pages_max)
  done (record { label = label; pages_max = pages_max; pages = 0; token_previous = [] })

-- What Next decides once the page is counted.
unfoldable pub advance : Guard → Text → Option PageError × Guard
advance g token =
    if leb g.pages_max g.pages
    then (some (page_limit g.label g.pages_max), g)
    else if text_eq token g.token_previous
    then (some (token_repeated g.label g.pages), g)
    else (none, record g { token_previous = token })

-- Next: the error, if any, and the guard after the call.
unfoldable pub next : Guard → Text → Run (Option PageError × Guard)
next g token = do
  assert_that (not (text_eq token []))
  assert_that (ltb g.pages g.pages_max)
  let counted = record g { pages = g.pages + 1 }
  assert_that (leb counted.pages counted.pages_max)
  done (advance counted token)

-- What a call that keeps the contract returns, on each of its three branches.
pub record IsNext (g : Guard) (token : Text) (e : Option PageError) (g' : Guard) : Type 0 where
  pub counted : g'.pages ≡ g.pages + 1
  pub same_max : g'.pages_max ≡ g.pages_max
  pub same_label : g'.label ≡ g.label
  pub limit_iff : (e ≡ some (page_limit g.label g.pages_max)) ↔ (g'.pages ≡ g.pages_max)
  pub repeated_iff :
      (e ≡ some (token_repeated g.label g'.pages))
      ↔ ((g'.pages < g.pages_max) × (token ≡ g.token_previous))
  pub advanced_iff : (e ≡ none) ↔ ((g'.pages < g.pages_max) × (token ≢ g.token_previous))
  pub remembered : e ≡ none → g'.token_previous ≡ token

-- With a non-empty token and room for one more page, a call returns: it counts the page, and
-- fails for the limit exactly at the last page that is allowed, fails for a repeated token exactly
-- below it when the token is the one of the call before, and otherwise succeeds and remembers
-- the token.
pub next-IsNext :
    (g : Guard) (token : Text)
    → token ≢ []
    → g.pages < g.pages_max
    → (e : Option PageError) × (g' : Guard) × (next g token ≡ done (e, g')) × IsNext g token e g'
unfolding next advance
next-IsNext g token ne h =
    let counted = record g { pages = g.pages + 1 } in
    (
      (advance counted token).0,
      (advance counted token).1,
      ground (arith, text_eq_iff token []),
      record {
        counted = ground (arith, text_eq_iff token g.token_previous);
        same_max = ground (arith, text_eq_iff token g.token_previous);
        same_label = ground (arith, text_eq_iff token g.token_previous);
        limit_iff = ground (arith, text_eq_iff token g.token_previous);
        repeated_iff = ground (arith, text_eq_iff token g.token_previous);
        advanced_iff = ground (arith, text_eq_iff token g.token_previous);
        remembered = ground (arith, text_eq_iff token g.token_previous);
      },
    )

-- The guard with the page counted.
abbrev pub count_page : Guard → Guard
count_page g = record g { pages = g.pages + 1 }

abbrev pub Reaches : Guard → Text → Type 0
Reaches g token =
    (g.pages + 1 ≡ g.pages_max)
    × (next g token ≡ done (some (page_limit g.label g.pages_max), count_page g))

abbrev pub Repeats : Guard → Text → Type 0
Repeats g token =
    (g.pages + 1 < g.pages_max)
    × (token ≡ g.token_previous)
    × (next g token ≡ done (some (token_repeated g.label (g.pages + 1)), count_page g))

abbrev pub Advances : Guard → Text → Type 0
Advances g token =
    (g.pages + 1 < g.pages_max)
    × (token ≢ g.token_previous)
    × (next g token ≡ done (none, record g { pages = g.pages + 1; token_previous = token }))

-- The three branches as a case split, for the loops that call the guard.
pub next_cases :
    (g : Guard) (token : Text)
    → token ≢ []
    → g.pages < g.pages_max
    → Reaches g token ⊎ (Repeats g token ⊎ Advances g token)
unfolding next advance
next_cases g token ne h = elim (Bool-cases (leb g.pages_max (g.pages + 1))) [
  | inl e ↦ inl (omega tests, ground (arith, text_eq_iff token []))
  | inr e ↦ elim (Bool-cases (text_eq token g.token_previous)) [
    | inl s ↦ inr (
        inl (
          ground arith,
          ground (arith, text_eq_iff token g.token_previous),
          ground (arith, text_eq_iff token []),
        ))
    | inr s ↦ inr (
        inr (
          ground arith,
          ground (arith, text_eq_iff token g.token_previous),
          ground (arith, text_eq_iff token []),
        ))
  ]
]
