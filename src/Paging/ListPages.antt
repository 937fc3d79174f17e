-- ===== src/Paging/ListPages.antt =====
-- plugins/gcp-provider/paging.go: listPages, over a server that answers the i-th request. The page
-- limit is an argument; the source passes `PagesMax`.
use corkscrew.Prelude.{
  ℕ, zero, suc, ◌≤◌, ◌<◌, ◌≡◌, ◌≢◌, Option, none, some, List, [], ◌++◌, Text, text_eq, Run, done,
  panic, if◌then◌else◌,
}
use corkscrew.Paging.Guard.{Guard, PageError, page_limit, token_repeated, new, next}

-- What pager.NextPage returns: the page's items and the continuation token, or an error beside
-- the items that arrived.
pub record Reply {ℓ} (T E : Type ℓ) : Type ℓ where
  pub items : List T
  pub token : Text
  pub fault : Option E

pub data ListError {ℓ} (E : Type ℓ) : Type ℓ where
  fetch : E → ListError E
  guarded : PageError → ListError E

-- The items visited, in order, how many pages were requested, and the error that is returned.
pub record Listing {ℓ} (T E : Type ℓ) : Type ℓ where
  pub visited : List T
  pub requests : ℕ
  pub error : Option (ListError E)

module _ {ℓ} {T E : Type ℓ} (server : ℕ → Reply T E) where
  -- `if err := guard.Next(token); err != nil { return err }`
  abbrev check :
      Run (Option PageError × Guard)
      → (ListError E → Listing T E)
      → (Guard → Option (Run (Listing T E)))
      → Option (Run (Listing T E))
  check panic stop rest = some panic
  check (done (some e, g)) stop rest = some (done (stop (guarded e)))
  check (done (none, g)) stop rest = rest g

  -- The loop, before the request with number `i`. `none` means that the fuel ran out.
  unfoldable pub list_loop : ℕ → ℕ → List T → Guard → Option (Run (Listing T E))
  list_loop zero i visited g = none
  list_loop (suc fuel) i visited g =
      let seen = visited ++ (server i).items in
      let rest = λ (g' : Guard). list_loop fuel (suc i) seen g' in
      let stop = λ (e : Option (ListError E)).
        let r : Listing T E = record { visited = seen; requests = suc i; error = e } in r in
      elim (server i).fault [
        | some e ↦ some (done (stop (some (fetch e))))
        | none ↦
            if text_eq (server i).token []
            then some (done (stop none))
            else check (next g (server i).token) (λ e. stop (some e)) rest
      ]

  unfoldable pub list_pages : Text → ℕ → ℕ → Option (Run (Listing T E))
  list_pages label pages_max fuel = elim (new label pages_max) [
    | done g ↦ list_loop fuel 0 [] g
    | panic ↦ some panic
  ]

  -- The items of the first `n` pages.
  abbrev pub first_pages : ℕ → List T
  first_pages zero = []
  first_pages (suc n) = first_pages n ++ (server n).items

  -- The token of the page before, or none.
  abbrev pub token_before : ℕ → Text
  token_before zero = []
  token_before (suc n) = (server n).token

  -- The page `i` leads to another request.
  pub record Continues (i : ℕ) : Type ℓ where
    pub no_fault : (server i).fault ≡ none
    pub token_given : (server i).token ≢ []
    pub token_new : (server i).token ≢ token_before i

  -- The page `i` ends a listing of at most `pages_max` pages with this error.
  abbrev pub EndsWith : ℕ → ℕ → Option (ListError E) → Type ℓ
  EndsWith pages_max i none = ((server i).fault ≡ none) × ((server i).token ≡ [])
  EndsWith pages_max i (some (fetch e)) = (server i).fault ≡ some e
  EndsWith pages_max i (some (guarded (page_limit label n))) =
      ((server i).fault ≡ none) × ((server i).token ≢ []) × (suc i ≡ pages_max)
  EndsWith pages_max i (some (guarded (token_repeated label n))) =
      ((server i).fault ≡ none) × ((server i).token ≢ []) × ((server i).token ≡ token_before i)

  pub record IsDrained (pages_max : ℕ) (r : Listing T E) : Type ℓ where
    pub last : ℕ
    pub requested : r.requests ≡ suc last
    pub bounded : r.requests ≤ pages_max
    pub all_visited : r.visited ≡ first_pages (suc last)
    pub continued : (j : ℕ) → j < last → Continues j
    pub ended : EndsWith pages_max last r.error
