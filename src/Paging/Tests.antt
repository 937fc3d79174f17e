-- ===== src/Paging/Tests.antt =====
-- Tests for internal/shared/paging/paging.go and plugins/gcp-provider/paging.go.
use corkscrew.Prelude.{
  ℕ, zero, suc, ◌≡◌, refl, arith, Option, none, some, [], ◌∷◌, Text, text_eq, codes, done,
}
use corkscrew.Paging.Guard.{
  Guard, PageError, pages_max_default, new, next, advance, IsNext, next-IsNext,
}
use corkscrew.Paging.ListPages.{Reply, Listing, list_pages, list_loop, IsDrained}
use corkscrew.Paging.Drain.{list_pages-Drains}

-- Two pages.
abbrev two_pages : ℕ → Reply ℕ Text
two_pages zero = record { items = 1 ∷ 2 ∷ []; token = codes "t"; fault = none }
two_pages (suc n) = record { items = 3 ∷ []; token = []; fault = none }

abbrev fresh_guard : Guard
fresh_guard = record {
  label = codes "list";
  pages_max = pages_max_default;
  pages = 0;
  token_previous = [];
}

list_two :
    list_pages two_pages (codes "list") 5 5
    ≡ some (done (record { visited = 1 ∷ 2 ∷ 3 ∷ []; requests = 2; error = none }))
unfolding list_pages list_loop new next advance text_eq
list_two = refl

next-IsNext_example :
    (e : Option PageError) × (g : Guard) × (next fresh_guard (codes "t") ≡ done (e, g))
    × IsNext fresh_guard (codes "t") e g
next-IsNext_example = next-IsNext fresh_guard (codes "t") (λ e. cc) (omega arith)

list_pages-Drains_example :
    (r : Listing ℕ Text) × (list_pages two_pages (codes "list") 5 5 ≡ some (done r))
    × IsDrained two_pages 5 r
list_pages-Drains_example = list_pages-Drains two_pages 5 (codes "list") (omega arith)
