-- ===== src/Paging/Drain.antt =====
-- plugins/gcp-provider/paging.go: what listPages returns against an arbitrary server.
use corkscrew.Prelude.{
  ℕ, zero, suc, ◌+◌, ◌≤◌, ◌<◌, ◌≡◌, ◌≢◌, refl, sym, ap, ◌∙◌, inl, inr, Option, none, some, List, [],
  ◌++◌, arith, Text, text_eq, text_eq_iff, Run, done, Bool-cases, Option-cases, lt→ltb,
}
use corkscrew.Paging.Guard.{Guard, page_limit, token_repeated, new, next_cases}
use corkscrew.Paging.ListPages.{
  Reply, Listing, ListError, fetch, guarded, list_loop, list_pages, first_pages, token_before,
  Continues, EndsWith, IsDrained,
}

module _ {T E : Type 0} (server : ℕ → Reply T E) (m : ℕ) where
  -- What holds before the request with number `i`.
  record Before (i : ℕ) (visited : List T) (g : Guard) : Type 0 where
    in_step : g.pages ≡ i
    same_max : g.pages_max ≡ m
    previous : g.token_previous ≡ token_before server i
    visited_so_far : visited ≡ first_pages server i
    continued : (j : ℕ) → j < i → Continues server j

  Before-next :
      {i : ℕ} {visited : List T} {g : Guard}
      → Before i visited g
      → Continues server i
      → Before
          (suc i)
          (visited ++ (server i).items)
          (record g { pages = g.pages + 1; token_previous = (server i).token })
  Before-next {i} b c = record {
    in_step = omega (arith, b.in_step);
    same_max = b.same_max;
    previous = refl;
    visited_so_far = ap (λ l. l ++ (server i).items) b.visited_so_far;
    continued = λ j h. grind (arith, b.continued j, c);
  }

  IsDrained-stop :
      {i : ℕ} {visited : List T} {g : Guard} (e : Option (ListError E))
      → Before i visited g
      → i < m
      → EndsWith server m i e
      → IsDrained server m
          (record { visited = visited ++ (server i).items; requests = suc i; error = e })
  IsDrained-stop {i} e b h ends = record {
    last = i;
    requested = refl;
    bounded = h;
    all_visited = ap (λ l. l ++ (server i).items) b.visited_so_far;
    continued = b.continued;
    ended = ends;
  }

  abbrev Drains : Option (Run (Listing T E)) → Type 0
  Drains o = (r : Listing T E) × (o ≡ some (done r)) × IsDrained server m r

  list_loop-Drains :
      (fuel i : ℕ) (visited : List T) (g : Guard)
      → m ≤ fuel + i
      → i < m
      → Before i visited g
      → Drains (list_loop server fuel i visited g)
  unfolding list_loop
  list_loop-Drains zero i visited g f h b = absurd (omega arith)
  list_loop-Drains (suc fuel) i visited g f h b = elim (Option-cases (server i).fault) [
    | inr (e, fault) ↦ (_, rw (fault, list_loop), IsDrained-stop (some (fetch e)) b h fault)
    | inl ok ↦ elim (Bool-cases (text_eq (server i).token [])) [
      | inl last ↦
          (_, rw (ok, last, list_loop), IsDrained-stop none b h (ok, (text_eq_iff _ _).0 last))
      | inr more ↦
          rw (ok, more, list_loop)
            (let given : (server i).token ≢ [] = ground (arith, text_eq_iff (server i).token []) in
              elim (next_cases g (server i).token given (omega (arith, b.in_step, b.same_max))) [
                | inl (at_max, e) ↦ (
                  _,
                  rw e,
                  IsDrained-stop (some (guarded (page_limit g.label g.pages_max))) b h
                      (ok, given, omega (arith, b.in_step, b.same_max)),
                )
                | inr (inl (room, same, e)) ↦ (
                  _,
                  rw e,
                  IsDrained-stop (some (guarded (token_repeated g.label (g.pages + 1)))) b h
                      (ok, given, same ∙ b.previous),
                )
                | inr (inr (room, new_token, e)) ↦ rw e (
                    list_loop-Drains fuel (suc i) _ _ (omega arith)
                      (omega (arith, b.in_step, b.same_max))
                      (Before-next b (record {
                        no_fault = ok;
                        token_given = given;
                        token_new = λ same. new_token (same ∙ sym b.previous);
                      })))
              ])
    ]
  ]

  -- A listing with room for at least one page ends within its page limit whatever the server
  -- answers, and no assertion of the guard fails on the way. It visits exactly the items of the
  -- pages that it requested, in order; each of these but the last came without an error and with
  -- a token that is neither empty nor the token before. It returns no error only after a page
  -- without error and without token, a fetch error only if the last page brought it, the page
  -- limit only after `pages_max` pages, and a repeated token only for the token before.
  pub list_pages-Drains :
      (label : Text)
      → 0 < m
      → (r : Listing T E) × (list_pages server label m m ≡ some (done r)) × IsDrained server m r
  unfolding list_pages new
  list_pages-Drains label pos =
      rw (lt→ltb 0 m pos, list_pages, new)
        (list_loop-Drains m 0 [] _ (omega arith) pos (record {
          in_step = refl;
          same_max = refl;
          previous = refl;
          visited_so_far = refl;
          continued = λ j h. absurd (omega arith);
        }))
