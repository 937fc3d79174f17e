-- ===== src/Cloudflare/Collect/Stops.antt =====
-- plugins/cloudflare-provider/traversal.go: collectAutoPaging stops, and what it has listed then.
use corkscrew.Prelude.{
  ℕ, zero, suc, ◌+◌, ◌≤◌, ◌<◌, ◌≡◌, refl, sym, ap, ◌∙◌, inl, inr, Bool, true, false, ◌||◌, Option,
  none, some, List, [], ◌∷◌, ◌++◌, Text, text_eq, text_eq_iff, length, length-append, leb, ltb,
  if◌then◌else◌, arith, Bool-cases, Option-cases,
}
use corkscrew.Cloudflare.Collect.{
  repeat_complete_items_max, ListError, item_cap, repeated, is_seen, Pager, Listed, pager_end,
  collect_loop, collect_auto_paging,
}

module _ {A : Type 0} (item_key : A → Option Text) (items_max : ℕ) (pager : Pager A) where
  -- The first items served, all of them.
  abbrev pub Serves : ℕ → List A → Type 0
  Serves i [] = Unit
  Serves i (x ∷ xs) = (pager.serve i ≡ some x) × Serves (suc i) xs

  -- Some item has the key.
  abbrev pub has_key : Text → List A → Bool
  has_key k [] = false
  has_key k (x ∷ xs) = elim (item_key x) [ none ↦ false | some j ↦ text_eq j k ] || has_key k xs

  -- No two items have one key.
  abbrev pub Distinct : List A → Type 0
  Distinct [] = Unit
  Distinct (x ∷ xs) = ((k : Text) → item_key x ≡ some k → has_key k xs ≡ false) × Distinct xs

  -- Why the loop stopped after `items`.
  pub data Stopped (items : List A) : Option ListError → Type 0 where
    at_end :
        {e : Option ListError}
        → pager.serve (length items) ≡ none
        → e ≡ pager_end pager.err
        → Stopped items e
    at_cap :
        {e : Option ListError} (x : A)
        → pager.serve (length items) ≡ some x
        → items_max ≤ length items
        → e ≡ some item_cap
        → Stopped items e
    at_repeat :
        {e : Option ListError} (x : A) (k : Text)
        → pager.serve (length items) ≡ some x
        → item_key x ≡ some k
        → has_key k items ≡ true
        → e ≡ (if ltb (length items) repeat_complete_items_max then none else some repeated)
        → Stopped items e

  pub record IsListed (r : Listed A) : Type 0 where
    pub served : Serves 0 r.items
    pub distinct : Distinct r.items
    pub bounded : length r.items ≤ items_max
    pub stopped : Stopped r.items r.error

  Serves-append :
      (i : ℕ) (xs : List A) (x : A)
      → Serves i xs
      → pager.serve (i + length xs) ≡ some x
      → Serves i (xs ++ x ∷ [])
  Serves-append i [] x h e = (ap pager.serve (omega arith) ∙ e, tt)
  Serves-append i (y ∷ xs) x h e =
      (h.0, Serves-append (suc i) xs x h.1 (ap pager.serve (omega arith) ∙ e))

  has_key-append :
      (k : Text) (xs : List A) (x : A)
      → has_key k (xs ++ x ∷ []) ≡ (has_key k xs || has_key k (x ∷ []))
  has_key-append k [] x = refl
  has_key-append k (y ∷ xs) x = ground (arith, has_key-append k xs x)

  Distinct-append :
      (xs : List A) (x : A)
      → Distinct xs
      → ((k : Text) → item_key x ≡ some k → has_key k xs ≡ false)
      → Distinct (xs ++ x ∷ [])
  Distinct-append [] x d new = ((λ k e. refl), tt)
  Distinct-append (y ∷ xs) x d new = (
    λ k e. has_key-append k xs x ∙ differs k e,
    Distinct-append xs x d.1 (λ k e. ground (arith, new k e)),
  )
    where
      differs : (k : Text) → item_key y ≡ some k → (has_key k xs || has_key k (x ∷ [])) ≡ false
      differs k e = elim (Option-cases (item_key x)) [
        | inl unkeyed ↦ ground (arith, unkeyed, d.0 k e)
        | inr (j, keyed) ↦
            ground (arith, keyed, e, d.0 k e, new j keyed, text_eq_iff j k, text_eq_iff k j)
      ]

  -- The loop so far.
  record IsGoing (results : List A) (seen : List Text) : Type 0 where
    served : Serves 0 results
    distinct : Distinct results
    bounded : length results ≤ items_max
    same_keys : (k : Text) → is_seen k seen ≡ has_key k results

  -- One more item, with a key that is new or without one.
  IsGoing-append :
      (results : List A) (seen seen' : List Text) (x : A)
      → IsGoing results seen
      → pager.serve (length results) ≡ some x
      → leb items_max (length results) ≡ false
      → ((k : Text) → item_key x ≡ some k → has_key k results ≡ false)
      → ((k : Text) → is_seen k seen' ≡ (has_key k results || has_key k (x ∷ [])))
      → IsGoing (results ++ x ∷ []) seen'
  IsGoing-append results seen seen' x h e small new keys = record {
    served = Serves-append 0 results x h.served (ap pager.serve (omega arith) ∙ e);
    distinct = Distinct-append results x h.distinct new;
    bounded = ground (arith, length-append results (x ∷ []));
    same_keys = λ k. keys k ∙ sym (has_key-append k results x);
  }

  added :
      (j k : Text) (x : A) (seen : List Text) (results : List A)
      → item_key x ≡ some k
      → is_seen j seen ≡ has_key j results
      → is_seen j (k ∷ seen) ≡ (has_key j results || has_key j (x ∷ []))
  unfolding is_seen
  added j k x seen results keyed e = ground (arith, keyed, e)

  listed :
      (results : List A) (e : Option ListError) {seen : List Text}
      → IsGoing results seen
      → Stopped results e
      → (r : Listed A) × (some (record { items = results; error = e }) ≡ some r) × IsListed r
  listed results e h stopped = (
    record { items = results; error = e },
    refl,
    record { served = h.served; distinct = h.distinct; bounded = h.bounded; stopped = stopped },
  )

  collect_loop-IsListed :
      (fuel : ℕ) (results : List A) (seen : List Text)
      → IsGoing results seen
      → items_max < fuel + length results
      → (r : Listed A) × (collect_loop item_key items_max pager fuel (length results) results seen
          ≡ some r)
        × IsListed r
  unfolding collect_loop
  collect_loop-IsListed zero results seen h b = absurd (omega (arith, h.bounded))
  collect_loop-IsListed (suc fuel) results seen h b =
      elim (Option-cases (pager.serve (length results))) [
        | inl ended ↦ rw (ended, collect_loop) (listed results _ h (at_end ended refl))
        | inr (x, served) ↦ elim (Bool-cases (leb items_max (length results))) [
          | inl full ↦
              rw (served, collect_loop)
                (rw full (listed results _ h (at_cap x served (ground (arith, full)) refl)))
          | inr small ↦
              let next : suc (length results) ≡ length (results ++ x ∷ []) =
                omega (arith, length-append results (x ∷ [])) in
              let enough : items_max < fuel + length (results ++ x ∷ []) =
                omega (arith, length-append results (x ∷ [])) in
              elim (Option-cases (item_key x)) [
                | inl unkeyed ↦
                    rw (served, collect_loop)
                      (rw small (
                        rw (unkeyed, next)
                          (collect_loop-IsListed fuel (results ++ x ∷ []) seen
                            (IsGoing-append results seen seen x h served small (λ k e. cc)
                              (λ k. ground (arith, h.same_keys k, unkeyed)))
                            enough)))
                | inr (k, keyed) ↦ elim (Bool-cases (is_seen k seen)) [
                  | inl again ↦
                      rw (served, collect_loop)
                        (rw small (
                          rw (keyed, again)
                            (listed results _ h
                              (at_repeat x k served keyed (sym (h.same_keys k) ∙ again) refl))))
                  | inr new ↦
                      rw (served, collect_loop)
                        (rw small (
                          rw (keyed, new)
                            (rw next (
                              collect_loop-IsListed fuel (results ++ x ∷ []) (k ∷ seen)
                                (IsGoing-append results seen (k ∷ seen) x h served small
                                  (λ j e. ground (arith, e, keyed, new, h.same_keys k))
                                  (λ j. added j k x seen results keyed (h.same_keys j)))
                                enough))))
                ]
              ]
        ]
      ]

  -- Whatever the pager serves, for ever or not: collectAutoPaging ends after at most one call of
  -- Next more than the cap. It returns the first items served, all of them in order, no two with
  -- one key and no more than the cap; and it stops exactly where the pager has ended, with the
  -- pager's error, at the cap, with its error, or at an item that repeats a key, with an error
  -- unless there are fewer than a page of items.
  pub collect-IsListed :
      (r : Listed A) × (collect_auto_paging item_key items_max pager ≡ some r) × IsListed r
  unfolding collect_auto_paging is_seen
  collect-IsListed =
      collect_loop-IsListed (suc items_max) [] []
        (record { served = tt; distinct = tt; bounded = omega arith; same_keys = λ k. refl })
        (omega arith)
