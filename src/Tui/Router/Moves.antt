-- ===== src/Tui/Router/Moves.antt =====
-- internal/tui/router.go: SwitchView and GoBack.
use corkscrew.Prelude.{
  ◌≤◌, ◌≡◌, ◌⊎◌, ◌∙◌, refl, ap, inl, inr, false, Option, none, some, List, [], ◌∷◌, ◌++◌, arith,
  length, length-append, All, All-append_left, All-append_right, All-map, Bool-cases, Option-cases,
  done,
}
use corkscrew.Tui.Types.{
  ViewType, view_main, view_scan, view_results, view_config, view_diagrams, view_compliance,
  view_query, view_other, view_eq, Payload, Cmd, error_cmd, Views,
}
use corkscrew.Tui.Router.{
  ViewRouter, history_max, split_last, create_view, is_view_available, put, change, ensure_view,
  must_current_view, enter, push_unless_same, switch_view, go_back,
}
use corkscrew.Tui.Router.Table.{
  Exists, IsRouted, split_last-snoc, put-Exists, put_self-Exists, change-Exists, push_history_lem,
}

module _ {V P C M : Type 0} (ops : Views V P C M) where
  must_current_lem :
      (r : ViewRouter V P) (v : V)
      → r.views r.current_view ≡ some v
      → must_current_view ops r ≡ done v
  unfolding must_current_view
  must_current_lem r v e = rw (e, must_current_view)

  create_view-cases :
      (t : ViewType)
      → ((create_view ops t ≡ none) × (is_view_available t ≡ false))
        ⊎ (create_view ops t ≡ some (ops.new_view t))
  unfolding create_view is_view_available
  create_view-cases view_main = inr refl
  create_view-cases view_scan = inr refl
  create_view-cases view_results = inr refl
  create_view-cases view_config = inr refl
  create_view-cases view_diagrams = inr refl
  create_view-cases view_compliance = inr refl
  create_view-cases view_query = inr refl
  create_view-cases (view_other n) = inl (refl, refl)

  -- What SwitchView starts from: the view cannot be created, or it exists with all those before.
  pub ensure_view-cases :
      (t : ViewType) (r : ViewRouter V P)
      → ((ensure_view ops t r ≡ none) × (is_view_available t ≡ false))
        ⊎ ((views : ViewType → Option V) × (ensure_view ops t r ≡ some views)
            × Exists views t
            × ((t' : ViewType) → Exists r.views t' → Exists views t'))
  unfolding ensure_view
  ensure_view-cases t r = elim (Option-cases (r.views t)) [
    | inr (v, there) ↦ inr (r.views, rw (there, ensure_view), (v, there), λ t' h. h)
    | inl missing ↦ elim (create_view-cases t) [
      | inl (unknown, unavailable) ↦ inl (rw (missing, unknown, ensure_view), unavailable)
      | inr created ↦
          let v = ops.inject r.dependencies (ops.new_view t) in
          inr (
            put t v r.views,
            rw (missing, created, ensure_view),
            put_self-Exists t v r.views,
            λ t' h. put-Exists t t' v r.views h,
          )
    ]
  ]

  push_unless_same_lem :
      (Q : ViewType → Type 0) (t : ViewType) (r : ViewRouter V P)
      → length r.history ≤ history_max
      → All Q r.history
      → Q r.current_view
      → (l : List ViewType) × (push_unless_same ops t r ≡ done l)
        × (length l ≤ history_max)
        × All Q l
  push_unless_same_lem Q t r b h q = elim (Bool-cases (view_eq t r.current_view)) [
    | inl same ↦ (r.history, rw (same, push_unless_same), b, h)
    | inr other ↦ rw (other, push_unless_same) (push_history_lem Q r.history r.current_view b h q)
  ]

  -- SwitchView to a view that it can create moves there.
  pub record IsMoved (t : ViewType) (r r' : ViewRouter V P) : Type 0 where
    pub routed : IsRouted r'
    pub here : r'.current_view ≡ t
    pub pushed : push_unless_same ops t r ≡ done r'.history

  pub switch_view-IsMoved :
      (t : ViewType) (payload : Option Payload) (r : ViewRouter V P) (views : ViewType → Option V)
      → IsRouted r
      → ensure_view ops t r ≡ some views
      → Exists views t
      → ((t' : ViewType) → Exists r.views t' → Exists views t')
      → (r' : ViewRouter V P) × (c : Option (Cmd C)) × (switch_view ops t payload r ≡ done (r', c))
        × IsMoved t r r'
  unfolding switch_view
  switch_view-IsMoved t payload r views h e there kept =
      let views' = change r.current_view ops.blur views in
      let all_kept : (t' : ViewType) → Exists r.views t' → Exists views' t' =
        λ t' x. change-Exists r.current_view t' ops.blur views (kept t' x) in
      let (v, shown) = change-Exists r.current_view t ops.blur views there in
      let (l, pushed, short, exist) =
        push_unless_same_lem (Exists views') t r h.bounded
          (All-map (Exists r.views) (Exists views') all_kept r.history h.history)
          (all_kept r.current_view h.current) in
      let moved : ViewRouter V P = record r { views = views'; history = l; current_view = t } in
      let entered = enter ops t payload moved v in
      let after : (t' : ViewType) → Exists views' t' → Exists entered.0.views t' =
        λ t' x. put-Exists t t' _ views' x in
      (
        entered.0,
        entered.1,
        rw (e, pushed, must_current_lem moved v shown, switch_view),
        record {
          routed = record {
            current = after t (v, shown);
            history = All-map (Exists views') (Exists entered.0.views) after l exist;
            bounded = short;
          };
          here = refl;
          pushed = pushed;
        },
      )

  pub switch_view-IsRouted :
      (t : ViewType) (payload : Option Payload) (r : ViewRouter V P)
      → IsRouted r
      → (r' : ViewRouter V P) × (c : Option (Cmd C)) × (switch_view ops t payload r ≡ done (r', c))
        × IsRouted r'
  unfolding switch_view
  switch_view-IsRouted t payload r h = elim (ensure_view-cases t r) [
    | inl (unknown, unavailable) ↦ (r, some (error_cmd t), rw (unknown, switch_view), h)
    | inr (views, e, there, kept) ↦
        let (r', c, ran, m) = switch_view-IsMoved t payload r views h e there kept in
        (r', c, ran, m.routed)
  ]

  -- GoBack with a history moves to its last entry.
  pub record IsBack (rest : List ViewType) (a : ViewType) (r' : ViewRouter V P) : Type 0 where
    pub routed : IsRouted r'
    pub here : r'.current_view ≡ a
    pub popped : r'.history ≡ rest

  pub go_back-IsBack :
      (r : ViewRouter V P) (rest : List ViewType) (a : ViewType)
      → IsRouted r
      → r.history ≡ rest ++ a ∷ []
      → (r' : ViewRouter V P) × (go_back ops r ≡ done r') × IsBack rest a r'
  unfolding go_back
  go_back-IsBack r rest a h e =
      let split : split_last r.history ≡ some (rest, a) =
        ap split_last e ∙ split_last-snoc rest a in
      let exist : All (Exists r.views) (rest ++ a ∷ []) = rw e at h.history in
      let (old, shown) = h.current in
      let views = put r.current_view (ops.blur old) r.views in
      let kept : (t' : ViewType) → Exists r.views t' → Exists views t' =
        λ t' x. put-Exists r.current_view t' (ops.blur old) r.views x in
      let (v, there) = kept a (All-append_right (Exists r.views) rest (a ∷ []) exist).0 in
      let moved : ViewRouter V P = record r { views = views; history = rest; current_view = a } in
      let v' = ops.resize r.width r.height (ops.focus v) in
      let after : (t' : ViewType) → Exists r.views t' → Exists (put a v' views) t' =
        λ t' x. put-Exists a t' v' views (kept t' x) in
      (
        record moved { views = put a v' views },
        rw (split, must_current_lem r old shown, must_current_lem moved v there, go_back),
        record {
          routed = record {
            current = put_self-Exists a v' views;
            history =
                All-map (Exists r.views) (Exists (put a v' views)) after rest
                  (All-append_left (Exists r.views) rest (a ∷ []) exist);
            bounded =
                let bound = h.bounded in
                omega (arith, length-append rest (a ∷ []), ap (λ l. length l) e);
          };
          here = refl;
          popped = refl;
        },
      )
