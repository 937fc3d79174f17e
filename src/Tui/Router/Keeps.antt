-- ===== src/Tui/Router/Keeps.antt =====
-- internal/tui/router.go: the router always has a view to show.
use corkscrew.Prelude.{
  ◌≡◌, refl, ap, inl, inr, Option, none, List, [], ◌∷◌, arith, All-map, Run, done, ◌>>=◌,
}
use corkscrew.Prelude.Int.{ℤ}
use corkscrew.Tui.Types.{
  ViewType, view_main, Msg, switch_view_msg, back_msg, window_size_msg, quit_msg, other_msg, Cmd,
  Views,
}
use corkscrew.Tui.Router.{
  ViewRouter, split_last, new_view_router, go_back, resize, delegate, update,
}
use corkscrew.Tui.Router.Table.{Exists, IsRouted, snoc-cases, put-Exists, put_self-Exists}
use corkscrew.Tui.Router.Moves.{switch_view-IsRouted, go_back-IsBack}

module _ {V P C M : Type 0} (ops : Views V P C M) where
  go_back-IsRouted :
      (r : ViewRouter V P)
      → IsRouted r
      → (r' : ViewRouter V P) × (go_back ops r ≡ done r') × IsRouted r'
  unfolding go_back
  go_back-IsRouted r h = elim (snoc-cases r.history) [
    | inl e ↦
        let empty : split_last r.history ≡ none = ap split_last e in (r, rw (empty, go_back), h)
    | inr (rest, a, e) ↦ let (r', ran, b) = go_back-IsBack ops r rest a h e in (r', ran, b.routed)
  ]

  resize-IsRouted :
      (width height : ℤ) (r : ViewRouter V P) → IsRouted r → IsRouted (resize ops width height r)
  unfolding resize
  resize-IsRouted width height r h =
      let kept : (t : ViewType) → Exists r.views t → Exists (resize ops width height r).views t =
        λ t x. (ops.resize width height x.0, rw (x.1)) in
      record {
        current = kept r.current_view h.current;
        history = All-map (Exists r.views) _ kept r.history h.history;
        bounded = h.bounded;
      }

  delegate-IsRouted :
      (msg : Msg M) (r : ViewRouter V P) → IsRouted r → IsRouted (delegate ops msg r).0
  unfolding delegate
  delegate-IsRouted msg r h =
      let (v, shown) = h.current in
      let v' = (ops.update msg v).0 in
      rw (shown, delegate)
        (record {
          current = put_self-Exists r.current_view v' r.views;
          history =
              All-map (Exists r.views) _ (λ t x. put-Exists r.current_view t v' r.views x) r.history
                h.history;
          bounded = h.bounded;
        })

  pub update-IsRouted :
      (msg : Msg M) (r : ViewRouter V P)
      → IsRouted r
      → (r' : ViewRouter V P) × (c : Option (Cmd C)) × (update ops msg r ≡ done (r', c))
        × IsRouted r'
  unfolding update
  update-IsRouted (switch_view_msg t payload) r h = switch_view-IsRouted ops t payload r h
  update-IsRouted back_msg r h = let (r', ran, k) = go_back-IsRouted r h in (r', none, rw ran, k)
  update-IsRouted (window_size_msg width height) r h = (
    _,
    _,
    refl,
    delegate-IsRouted (window_size_msg width height) (resize ops width height r)
        (resize-IsRouted width height r h),
  )
  update-IsRouted quit_msg r h = (_, _, refl, delegate-IsRouted quit_msg r h)
  update-IsRouted (other_msg m) r h = (_, _, refl, delegate-IsRouted (other_msg m) r h)

  pub new_view_router-IsRouted : (p : P) → IsRouted (new_view_router ops p)
  unfolding new_view_router
  new_view_router-IsRouted p = record {
    current = (ops.new_view view_main, refl);
    history = tt;
    bounded = omega arith;
  }

  -- A session: the messages, one after the other.
  abbrev pub updates : List (Msg M) → ViewRouter V P → Run (ViewRouter V P)
  updates [] r = done r
  updates (m ∷ ms) r = update ops m r >>= λ u. updates ms u.0

  updates_from :
      (ms : List (Msg M)) (r : ViewRouter V P)
      → IsRouted r
      → (r' : ViewRouter V P) × (updates ms r ≡ done r') × IsRouted r'
  updates_from [] r h = (r, refl, h)
  updates_from (m ∷ ms) r h =
      let (r', c, ran, k) = update-IsRouted m r h in
      let (r'', rest, l) = updates_from ms r' k in (r'', rw (ran, updates) rest, l)

  -- Whatever messages a new router gets and whatever its views do with them, no assertion fails,
  -- and afterwards the view shown and every view of the history have an instance and the history
  -- has at most 32 entries.
  pub updates-IsRouted :
      (p : P) (ms : List (Msg M))
      → (r : ViewRouter V P) × (updates ms (new_view_router ops p) ≡ done r) × IsRouted r
  updates-IsRouted p ms = updates_from ms (new_view_router ops p) (new_view_router-IsRouted p)
