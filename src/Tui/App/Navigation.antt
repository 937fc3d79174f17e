-- ===== src/Tui/App/Navigation.antt =====
-- internal/tui/app.go: where the messages of navigation lead.
use corkscrew.Prelude.{
  ◌≡◌, ◌≢◌, sym, ◌∙◌, inl, inr, true, false, Option, none, some, List, [], ◌∷◌, ◌++◌, append_assoc,
  arith, done,
}
use corkscrew.Tui.Types.{ViewType, view_eq, Payload, switch_view_msg, back_msg, Cmd, Views}
use corkscrew.Tui.Router.{
  ViewRouter, is_view_available, push_history, push_unless_same, switch_view, update,
}
use corkscrew.Tui.Router.Table.{view_eq_iff, IsRouted}
use corkscrew.Tui.Router.Moves.{ensure_view-cases, IsMoved, switch_view-IsMoved, go_back-IsBack}
use corkscrew.Tui.Router.Back.{kept_history, pushed_history}
use corkscrew.Tui.Breadcrumb.{BreadcrumbItem, get_current_crumb, navigate_to_view, get_view_label}
use corkscrew.Tui.Breadcrumb.Trail.{AreDistinct, views_of, navigate-IsNavigated}
use corkscrew.Tui.App.{
  CorkscrewApp, append_cmd, handle_view_switch, update_breadcrumb, handle, route, update_app,
}

-- The crumb of this view is the current one.
abbrev pub Shows : {V P : Type 0} → CorkscrewApp V P → ViewType → Type 0
Shows app t = (c : BreadcrumbItem) × (get_current_crumb app.breadcrumb ≡ some c) × (c.view_type ≡ t)

module _ {V P C M : Type 0} (ops : Views V P C M) (app : CorkscrewApp V P) where
  available-IsMoved :
      (t : ViewType) (payload : Option Payload) (r : ViewRouter V P)
      → IsRouted r
      → is_view_available t ≡ true
      → (r' : ViewRouter V P) × (c : Option (Cmd C)) × (switch_view ops t payload r ≡ done (r', c))
        × IsMoved ops t r r'
  available-IsMoved t payload r h available = elim (ensure_view-cases ops t r) [
    | inl (unknown, unavailable) ↦ absurd (cc (available, unavailable))
    | inr (views, e, there, kept) ↦ switch_view-IsMoved ops t payload r views h e there kept
  ]

  -- A message that switches the view: the router shows it, the breadcrumb too, and the view from
  -- before was pushed once.
  pub record IsSwitched (t : ViewType) (app' : CorkscrewApp V P) : Type 0 where
    pub routed : IsRouted app'.router
    pub shown : app'.router.current_view ≡ t
    pub history :
        app'.router.history ≡ kept_history app.router.history ++ app.router.current_view ∷ []
    pub crumb : Shows app' t

  -- From a router whose views have instances and whose history is within its bound, and crumbs of
  -- distinct views: although a message that switches to another available view reaches the router
  -- twice, afterwards the router shows the view, the current crumb is that of the view, and the
  -- history is the one from before, without its oldest entry if it was full, and then once the
  -- view from before.
  pub update_app-IsSwitched :
      (t : ViewType) (payload : Option Payload)
      → IsRouted app.router
      → AreDistinct (views_of app.breadcrumb)
      → is_view_available t ≡ true
      → t ≢ app.router.current_view
      → (app' : CorkscrewApp V P) × (cmds : List (Cmd C)) × (update_app ops
            (switch_view_msg t payload)
            app
          ≡ done (app', cmds))
        × IsSwitched t app'
  unfolding update_app handle route handle_view_switch update
  update_app-IsSwitched t payload h distinct available other =
      let (r, c, ran, m) = available-IsMoved t payload app.router h available in
      let (r', c', ran', m') = available-IsMoved t payload r m.routed available in
      let different : view_eq t app.router.current_view ≡ false =
        ground (arith, view_eq_iff t app.router.current_view) in
      let pushed : push_history app.router.history app.router.current_view ≡ done r.history =
        rw (different, push_unless_same) at m.pushed in
      let same : view_eq t r.current_view ≡ true = (view_eq_iff t r.current_view).1 (sym m.here) in
      let kept : done r.history ≡ done r'.history = rw (same, push_unless_same) at m'.pushed in
      let unchanged : r.history ≡ r'.history = cc in
      let n = navigate-IsNavigated t (get_view_label t) payload app.breadcrumb distinct in
      (
        record {
          router = r';
          breadcrumb = navigate_to_view t (get_view_label t) payload app.breadcrumb;
        },
        append_cmd (append_cmd [] c) c',
        rw (ran, ran'),
        record {
          routed = m'.routed;
          shown = m'.here;
          history =
              sym unchanged
              ∙ pushed_history app.router.history r.history app.router.current_view pushed;
          crumb = n.current;
        },
      )

  -- A message that goes back, with the two last entries of the history.
  pub record IsTwoBack (rest : List ViewType) (a b : ViewType) (app' : CorkscrewApp V P)
      : Type 0 where
    pub routed : IsRouted app'.router
    pub shown : app'.router.current_view ≡ a
    pub history : app'.router.history ≡ rest
    pub crumb : Shows app' b

  -- From a router whose views have instances and whose history is within its bound and ends with
  -- `a` and then `b`, and crumbs of distinct views: the message that goes back reaches the router
  -- twice, so that afterwards it shows `a` and both entries are gone, while the current crumb is
  -- that of `b`.
  pub update_app-IsTwoBack :
      (rest : List ViewType) (a b : ViewType)
      → IsRouted app.router
      → AreDistinct (views_of app.breadcrumb)
      → app.router.history ≡ rest ++ a ∷ b ∷ []
      → (app' : CorkscrewApp V P) × (cmds : List (Cmd C)) × (update_app ops back_msg app
          ≡ done (app', cmds))
        × IsTwoBack rest a b app'
  unfolding update_app handle route update_breadcrumb update
  update_app-IsTwoBack rest a b h distinct e =
      let last : app.router.history ≡ (rest ++ a ∷ []) ++ b ∷ [] =
        e ∙ sym (append_assoc rest (a ∷ []) (b ∷ [])) in
      let (r, ran, back) = go_back-IsBack ops app.router (rest ++ a ∷ []) b h last in
      let (r', ran', back') = go_back-IsBack ops r rest a back.routed back.popped in
      let n =
        navigate-IsNavigated r.current_view (get_view_label r.current_view) none app.breadcrumb
          distinct in
      let (c, current, at) = n.current in
      (
        record {
          router = r';
          breadcrumb =
              navigate_to_view r.current_view (get_view_label r.current_view) none app.breadcrumb;
        },
        [],
        rw (ran, ran'),
        record {
          routed = back'.routed;
          shown = back'.here;
          history = back'.popped;
          crumb = (c, current, at ∙ back.here);
        },
      )
