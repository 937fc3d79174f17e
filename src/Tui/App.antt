-- ===== src/Tui/App.antt =====
-- internal/tui/app.go: what CorkscrewApp.Update does to the router and the path. The messages of
-- `other_msg`, such as keys, ticks and the progress of a scan, change neither before they go on to
-- the router; the commands that Update itself adds for them are left out.
pub mod Navigation
use corkscrew.Prelude.{
  ℕ, Bool, true, false, Option, none, some, List, [], ◌∷◌, ◌++◌, Text, Run, done, ◌>>=◌,
  if◌then◌else◌,
}
use corkscrew.Prelude.Int.{ℤ, pos, int_lt}
use corkscrew.Tui.Types.{
  ViewType, Payload, Msg, switch_view_msg, back_msg, window_size_msg, quit_msg, other_msg, Cmd,
  quit_cmd, Views,
}
use corkscrew.Tui.Router.{ViewRouter, switch_view, go_back, resize, update}
use corkscrew.Tui.Breadcrumb.{BreadcrumbItem, navigate_to_view, get_view_label}

pub record CorkscrewApp (V P : Type 0) : Type 0 where
  pub router : ViewRouter V P
  pub breadcrumb : List BreadcrumbItem

-- `if cmd != nil { cmds = append(cmds, cmd) }`
abbrev pub append_cmd : {C : Type 0} → List (Cmd C) → Option (Cmd C) → List (Cmd C)
append_cmd cmds none = cmds
append_cmd cmds (some c) = cmds ++ c ∷ []

-- styles.MinWidth and styles.MinHeight
abbrev pub min_width : ℤ
min_width = pos 80

abbrev pub min_height : ℤ
min_height = pos 24

abbrev pub at_least : ℤ → ℤ → ℤ
at_least least n = if int_lt n least then least else n

module _ {V P C M : Type 0} (ops : Views V P C M) where
  abbrev pub Handled : Type 0
  Handled = CorkscrewApp V P × List (Cmd C)

  unfoldable pub handle_view_switch : ViewType → Option Payload → CorkscrewApp V P → Run Handled
  handle_view_switch t payload app = do
    let crumbs = navigate_to_view t (get_view_label t) payload app.breadcrumb
    switched ← switch_view ops t payload app.router
    done (record { router = switched.0; breadcrumb = crumbs }, append_cmd [] switched.1)

  unfoldable pub update_breadcrumb : CorkscrewApp V P → CorkscrewApp V P
  update_breadcrumb app =
      let t = app.router.current_view in
      record app { breadcrumb = navigate_to_view t (get_view_label t) none app.breadcrumb }

  -- handleWindowSize, as far as it concerns the router.
  unfoldable pub handle_window_size : ℤ → ℤ → ViewRouter V P → ViewRouter V P
  handle_window_size width height r =
      resize ops (at_least min_width width) (at_least min_height height) r

  -- The switch over the message.
  unfoldable pub handle : Msg M → CorkscrewApp V P → Run Handled
  unfolding handle_view_switch update_breadcrumb handle_window_size
  handle (switch_view_msg t payload) app = handle_view_switch t payload app
  handle back_msg app = do
    router ← go_back ops app.router
    done (update_breadcrumb (record app { router = router }), [])
  handle (window_size_msg width height) app =
      done (record app { router = handle_window_size width height app.router }, [])
  handle quit_msg app = done (app, quit_cmd ∷ [])
  handle (other_msg m) app = done (app, [])

  -- The end of Update: the router gets the message too.
  unfoldable pub route : Msg M → Handled → Run Handled
  route msg handled = do
    routed ← update ops msg handled.0.router
    done (record (handled.0) { router = routed.0 }, append_cmd handled.1 routed.1)

  -- Update: QuitMsg returns at once.
  unfoldable pub update_app : Msg M → CorkscrewApp V P → Run Handled
  unfolding handle route
  update_app quit_msg app = handle quit_msg app
  update_app msg app = do handled ← handle msg app; route msg handled
