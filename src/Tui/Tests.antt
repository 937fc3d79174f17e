-- ===== src/Tui/Tests.antt =====
-- Tests for internal/tui.
use corkscrew.Prelude.{
  ℕ, ◌+◌, ◌≡◌, refl, arith, true, Option, none, some, List, [], ◌∷◌, codes, done,
}
use corkscrew.Prelude.Int.{pos}
use corkscrew.Tui.Types.{
  ViewType, view_main, view_scan, view_results, view_other, text, Msg, switch_view_msg, back_msg,
  other_msg, Cmd, Views,
}
use corkscrew.Tui.Router.{ViewRouter, new_view_router, switch_view, go_back, is_view_available}
use corkscrew.Tui.Router.Table.{IsRouted}
use corkscrew.Tui.Router.Keeps.{updates, updates-IsRouted, new_view_router-IsRouted}
use corkscrew.Tui.Router.Back.{IsUndone, switch_view-go_back}
use corkscrew.Tui.Breadcrumb.{BreadcrumbItem, activate, navigate_to_view, add_crumb, pop_crumb}
use corkscrew.Tui.Breadcrumb.Trail.{IsNavigated, navigate-IsNavigated}
use corkscrew.Tui.Breadcrumb.Pop.{pop_crumb-add_crumb}
use corkscrew.Tui.App.{CorkscrewApp, update_app}
use corkscrew.Tui.App.Navigation.{
  IsSwitched, update_app-IsSwitched, IsTwoBack, update_app-IsTwoBack,
}

-- Views that count the messages they get.
abbrev counters : Views ℕ ℕ ℕ ℕ
counters = record {
  new_view = λ t. 0;
  inject = λ p v. v;
  set_mode = λ s v. v;
  init = λ v. (v, none);
  update = λ m v. (v + 1, some v);
  focus = λ v. v;
  blur = λ v. v;
  resize = λ w h v. v;
}

abbrev some_session : List (Msg ℕ)
some_session =
    switch_view_msg view_scan none
    ∷ switch_view_msg (view_other 5) none
    ∷ other_msg 1
    ∷ back_msg
    ∷ []

updates-IsRouted_example :
    (r : ViewRouter ℕ ℕ) × (updates counters some_session (new_view_router counters 0) ≡ done r)
    × IsRouted r
updates-IsRouted_example = updates-IsRouted counters 0 some_session

switch_view-go_back_example :
    (moved : ViewRouter ℕ ℕ) × (c : Option (Cmd ℕ)) × (back : ViewRouter ℕ ℕ) × (switch_view
        counters view_scan
        (some (text (codes "quick")))
        (new_view_router counters 0)
      ≡ done (moved, c))
    × (go_back counters moved ≡ done back)
    × IsUndone view_scan (new_view_router counters 0) moved back
unfolding new_view_router is_view_available
switch_view-go_back_example =
    switch_view-go_back counters view_scan (some (text (codes "quick")))
      (new_view_router counters 0) (new_view_router-IsRouted counters 0) refl (λ e. cc)

abbrev crumb : ViewType → BreadcrumbItem
crumb t = record { label = codes "x"; view_type = t; active = true; payload = none }

abbrev some_app : CorkscrewApp ℕ ℕ
some_app = record {
  router = record {
    current_view = view_results;
    views = λ t. some 0;
    history = view_main ∷ view_scan ∷ [];
    dependencies = 0;
    width = pos 80;
    height = pos 24;
  };
  breadcrumb = crumb view_main ∷ [];
}

some_app-IsRouted : IsRouted (some_app.router)
some_app-IsRouted = record {
  current = (0, refl);
  history = ((0, refl), ((0, refl), tt));
  bounded = omega arith;
}

update_app-IsSwitched_example :
    (app : CorkscrewApp ℕ ℕ) × (cmds : List (Cmd ℕ)) × (update_app counters
        (switch_view_msg view_scan none)
        some_app
      ≡ done (app, cmds))
    × IsSwitched counters some_app view_scan app
unfolding is_view_available
update_app-IsSwitched_example =
    update_app-IsSwitched counters some_app view_scan none some_app-IsRouted (tt, tt) refl (λ e. cc)

update_app-IsTwoBack_example :
    (app : CorkscrewApp ℕ ℕ) × (cmds : List (Cmd ℕ)) × (update_app counters back_msg some_app
      ≡ done (app, cmds))
    × IsTwoBack counters some_app [] view_main view_scan app
update_app-IsTwoBack_example =
    update_app-IsTwoBack counters some_app [] view_main view_scan some_app-IsRouted (tt, tt) refl

navigate-IsNavigated_example :
    IsNavigated view_scan
      (crumb view_main ∷ [])
      (navigate_to_view view_scan (codes "Scan") none (crumb view_main ∷ []))
navigate-IsNavigated_example =
    navigate-IsNavigated view_scan (codes "Scan") none (crumb view_main ∷ []) (tt, tt)

pop_crumb-add_crumb_example :
    pop_crumb (add_crumb (crumb view_scan) (crumb view_main ∷ []))
    ≡ (some (activate (crumb view_scan)), crumb view_main ∷ [])
pop_crumb-add_crumb_example = pop_crumb-add_crumb (crumb view_scan) (crumb view_main ∷ []) refl
