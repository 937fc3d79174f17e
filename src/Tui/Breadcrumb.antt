-- ===== src/Tui/Breadcrumb.antt =====
-- internal/tui/components/breadcrumb.go: the path of breadcrumbs. Rendering, with its separator,
-- width and icons, is left out.
pub mod Trail
pub mod Pop
use corkscrew.Prelude.{
  ℕ, zero, suc, Bool, true, false, Option, none, some, List, [], ◌∷◌, ◌++◌, Text, codes, map, take,
  get_elem?, set, length, ltb, if◌then◌else◌,
}
use corkscrew.Prelude.Int.{ℤ, pos, negsuc}
use corkscrew.Tui.Types.{
  ViewType, view_main, view_scan, view_results, view_config, view_diagrams, view_compliance,
  view_query, view_other, view_eq, Payload,
}

pub record BreadcrumbItem : Type 0 where
  pub label : Text
  pub view_type : ViewType
  pub active : Bool
  pub payload : Option Payload

abbrev pub deactivate : BreadcrumbItem → BreadcrumbItem
deactivate c = record c { active = false }

abbrev pub activate : BreadcrumbItem → BreadcrumbItem
activate c = record c { active = true }

unfoldable pub add_crumb : BreadcrumbItem → List BreadcrumbItem → List BreadcrumbItem
add_crumb item path = map deactivate path ++ activate item ∷ []

-- The path without its last crumb, and that crumb.
abbrev pub split_last : List BreadcrumbItem → Option (List BreadcrumbItem × BreadcrumbItem)
split_last [] = none
split_last (c ∷ []) = some ([], c)
split_last (c ∷ d ∷ cs) = elim (split_last (d ∷ cs)) [ none ↦ none | some (l, a) ↦ some (c ∷ l, a) ]

-- m.path[len(m.path)-1].Active = true, if there is one
abbrev pub activate_last : List BreadcrumbItem → List BreadcrumbItem
activate_last [] = []
activate_last (c ∷ []) = activate c ∷ []
activate_last (c ∷ d ∷ cs) = c ∷ activate_last (d ∷ cs)

unfoldable pub pop_crumb : List BreadcrumbItem → Option BreadcrumbItem × List BreadcrumbItem
pop_crumb path = elim (split_last path) [
  | none ↦ (none, path)
  | some (rest, last) ↦ (some last, activate_last rest)
]

-- m.path[index].Active = true
abbrev pub activate_at : ℕ → List BreadcrumbItem → List BreadcrumbItem
activate_at i [] = []
activate_at zero (c ∷ cs) = activate c ∷ cs
activate_at (suc i) (c ∷ cs) = c ∷ activate_at i cs

unfoldable pub set_active_crumb : ℤ → List BreadcrumbItem → List BreadcrumbItem
set_active_crumb (negsuc n) path = path
set_active_crumb (pos index) path =
    if ltb index (length path) then activate_at index (map deactivate path) else path

-- The index of the first crumb of a view.
abbrev pub index_of : ViewType → List BreadcrumbItem → Option ℕ
index_of t [] = none
index_of t (c ∷ cs) =
    if view_eq c.view_type t
    then some 0
    else elim (index_of t cs) [ none ↦ none | some i ↦ some (suc i) ]

unfoldable pub navigate_to_view :
    ViewType → Text → Option Payload → List BreadcrumbItem → List BreadcrumbItem
unfolding add_crumb set_active_crumb
navigate_to_view t label payload path = elim (index_of t path) [
  | some i ↦ set_active_crumb (pos i) (take (suc i) path)
  | none ↦
      add_crumb (record { label = label; view_type = t; active = true; payload = payload }) path
]

-- GetCurrentCrumb: the last crumb that is active.
unfoldable pub get_current_crumb : List BreadcrumbItem → Option BreadcrumbItem
get_current_crumb [] = none
get_current_crumb (c ∷ cs) = elim (get_current_crumb cs) [
  | some d ↦ some d
  | none ↦ if c.active then some c else none
]

unfoldable pub get_view_label : ViewType → Text
get_view_label view_main = codes "Home"
get_view_label view_scan = codes "Scan"
get_view_label view_results = codes "Results"
get_view_label view_config = codes "Configuration"
get_view_label view_diagrams = codes "Diagrams"
get_view_label view_compliance = codes "Compliance"
get_view_label view_query = codes "Query"
get_view_label (view_other n) = codes "Unknown"
