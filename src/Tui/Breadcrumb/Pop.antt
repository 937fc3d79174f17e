-- ===== src/Tui/Breadcrumb/Pop.antt =====
-- internal/tui/components/breadcrumb.go: PopCrumb undoes AddCrumb.
use corkscrew.Prelude.{◌≡◌, refl, sym, ap, false, some, List, [], ◌∷◌, ◌++◌, map}
use corkscrew.Tui.Breadcrumb.{
  BreadcrumbItem, deactivate, activate, add_crumb, split_last, activate_last, pop_crumb,
}
use corkscrew.Tui.Breadcrumb.Trail.{IsLastActive}

crumbs-snoc :
    (path : List BreadcrumbItem) (c : BreadcrumbItem) → split_last (path ++ c ∷ []) ≡ some (path, c)
crumbs-snoc [] c = refl
crumbs-snoc (d ∷ []) c = refl
crumbs-snoc (d ∷ e ∷ path) c = rw (crumbs-snoc (e ∷ path) c, split_last)

same_crumb : (c : BreadcrumbItem) → c.active ≡ false → deactivate c ≡ c
same_crumb c e = ap (λ a. record c { active = a }) (sym e)

activate_last-deactivate :
    (path : List BreadcrumbItem) → IsLastActive path → activate_last (map deactivate path) ≡ path
activate_last-deactivate [] h = refl
activate_last-deactivate (c ∷ []) h = ap (λ a. record c { active = a } ∷ []) (sym h)
activate_last-deactivate (c ∷ d ∷ cs) h =
    cc (same_crumb c h.0, activate_last-deactivate (d ∷ cs) h.1)

-- If the last crumb of a path and no other is active, PopCrumb after AddCrumb returns the crumb
-- that was added, as the active one, and leaves the path from before.
pub pop_crumb-add_crumb :
    (item : BreadcrumbItem) (path : List BreadcrumbItem)
    → IsLastActive path
    → pop_crumb (add_crumb item path) ≡ (some (activate item), path)
unfolding pop_crumb add_crumb
pop_crumb-add_crumb item path h =
    rw (
      crumbs-snoc (map deactivate path) (activate item),
      activate_last-deactivate path h,
      pop_crumb,
    )
