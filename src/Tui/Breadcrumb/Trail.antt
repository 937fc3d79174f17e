-- ===== src/Tui/Breadcrumb/Trail.antt =====
-- internal/tui/components/breadcrumb.go: the breadcrumbs are a trail of distinct views.
use corkscrew.Prelude.{
  ℕ, suc, ◌≡◌, ◌≢◌, refl, sym, ap, ◌∙◌, inl, inr, true, false, Option, none, some, List, [], ◌∷◌,
  ◌++◌, arith, Text, map, take, length, ltb, if◌then◌else◌, All, Bool-cases, Option-cases,
}
use corkscrew.Tui.Types.{ViewType, view_eq, Payload}
use corkscrew.Tui.Router.Table.{view_eq_iff}
use corkscrew.Tui.Breadcrumb.{
  BreadcrumbItem, deactivate, activate, add_crumb, activate_at, set_active_crumb, index_of,
  navigate_to_view, get_current_crumb,
}

-- Only the last crumb is active.
abbrev pub IsLastActive : List BreadcrumbItem → Type 0
IsLastActive [] = Unit {0}
IsLastActive (c ∷ []) = c.active ≡ true
IsLastActive (c ∷ d ∷ cs) = (c.active ≡ false) × IsLastActive (d ∷ cs)

-- The views of the crumbs.
abbrev pub views_of : List BreadcrumbItem → List ViewType
views_of = map (λ c. c.view_type)

-- The views up to and including the first `t`, or all of them and then `t`.
abbrev pub path_to : ViewType → List ViewType → List ViewType
path_to t [] = t ∷ []
path_to t (v ∷ vs) = if view_eq v t then v ∷ [] else v ∷ path_to t vs

abbrev pub AreDistinct : List ViewType → Type 0
AreDistinct [] = Unit {0}
AreDistinct (v ∷ vs) = All (λ w. w ≢ v) vs × AreDistinct vs

add-IsLastActive :
    (item : BreadcrumbItem) (path : List BreadcrumbItem)
    → IsLastActive (map deactivate path ++ activate item ∷ [])
add-IsLastActive item [] = refl
add-IsLastActive item (c ∷ []) = (refl, refl)
add-IsLastActive item (c ∷ d ∷ cs) = (refl, add-IsLastActive item (d ∷ cs))

-- What NavigateToView makes of a path, by recursion on it.
navigated : ViewType → Text → Option Payload → List BreadcrumbItem → List BreadcrumbItem
navigated t label payload [] =
    record { label = label; view_type = t; active = true; payload = payload } ∷ []
navigated t label payload (c ∷ cs) =
    if view_eq c.view_type t then activate c ∷ [] else deactivate c ∷ navigated t label payload cs

some-injective : {A : Type 0} (a b : A) → some a ≡ some b → a ≡ b
some-injective a b e = cc

found_within :
    (t : ViewType) (path : List BreadcrumbItem) (i : ℕ)
    → index_of t path ≡ some i
    → length (take (suc i) path) ≡ suc i
found_within t [] i e = cc
found_within t (c ∷ cs) i e = elim (Bool-cases (view_eq c.view_type t)) [
  | inl same ↦ let first : i ≡ 0 = sym (some-injective 0 i (rw (same, index_of) at e)) in rw first
  | inr other ↦ elim (Option-cases (index_of t cs)) [
    | inl missing ↦ let no : none ≡ some i = rw (other, missing, index_of) at e in cc
    | inr (j, found) ↦
        let next : i ≡ suc j = sym (some-injective (suc j) i (rw (other, found, index_of) at e)) in
        rw next (ap suc (found_within t cs j found))
  ]
]

-- NavigateToView once the index is known, without its test of the bounds.
raw : ViewType → Text → Option Payload → Option ℕ → List BreadcrumbItem → List BreadcrumbItem
raw t label payload none path =
    map deactivate path
    ++ record { label = label; view_type = t; active = true; payload = payload } ∷ []
raw t label payload (some i) path = activate_at i (map deactivate (take (suc i) path))

raw-navigated :
    (t : ViewType) (label : Text) (payload : Option Payload) (path : List BreadcrumbItem)
    → raw t label payload (index_of t path) path ≡ navigated t label payload path
unfolding raw navigated
raw-navigated t label payload [] = refl
raw-navigated t label payload (c ∷ cs) = elim (Bool-cases (view_eq c.view_type t)) [
  | inl same ↦ rw (same, index_of, navigated)
  | inr other ↦ elim (Option-cases (index_of t cs)) [
    | inl missing ↦
        let rest : raw t label payload none cs ≡ navigated t label payload cs =
          rw missing at (raw-navigated t label payload cs) in
        rw (other, missing, index_of, navigated) (ap (◌∷◌ (deactivate c)) rest)
    | inr (i, found) ↦
        let rest : raw t label payload (some i) cs ≡ navigated t label payload cs =
          rw found at (raw-navigated t label payload cs) in
        rw (other, found, index_of, navigated) (ap (◌∷◌ (deactivate c)) rest)
  ]
]

navigate-navigated :
    (t : ViewType) (label : Text) (payload : Option Payload) (path : List BreadcrumbItem)
    → navigate_to_view t label payload path ≡ navigated t label payload path
unfolding navigate_to_view set_active_crumb add_crumb raw
navigate-navigated t label payload path = elim (Option-cases (index_of t path)) [
  | inl missing ↦
      rw (missing, navigate_to_view) (rw missing at (raw-navigated t label payload path))
  | inr (i, found) ↦
      let within : ltb i (length (take (suc i) path)) ≡ true =
        ground (arith, found_within t path i found) in
      rw (found, within, navigate_to_view) (rw found at (raw-navigated t label payload path))
]

views_of-navigated :
    (t : ViewType) (label : Text) (payload : Option Payload) (path : List BreadcrumbItem)
    → views_of (navigated t label payload path) ≡ path_to t (views_of path)
unfolding navigated
views_of-navigated t label payload [] = refl
views_of-navigated t label payload (c ∷ cs) = elim (Bool-cases (view_eq c.view_type t)) [
  | inl same ↦ rw (same, navigated, path_to)
  | inr other ↦
      rw (other, navigated, path_to) (ap (◌∷◌ c.view_type) (views_of-navigated t label payload cs))
]

cons-IsLastActive :
    (c : BreadcrumbItem) (cs : List BreadcrumbItem)
    → cs ≢ []
    → IsLastActive cs
    → IsLastActive (deactivate c ∷ cs)
cons-IsLastActive c [] ne h = absurd (ne refl)
cons-IsLastActive c (d ∷ cs) ne h = (refl, h)

path_to_ne_nil : (t : ViewType) (vs : List ViewType) → path_to t vs ≢ []
path_to_ne_nil t [] e = cc
path_to_ne_nil t (v ∷ vs) e = ground arith

navigated_ne_nil :
    (t : ViewType) (label : Text) (payload : Option Payload) (path : List BreadcrumbItem)
    → navigated t label payload path ≢ []
navigated_ne_nil t label payload path e =
    path_to_ne_nil t (views_of path)
      (sym (views_of-navigated t label payload path) ∙ ap (λ l. views_of l) e)

navigated-IsLastActive :
    (t : ViewType) (label : Text) (payload : Option Payload) (path : List BreadcrumbItem)
    → IsLastActive (navigated t label payload path)
unfolding navigated
navigated-IsLastActive t label payload [] = refl
navigated-IsLastActive t label payload (c ∷ cs) = elim (Bool-cases (view_eq c.view_type t)) [
  | inl same ↦ rw (same, navigated) refl
  | inr other ↦
      rw (other, navigated)
        (cons-IsLastActive c (navigated t label payload cs) (navigated_ne_nil t label payload cs)
          (navigated-IsLastActive t label payload cs))
]

navigated_current :
    (t : ViewType) (label : Text) (payload : Option Payload) (path : List BreadcrumbItem)
    → (c : BreadcrumbItem) × (get_current_crumb (navigated t label payload path) ≡ some c)
      × (c.view_type ≡ t)
unfolding navigated get_current_crumb
navigated_current t label payload [] = (_, refl, refl)
navigated_current t label payload (c ∷ cs) = elim (Bool-cases (view_eq c.view_type t)) [
  | inl same ↦ (activate c, rw (same, navigated), (view_eq_iff c.view_type t).0 same)
  | inr other ↦
      let (d, found, at) = navigated_current t label payload cs in
      (d, rw (other, navigated) (rw (found, get_current_crumb)), at)
]

path_to-All :
    (Q : ViewType → Type 0) (t : ViewType) (vs : List ViewType)
    → Q t
    → All Q vs
    → All Q (path_to t vs)
path_to-All Q t [] q h = (q, tt)
path_to-All Q t (v ∷ vs) q h = elim (Bool-cases (view_eq v t)) [
  | inl same ↦ rw (same, path_to) (h.0, tt)
  | inr other ↦ rw (other, path_to) (h.0, path_to-All Q t vs q h.1)
]

path_to-AreDistinct :
    (t : ViewType) (vs : List ViewType) → AreDistinct vs → AreDistinct (path_to t vs)
path_to-AreDistinct t [] h = (tt, tt)
path_to-AreDistinct t (v ∷ vs) h = elim (Bool-cases (view_eq v t)) [
  | inl same ↦ rw (same, path_to) (tt, tt)
  | inr other ↦
      rw (other, path_to)
        (
          path_to-All (λ w. w ≢ v) t vs (λ e. ground (arith, view_eq_iff v t)) h.0,
          path_to-AreDistinct t vs h.1,
        )
]

-- What NavigateToView makes of a path.
pub record IsNavigated (t : ViewType) (path path' : List BreadcrumbItem) : Type 0 where
  pub views : views_of path' ≡ path_to t (views_of path)
  pub distinct : AreDistinct (views_of path')
  pub last_active : IsLastActive path'
  pub current : (c : BreadcrumbItem) × (get_current_crumb path' ≡ some c) × (c.view_type ≡ t)

-- If the crumbs of a path stand for distinct views, NavigateToView cuts the path after the crumb
-- of the view, or adds one if there is none; the crumbs still stand for distinct views, the last
-- crumb and no other is active, and the current crumb is that of the view.
pub navigate-IsNavigated :
    (t : ViewType) (label : Text) (payload : Option Payload) (path : List BreadcrumbItem)
    → AreDistinct (views_of path)
    → IsNavigated t path (navigate_to_view t label payload path)
navigate-IsNavigated t label payload path h = rw (navigate-navigated t label payload path) (record {
  views = views_of-navigated t label payload path;
  distinct = rw (views_of-navigated t label payload path) (path_to-AreDistinct t (views_of path) h);
  last_active = navigated-IsLastActive t label payload path;
  current = navigated_current t label payload path;
})
