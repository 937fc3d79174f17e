-- ===== src/Tui/Router.antt =====
-- internal/tui/router.go: ViewRouter.
pub mod Table
pub mod Moves
pub mod Keeps
pub mod Back
use corkscrew.Prelude.{
  ℕ, Bool, true, false, Option, none, some, List, [], ◌∷◌, ◌++◌, Text, codes, text_eq, length, drop,
  leb, if◌then◌else◌, Run, done, panic, assert_that, ◌>>=◌, ◌>>◌,
}
use corkscrew.Prelude.Int.{ℤ, pos}
use corkscrew.Tui.Types.{
  ViewType, view_main, view_scan, view_results, view_config, view_diagrams, view_compliance,
  view_query, view_other, view_eq, Payload, text, other_payload, Msg, switch_view_msg, back_msg,
  window_size_msg, quit_msg, other_msg, Cmd, view_cmd, error_cmd, quick_scan_cmd, batch, Views,
}

pub record ViewRouter (V P : Type 0) : Type 0 where
  pub current_view : ViewType
  pub views : ViewType → Option V
  pub history : List ViewType
  pub dependencies : P
  pub width : ℤ
  pub height : ℤ

abbrev pub history_max : ℕ
history_max = 32

-- pushHistory: the history after it, with its assertion.
unfoldable pub push_history : List ViewType → ViewType → Run (List ViewType)
push_history history v = do
  let kept = if leb history_max (length history) then drop 1 history else history
  let pushed = kept ++ v ∷ []
  assert_that (leb (length pushed) history_max)
  done pushed

-- The last entry of the history, and what comes before it.
abbrev pub split_last : List ViewType → Option (List ViewType × ViewType)
split_last [] = none
split_last (v ∷ []) = some ([], v)
split_last (v ∷ w ∷ vs) = elim (split_last (w ∷ vs)) [ none ↦ none | some (l, a) ↦ some (v ∷ l, a) ]

unfoldable pub is_view_available : ViewType → Bool
is_view_available (view_other n) = false
is_view_available _ = true

-- `if … { return tea.Batch(cmd, initCmd) } else if initCmd != nil …`
abbrev pub batch_cmds : {C : Type 0} → Option (Cmd C) → Option (Cmd C) → Option (Cmd C)
batch_cmds (some c) (some i) = some (batch c i)
batch_cmds none (some i) = some i
batch_cmds c none = c

abbrev pub to_cmd : {C : Type 0} → Option C → Option (Cmd C)
to_cmd none = none
to_cmd (some c) = some (view_cmd c)

module _ {V : Type 0} where
  -- r.views[t] = view
  abbrev pub put : ViewType → V → (ViewType → Option V) → ViewType → Option V
  put t v views t' = if view_eq t t' then some v else views t'

  -- A method of the view `t`, called through its pointer if it exists.
  abbrev pub change : ViewType → (V → V) → (ViewType → Option V) → ViewType → Option V
  change t f views t' = elim (views t') [
    | none ↦ none
    | some v ↦ some (if view_eq t t' then f v else v)
  ]

module _ {V P C M : Type 0} (ops : Views V P C M) where
  abbrev no_views : ViewType → Option V
  no_views t = none

  unfoldable pub new_view_router : P → ViewRouter V P
  new_view_router dependencies = record {
    current_view = view_main;
    views = put view_main (ops.new_view view_main) no_views;
    history = [];
    dependencies = dependencies;
    width = pos 80;
    height = pos 24;
  }

  -- SetDependencies
  unfoldable pub set_dependencies : P → ViewRouter V P → ViewRouter V P
  set_dependencies p r = record r {
    dependencies = p;
    views = λ t. elim (r.views t) [ none ↦ none | some v ↦ some (ops.inject p v) ];
  }

  unfoldable pub create_view : ViewType → Option V
  create_view (view_other n) = none
  create_view t = some (ops.new_view t)

  -- The views of SwitchView once the view exists, or none if it cannot be created.
  unfoldable pub ensure_view : ViewType → ViewRouter V P → Option (ViewType → Option V)
  ensure_view t r = elim (r.views t) [
    | some v ↦ some r.views
    | none ↦ elim (create_view t) [
      | none ↦ none
      | some v ↦ some (put t (ops.inject r.dependencies v) r.views)
    ]
  ]

  unfoldable pub must_current_view : ViewRouter V P → Run V
  must_current_view r = elim (r.views r.current_view) [ none ↦ panic | some v ↦ done v ]

  -- handleViewData: the method that it calls on the view, and its command.
  unfoldable pub handle_view_data : ViewType → Payload → (V → V) × Option (Cmd C)
  handle_view_data t (other_payload n) = (λ v. v, none)
  handle_view_data view_scan (text s) =
      (λ v. v, if text_eq s (codes "quick") then some quick_scan_cmd else none)
  handle_view_data view_results (text s) =
      (if text_eq s (codes "correlate") then ops.set_mode s else (λ v. v), none)
  handle_view_data _ (text s) = (λ v. v, none)

  abbrev view_data : ViewType → Option Payload → (V → V) × Option (Cmd C)
  view_data t none = (λ v. v, none)
  view_data t (some d) = handle_view_data t d

  -- The end of SwitchView, for the view that mustCurrentView returned.
  abbrev pub enter :
      ViewType → Option Payload → ViewRouter V P → V → ViewRouter V P × Option (Cmd C)
  enter t payload r v =
      let handled = view_data t payload in
      let started = ops.init (handled.0 (ops.resize r.width r.height (ops.focus v))) in
      (record r { views = put t started.0 r.views }, batch_cmds handled.1 (to_cmd started.1))

  abbrev pub push_unless_same : ViewType → ViewRouter V P → Run (List ViewType)
  push_unless_same t r =
      if view_eq t r.current_view then done r.history else push_history r.history r.current_view

  unfoldable pub switch_view :
      ViewType → Option Payload → ViewRouter V P → Run (ViewRouter V P × Option (Cmd C))
  switch_view t payload r = elim (ensure_view t r) [
    | none ↦ done (r, some (error_cmd t))
    | some views ↦ do
      history ← push_unless_same t r
      let moved = record r {
        views = change r.current_view ops.blur views;
        history = history;
        current_view = t;
      }
      v ← must_current_view moved
      done (enter t payload moved v)
  ]

  unfoldable pub go_back : ViewRouter V P → Run (ViewRouter V P)
  go_back r = elim (split_last r.history) [
    | none ↦ done r
    | some (rest, previous) ↦ do
      old ← must_current_view r
      let moved = record r {
        views = put r.current_view (ops.blur old) r.views;
        history = rest;
        current_view = previous;
      }
      v ← must_current_view moved
      done (record moved {
        views = put previous (ops.resize r.width r.height (ops.focus v)) moved.views;
      })
  ]

  unfoldable pub resize : ℤ → ℤ → ViewRouter V P → ViewRouter V P
  resize width height r = record r {
    width = width;
    height = height;
    views = λ t. elim (r.views t) [ none ↦ none | some v ↦ some (ops.resize width height v) ];
  }

  -- The end of Update: the message goes to the current view.
  unfoldable pub delegate : Msg M → ViewRouter V P → ViewRouter V P × Option (Cmd C)
  delegate msg r = elim (r.views r.current_view) [
    | none ↦ (r, none)
    | some v ↦
        let updated = ops.update msg v in
        (record r { views = put r.current_view updated.0 r.views }, to_cmd updated.1)
  ]

  unfoldable pub update : Msg M → ViewRouter V P → Run (ViewRouter V P × Option (Cmd C))
  unfolding delegate resize
  update (switch_view_msg t payload) r = switch_view t payload r
  update back_msg r = do back ← go_back r; done (back, none)
  update (window_size_msg width height) r =
      done (delegate (window_size_msg width height) (resize width height r))
  update quit_msg r = done (delegate quit_msg r)
  update (other_msg m) r = done (delegate (other_msg m) r)

  -- ClearHistory
  unfoldable pub clear_history : ViewRouter V P → ViewRouter V P
  clear_history r = record r { history = [] }
