-- ===== src/Tui/Router/Back.antt =====
-- internal/tui/router.go: GoBack undoes SwitchView.
use corkscrew.Prelude.{
  ◌≡◌, ◌≢◌, inl, inr, true, false, Option, List, [], ◌∷◌, ◌++◌, arith, length, drop, leb,
  if◌then◌else◌, Bool-cases, done, panic,
}
use corkscrew.Tui.Types.{ViewType, view_eq, Payload, Cmd, Views}
use corkscrew.Tui.Router.{
  ViewRouter, history_max, push_history, is_view_available, push_unless_same, switch_view, go_back,
}
use corkscrew.Tui.Router.Table.{view_eq_iff, IsRouted}
use corkscrew.Tui.Router.Moves.{ensure_view-cases, switch_view-IsMoved, go_back-IsBack}

-- The history that a push leaves below the new entry.
abbrev pub kept_history : List ViewType → List ViewType
kept_history history = if leb history_max (length history) then drop 1 history else history

pub pushed_history :
    (hs l : List ViewType) (v : ViewType)
    → push_history hs v ≡ done l
    → l ≡ kept_history hs ++ v ∷ []
unfolding push_history
pushed_history hs l v e = elim (Bool-cases (leb (length (kept_history hs ++ v ∷ [])) history_max)) [
  | inl short ↦
      let same : done (kept_history hs ++ v ∷ []) ≡ done l = rw (short, push_history) at e in cc
  | inr long ↦ let same : panic ≡ done l = rw (long, push_history) at e in cc
]

-- A switch to another view, and then back.
pub record IsUndone {V P : Type 0} (t : ViewType) (r moved back : ViewRouter V P) : Type 0 where
  pub shown : moved.current_view ≡ t
  pub shown_again : back.current_view ≡ r.current_view
  pub history : back.history ≡ kept_history r.history

module _ {V P C M : Type 0} (ops : Views V P C M) where
  -- From a router whose views have instances and whose history is within its bound: SwitchView to
  -- another view that is available shows it, and GoBack then shows the view from before, with the
  -- history from before, except that its oldest entry is gone if it was full.
  pub switch_view-go_back :
      (t : ViewType) (payload : Option Payload) (r : ViewRouter V P)
      → IsRouted r
      → is_view_available t ≡ true
      → t ≢ r.current_view
      → (moved : ViewRouter V P) × (c : Option (Cmd C)) × (back : ViewRouter V P) × (switch_view ops
            t payload r
          ≡ done (moved, c))
        × (go_back ops moved ≡ done back)
        × IsUndone t r moved back
  switch_view-go_back t payload r h available other = elim (ensure_view-cases ops t r) [
    | inl (unknown, unavailable) ↦ absurd (cc (available, unavailable))
    | inr (views, e, there, kept) ↦
        let (moved, c, ran, m) = switch_view-IsMoved ops t payload r views h e there kept in
        let different : view_eq t r.current_view ≡ false =
          ground (arith, view_eq_iff t r.current_view) in
        let pushed : push_history r.history r.current_view ≡ done moved.history =
          rw (different, push_unless_same) at m.pushed in
        let (back, returned, b) =
          go_back-IsBack ops moved (kept_history r.history) r.current_view m.routed
            (pushed_history r.history moved.history r.current_view pushed) in
        (
          moved,
          c,
          back,
          ran,
          returned,
          record { shown = m.here; shown_again = b.here; history = b.popped },
        )
  ]
