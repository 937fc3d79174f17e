-- ===== src/Tui/Types.antt =====
-- internal/tui/types/types.go and internal/tui/views/base_view.go: the views and their interface.
use corkscrew.Prelude.{ℕ, suc, Bool, Option, Text, ◌==◌}
use corkscrew.Prelude.Int.{ℤ}

pub data ViewType : Type 0 where
  view_main view_scan view_results view_config view_diagrams view_compliance view_query : ViewType
  view_other : ℕ → ViewType

-- The value of the integer constant; 7 and more are of no view.
abbrev pub view_code : ViewType → ℕ
view_code view_main = 0
view_code view_scan = 1
view_code view_results = 2
view_code view_config = 3
view_code view_diagrams = 4
view_code view_compliance = 5
view_code view_query = 6
view_code (view_other n) = suc (suc (suc (suc (suc (suc (suc n))))))

abbrev pub view_eq : ViewType → ViewType → Bool
view_eq a b = view_code a == view_code b

-- What a message carries for a view: nothing but a string is looked at.
pub data Payload : Type 0 where
  text : Text → Payload
  other_payload : ℕ → Payload

pub data Msg (M : Type 0) : Type 0 where
  switch_view_msg : ViewType → Option Payload → Msg M
  back_msg : Msg M
  window_size_msg : ℤ → ℤ → Msg M
  quit_msg : Msg M
  other_msg : M → Msg M

-- tea.Cmd: what the router and the quit of the app make, and what the views return.
pub data Cmd (C : Type 0) : Type 0 where
  view_cmd : C → Cmd C
  error_cmd : ViewType → Cmd C
  quick_scan_cmd quit_cmd : Cmd C
  batch : Cmd C → Cmd C → Cmd C

-- BaseView, the constructors that createView calls, and the setters that the router uses, for
-- views of type `V`, dependencies of type `P`, and commands of type `C`.
pub record Views (V P C M : Type 0) : Type 0 where
  pub new_view : ViewType → V
  pub inject : P → V → V
  pub set_mode : Text → V → V
  pub init : V → V × Option C
  pub update : Msg M → V → V × Option C
  pub focus : V → V
  pub blur : V → V
  pub resize : ℤ → ℤ → V → V
