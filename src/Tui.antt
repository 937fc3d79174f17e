-- ===== src/Tui.antt =====
-- internal/tui: navigation between the views of the terminal interface.
pub mod Types
pub mod Router
pub mod Breadcrumb
pub mod App
mod Tests
