-- ===== src/Terminal.antt =====
-- terminal.c: one screen with its cursor, its scroll position and its input field. The children
-- hold the operations (Display, Put, Input, Output, Screens, Number) and the proofs about them.
pub mod Display
pub mod Put
pub mod Input
pub mod Output
pub mod Screens
pub mod Number
pub mod Scroll
pub mod Cells
pub mod Advance
pub mod Print
pub mod Newline
pub mod Text
pub mod Edit
pub mod Line
pub mod Shown
pub mod Sequence
pub mod LastLine
pub mod Frame
use kernel_from_scratch.Prelude.{ℕ, ◌+◌, ◌-◌, ◌*◌, ◌/◌, ◌%◌, Bool, ◌&&◌, if◌then◌else◌, ◌==◌}
use kernel_from_scratch.Machine.{Machine, vga_width, vga_height}

abbrev pub terminal_screen_count : ℕ
terminal_screen_count = 10

abbrev pub terminal_width : ℕ
terminal_width = vga_width

abbrev pub terminal_extra_lines : ℕ
terminal_extra_lines = 35 - vga_height

abbrev pub terminal_height : ℕ
terminal_height = vga_height + terminal_extra_lines

pub record Cell : Type 0 where
  pub character : ℕ
  pub fg_color : ℕ
  pub bg_color : ℕ

-- `data` is the field `cells`, by row and column. The two `int8_t` fields are bit patterns.
pub record Screen : Type 0 where
  pub cursor_x : ℕ
  pub cursor_y : ℕ
  pub scroll_y : ℕ
  pub input_size : ℕ
  pub input_cursor : ℕ
  pub fg_color : ℕ
  pub bg_color : ℕ
  pub initialized : Bool
  pub cells : ℕ → ℕ → Cell

-- The screen that `current_screen()` points to, with the machine that it is drawn on.
pub record Console : Type 0 where
  pub screen : Screen
  open screen use *
  pub machine : Machine

-- A space in the screen's colors, as the loops write it.
abbrev pub blank : Screen → Cell
blank s = record { character = 32; fg_color = s.fg_color; bg_color = s.bg_color }

-- `data[y][x] = v`
abbrev pub set_cell : ℕ → ℕ → Cell → Screen → Screen
set_cell y x v s = record s { cells = λ r k. if r == y && k == x then v else s.cells r k }

unfoldable pub cursor_position : Screen → ℕ
cursor_position s = s.cursor_y * terminal_width + s.cursor_x

unfoldable pub cell_at : Screen → ℕ → Cell
cell_at s position = s.cells (position / terminal_width) (position % terminal_width)
