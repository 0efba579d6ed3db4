-- ===== src/Terminal/Display.antt =====
-- terminal.c: what draws the screen, and scrolling.
use kernel_from_scratch.Prelude.{
  ℕ, zero, suc, ◌+◌, ◌-◌, ◌%◌, ◌^◌, Bool, true, false, ◌&&◌, ltb, leb, for_loop,
}
use kernel_from_scratch.Machine.{Machine, vga_height, vga_set_cell, vga_put_cursor}
use kernel_from_scratch.Terminal.{Screen, Console, terminal_width, terminal_height}

-- The body of the two loops of `put_screen`.
unfoldable pub draw_cell : Screen → ℕ → ℕ → Machine → Machine
draw_cell s x y m =
    let cell = s.cells y x in
    vga_set_cell cell.character cell.fg_color cell.bg_color x ((y + 2 ^ 32 - s.scroll_y) % 2 ^ 32) m

unfoldable pub put_screen : Console → Console
put_screen c = record c {
  machine =
      for_loop terminal_width 0
        (λ x m. for_loop vga_height c.screen.scroll_y (λ y. draw_cell c.screen x y) m) c.machine;
}

unfoldable pub is_cursor_above_visible : Screen → Bool
is_cursor_above_visible s = ltb s.cursor_y s.scroll_y

unfoldable pub is_cursor_below_visible : Screen → Bool
is_cursor_below_visible s = leb (s.scroll_y + vga_height) s.cursor_y

unfoldable pub can_scroll_up : Screen → Bool
can_scroll_up s = ltb 0 s.scroll_y

unfoldable pub can_scroll_down : Screen → Bool
can_scroll_down s = ltb (s.scroll_y + vga_height) terminal_height && is_cursor_below_visible s

-- A `uint8_t` argument and result.
unfoldable pub y_to_vga : Screen → ℕ → ℕ
y_to_vga s y = (y % 256 + 2 ^ 16 - s.scroll_y) % 256

-- `vga_put_cursor(screen->cursor_x, y_to_vga(screen->cursor_y))`
unfoldable pub show_cursor : Console → Console
show_cursor c = record c {
  machine = vga_put_cursor c.screen.cursor_x (y_to_vga c.screen c.screen.cursor_y) c.machine;
}

unfoldable pub scroll_down : Console → Console
scroll_down c = show_cursor (
    put_screen
      (record c { screen = record c.screen { scroll_y = (c.screen.scroll_y + 1) % 2 ^ 16 } }))

unfoldable pub scroll_up : Console → Console
scroll_up c = show_cursor (
    put_screen (record c {
      screen = record c.screen { scroll_y = (c.screen.scroll_y + 2 ^ 16 - 1) % 2 ^ 16 };
    }))

-- The two loops of `align_scroll_to_cursor`, with fuel.
unfoldable pub scroll_up_while_above : ℕ → Console → Console
scroll_up_while_above zero c = c
scroll_up_while_above (suc fuel) c = elim (is_cursor_above_visible c.screen) [
  | true ↦ scroll_up_while_above fuel (scroll_up c)
  | false ↦ c
]

unfoldable pub scroll_down_while_below : ℕ → Console → Console
scroll_down_while_below zero c = c
scroll_down_while_below (suc fuel) c = elim (is_cursor_below_visible c.screen) [
  | true ↦ scroll_down_while_below fuel (scroll_down c)
  | false ↦ c
]

unfoldable pub align_scroll_to_cursor : Console → Console
align_scroll_to_cursor c =
    scroll_down_while_below c.screen.cursor_y (scroll_up_while_above c.screen.scroll_y c)
