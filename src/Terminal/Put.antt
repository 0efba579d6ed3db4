-- ===== src/Terminal/Put.antt =====
-- terminal.c: moving the cursor and printing characters.
use kernel_from_scratch.Prelude.{
  ℕ, ◌+◌, ◌-◌, ◌/◌, ◌%◌, ◌^◌, List, [], ◌∷◌, ltb, leb, ◌==◌, if◌then◌else◌, for_loop, add32, codes,
}
use kernel_from_scratch.Machine.{vga_set_cell}
use kernel_from_scratch.Terminal.{
  Cell, Screen, Console, terminal_width, terminal_height, blank, set_cell, cursor_position,
}
use kernel_from_scratch.Terminal.Display.{put_screen, y_to_vga, show_cursor, align_scroll_to_cursor}

-- The `memmove` moves each row but the first one row up.
unfoldable pub move_rows_up : Screen → Screen
move_rows_up s = record s {
  cells = λ y x. if ltb y (terminal_height - 1) then s.cells (y + 1) x else s.cells y x;
}

unfoldable pub move_screen_up : Screen → Screen
move_screen_up s =
    let s =
      for_loop terminal_width 0 (λ x t. set_cell (terminal_height - 1) x (blank t) t)
        (move_rows_up s) in
    record s { cursor_y = (s.cursor_y + 2 ^ 16 - 1) % 2 ^ 16 }

-- `offset` is an `int32_t`, by its bit pattern.
unfoldable pub move_cursor : ℕ → Console → Console
move_cursor offset c =
    let position = add32 (cursor_position c.screen) offset in
    show_cursor (
      align_scroll_to_cursor (record c {
        screen = record c.screen {
          cursor_x = position % terminal_width;
          cursor_y = position / terminal_width % 2 ^ 16;
        };
      }))

-- Write one cell of the screen, and the VGA cell that shows it.
unfoldable pub put_cell : ℕ → ℕ → Cell → Console → Console
put_cell y x cell c = record {
  screen = set_cell y x cell c.screen;
  machine =
      vga_set_cell cell.character cell.fg_color cell.bg_color x (y_to_vga c.screen y) c.machine;
}

-- The three steps of `putc('\n')`: room below the last line, the rest of the line blanked, and the
-- cursor at the start of the next line.
unfoldable pub make_room : Console → Console
make_room c =
    if leb terminal_height (c.screen.cursor_y + 1)
    then record c { screen = move_screen_up c.screen }
    else c

unfoldable pub blank_line : Console → Console
blank_line c =
    for_loop (terminal_width - c.screen.cursor_x) c.screen.cursor_x
      (λ x d. put_cell d.screen.cursor_y x (blank d.screen) d) c

unfoldable pub end_line : Console → Console
end_line c = show_cursor (
    align_scroll_to_cursor (record c {
      screen = record c.screen { cursor_x = 0; cursor_y = (c.screen.cursor_y + 1) % 2 ^ 16 };
    }))

unfoldable pub put_newline : Console → Console
put_newline c = end_line (blank_line (make_room c))

-- The cursor behind the character that was written: on the next line at the end of a line.
unfoldable pub advance : Screen → Screen
advance s =
    let s = record s { cursor_x = (s.cursor_x + 1) % 2 ^ 16 } in
    if leb terminal_width s.cursor_x
    then (let s = record s { cursor_x = 0; cursor_y = (s.cursor_y + 1) % 2 ^ 16 } in
        if leb terminal_height s.cursor_y then move_screen_up s else s)
    else s

-- `putc(c)` of any other character
unfoldable pub put_glyph : ℕ → Console → Console
put_glyph ch c =
    let s = c.screen in
    let c =
      put_cell s.cursor_y s.cursor_x
        (record { character = ch % 256; fg_color = s.fg_color; bg_color = s.bg_color }) c in
    put_screen (align_scroll_to_cursor (show_cursor (record c { screen = advance c.screen })))

abbrev pub newline : ℕ
newline = 10

unfoldable pub putc : ℕ → Console → Console
putc ch c = if ch == newline then put_newline c else put_glyph ch c

-- A loop of `putc` over characters in order.
unfoldable pub put_chars : List ℕ → Console → Console
put_chars [] c = c
put_chars (ch ∷ chs) c = put_chars chs (putc ch c)

unfoldable pub put_prompt : Console → Console
put_prompt = put_chars (codes "$ ")
