-- ===== src/Terminal/Input.antt =====
-- terminal.c: the input field. Its functions work on `current_screen()`, here a `Console`.
use kernel_from_scratch.Prelude.{
  ℕ, zero, suc, ◌+◌, ◌-◌, ◌%◌, ◌^◌, ◌&&◌, ◌||◌, Option, none, some, List, [], ◌∷◌, ltb, leb, ◌==◌,
  if◌then◌else◌, length, replicate, drop, is_negative8, int8_max, lt8, extend8, add32, sub32,
}
use kernel_from_scratch.Terminal.{Screen, Console, terminal_width, blank, cursor_position, cell_at}
use kernel_from_scratch.Terminal.Display.{
  show_cursor, can_scroll_up, can_scroll_down, scroll_up, scroll_down,
}
use kernel_from_scratch.Terminal.Put.{move_cursor, put_cell, putc, put_chars}

pub data Direction : Type 0 where
  cursor_up cursor_down cursor_left cursor_right : Direction

-- The characters of `count` cells from a position on.
unfoldable pub read_cells : Screen → ℕ → ℕ → List ℕ
read_cells s zero position = []
read_cells s (suc count) position =
    (cell_at s (position % 2 ^ 32)).character ∷ read_cells s count (position + 1)

-- The buffer, whose length is the count that the function returns.
unfoldable pub get_input_after_cursor : Screen → List ℕ
get_input_after_cursor s =
    read_cells s (sub32 (extend8 s.input_size) (extend8 s.input_cursor)) (cursor_position s)

unfoldable pub put_input_after_cursor : List ℕ → ℕ → Console → Console
put_input_after_cursor buffer erase_count c =
    move_cursor (sub32 0 (add32 (length buffer) erase_count))
      (put_chars (replicate erase_count 32) (put_chars buffer c))

-- `input_size` and `input_cursor` changed by an amount of type `uint32_t`, truncated to `int8_t`.
abbrev pub resize : ℕ → ℕ → Console → Console
resize size cursor c = record c {
  screen = record c.screen {
    input_size = (extend8 c.screen.input_size + size) % 256;
    input_cursor = (extend8 c.screen.input_cursor + cursor) % 256;
  };
}

unfoldable pub terminal_putc_input : ℕ → Console → Console
terminal_putc_input input c =
    if is_negative8 c.screen.input_size || (c.screen.input_size == int8_max)
    then c
    else (let after_cursor = get_input_after_cursor c.screen in
        resize 1 1 (put_input_after_cursor after_cursor 0 (putc input c)))

-- `some` is the text that the buffer holds before its terminating NUL, `none` the result false.
unfoldable pub terminal_get_input : Screen → ℕ → Option (List ℕ)
terminal_get_input s buffer_size =
    if is_negative8 s.input_size
    then none
    else if ltb buffer_size (s.input_size + 1) || leb (2 ^ 31) buffer_size
    then none
    else some (read_cells s s.input_size (sub32 (cursor_position s) (extend8 s.input_cursor)))

-- One round of the loop of `terminal_del_input`, behind its test.
unfoldable pub erase_before : Console → Console
erase_before c =
    let s = c.screen in
    let s =
      if s.cursor_x == 0
      then record s { cursor_y = (s.cursor_y + 2 ^ 16 - 1) % 2 ^ 16; cursor_x = terminal_width - 1 }
      else record s { cursor_x = s.cursor_x - 1 } in
    put_cell s.cursor_y s.cursor_x (blank s) (record c { screen = s })

unfoldable pub erase_loop : ℕ → Console → Console
erase_loop zero c = c
erase_loop (suc count) c =
    let rest = erase_loop count (erase_before c) in
    if (c.screen.cursor_x == 0) && (c.screen.cursor_y == 0) then c else rest

unfoldable pub terminal_del_input : ℕ → Console → Console
terminal_del_input count c =
    if is_negative8 c.screen.input_size
    then c
    else (let count =
          if ltb (extend8 c.screen.input_cursor) count
          then extend8 c.screen.input_cursor
          else count in
        let after_cursor = get_input_after_cursor c.screen in
        show_cursor (
          resize (sub32 0 count) (sub32 0 count)
            (put_input_after_cursor after_cursor count (erase_loop count c))))

unfoldable pub terminal_del_input_forward : ℕ → Console → Console
terminal_del_input_forward count c =
    if is_negative8 c.screen.input_size
    then c
    else (let after_cursor = get_input_after_cursor c.screen in
        let count = if ltb (length after_cursor) count then length after_cursor else count in
        resize (sub32 0 count) 0 (put_input_after_cursor (drop count after_cursor) count c))

-- The `switch` of `terminal_move`.
unfoldable pub move_by : Direction → Console → Console
move_by cursor_up c = if can_scroll_up c.screen then scroll_up c else c
move_by cursor_down c = if can_scroll_down c.screen then scroll_down c else c
move_by cursor_left c =
    if lt8 0 c.screen.input_cursor then resize 0 (2 ^ 32 - 1) (move_cursor (2 ^ 32 - 1) c) else c
move_by cursor_right c =
    if lt8 c.screen.input_cursor c.screen.input_size then resize 0 1 (move_cursor 1 c) else c

unfoldable pub terminal_move : Direction → Console → Console
terminal_move direction c = if is_negative8 c.screen.input_size then c else move_by direction c
