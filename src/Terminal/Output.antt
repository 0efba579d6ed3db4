-- ===== src/Terminal/Output.antt =====
-- terminal.c: clearing a screen, and the output of a command.
use kernel_from_scratch.Prelude.{
  ℕ, Bool, true, false, List, ◌==◌, if◌then◌else◌, for_loop, sub32, extend8, minus_one8, lt8,
}
use kernel_from_scratch.Machine.{vga_set_cursor_visibility}
use kernel_from_scratch.Terminal.{Screen, Console, terminal_width, terminal_height, blank, set_cell}
use kernel_from_scratch.Terminal.Put.{move_cursor, putc, put_chars, put_prompt, newline}

unfoldable pub terminal_clear : Screen → Screen
terminal_clear s =
    let s =
      for_loop terminal_width 0 (λ x. for_loop terminal_height 0 (λ y t. set_cell y x (blank t) t))
        s in
    record s { cursor_x = 0; cursor_y = 0; scroll_y = 0; input_size = 0; input_cursor = 0 }

abbrev pub set_visibility : Bool → Console → Console
set_visibility visible c = record c { machine = vga_set_cursor_visibility visible c.machine }

-- The first `if` of `terminal_begin_output`: the cursor behind the whole input.
unfoldable pub to_input_end : Console → Console
to_input_end c =
    if lt8 0 c.screen.input_size
    then move_cursor (sub32 (extend8 c.screen.input_size) (extend8 c.screen.input_cursor)) c
    else c

unfoldable pub terminal_begin_output : Console → Console
terminal_begin_output c =
    let c = putc newline (to_input_end c) in
    set_visibility false (record c { screen = record c.screen { input_size = minus_one8 } })

-- The two `if`s of `terminal_end_output`.
unfoldable pub to_line_start : Console → Console
to_line_start c = if c.screen.cursor_x == 0 then c else putc newline c

unfoldable pub prompt_if : Bool → Console → Console
prompt_if show_prompt c = if show_prompt then put_prompt c else c

unfoldable pub terminal_end_output : Bool → Console → Console
terminal_end_output show_prompt c =
    let c = prompt_if show_prompt (to_line_start c) in
    set_visibility true (record c { screen = record c.screen { input_size = 0; input_cursor = 0 } })

unfoldable pub terminal_putc_output : ℕ → Console → Console
terminal_putc_output = putc

-- The bytes of `message` before its NUL.
unfoldable pub terminal_puts_output : List ℕ → Console → Console
terminal_puts_output = put_chars
