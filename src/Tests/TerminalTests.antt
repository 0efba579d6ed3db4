-- ===== src/Tests/TerminalTests.antt =====
-- Instances of the theorems about terminal.c: a screen with the prompt and the input `abc`, the
-- cursor behind its first character.
use kernel_from_scratch.Prelude.{
  ◌^◌, ◌-◌, ℕ, zero, suc, ◌+◌, ◌≤◌, ◌≡◌, ◌<◌, refl, arith, true, some, List, [], ◌∷◌, get_or, codes,
  ◌==◌, if◌then◌else◌, map, minus_one8,
}
use kernel_from_scratch.Numerals.{number_text}
use kernel_from_scratch.Machine.{Machine}
use kernel_from_scratch.Terminal.{Cell, Screen, Console, cell_at, cursor_position}
use kernel_from_scratch.Terminal.Display.{put_screen, align_scroll_to_cursor}
use kernel_from_scratch.Terminal.Number.{terminal_putnbr_output}
use kernel_from_scratch.Terminal.Number.Decimal.{terminal_putnbr_output-number_text}
use kernel_from_scratch.Terminal.Put.{putc, put_chars, put_newline}
use kernel_from_scratch.Terminal.Input.{
  cursor_right, cursor_left, terminal_get_input, terminal_putc_input, terminal_del_input,
  terminal_del_input_forward,
}
use kernel_from_scratch.Terminal.Output.{terminal_begin_output}
use kernel_from_scratch.Terminal.Screens.{Terminal, terminal_switch_screen}
use kernel_from_scratch.Terminal.Advance.{IsValid, glyph}
use kernel_from_scratch.Terminal.Print.{Printed, put_chars-Printed}
use kernel_from_scratch.Terminal.Newline.{Newline, put_newline-Newline}
use kernel_from_scratch.Terminal.Text.{TextAt}
use kernel_from_scratch.Terminal.Scroll.{scrolled, distance, align_scroll_to_cursor_ends}
use kernel_from_scratch.Terminal.Shown.{
  Shown, code_of, put_screen-Shown, putc-Shown, terminal_switch_screen-Shown,
}
use kernel_from_scratch.Terminal.LastLine.{put_newline_stale}
use kernel_from_scratch.Terminal.Line.{Line, Holds, insert, delete_before, delete_after}
use kernel_from_scratch.Terminal.Line.Insert.{terminal_putc_input-Holds}
use kernel_from_scratch.Terminal.Line.Delete.{
  terminal_del_input-Holds, terminal_del_input_forward-Holds,
}
use kernel_from_scratch.Terminal.Line.Output.{terminal_begin_output-TextAt}
use kernel_from_scratch.Terminal.Line.Session.{
  Call, putc_input, del_input, del_input_forward, move, run, edit, terminal_get_input-run,
}

abbrev cell : ℕ → Cell
cell ch = record { character = ch; fg_color = 7; bg_color = 0 }

abbrev abc_cells : ℕ → ℕ → Cell
abc_cells y x = if y == 0 then cell (get_or (codes "$ abc") x 32) else cell 32

abbrev pub abc_screen : Screen
abc_screen = record {
  cursor_x = 3;
  cursor_y = 0;
  scroll_y = 0;
  input_size = 3;
  input_cursor = 1;
  fg_color = 7;
  bg_color = 0;
  initialized = true;
  cells = abc_cells;
}

abbrev pub machine : Machine
machine = record { trace = []; device = λ events port. 0; vga = λ p. 0 }

abbrev pub abc : Console
abc = record { screen = abc_screen; machine = machine }

abbrev pub abc_line : Line
abc_line = record { text = codes "abc"; cursor = 1 }

abc_text : TextAt abc_screen 2 (codes "abc")
unfolding cell_at
abc_text zero h = refl
abc_text (suc zero) h = refl
abc_text (suc (suc zero)) h = refl
abc_text (suc (suc (suc i))) h = absurd (omega arith)

abc-IsValid : IsValid abc_screen
abc-IsValid = omega arith

pub abc-Holds : Holds abc_screen abc_line
unfolding cursor_position
abc-Holds = record {
  valid = abc-IsValid;
  start = 2;
  position = refl;
  inside = omega arith;
  size = refl;
  count = refl;
  bound = omega arith;
  fits = omega arith;
  is_text = omega arith;
  text_at = abc_text;
}

abbrev calls : List Call
calls =
    putc_input 88 ∷ move cursor_right ∷ del_input_forward 1 ∷ move cursor_left ∷ del_input 1 ∷ []

edit-calls : edit calls abc_line ≡ record { text = codes "ab"; cursor = 1 }
unfolding edit
edit-calls = refl

terminal_get_input-run_example :
    terminal_get_input (run calls abc).screen 256 ≡ some (edit calls abc_line).text
terminal_get_input-run_example = terminal_get_input-run calls abc abc_line (omega arith) abc-Holds

-- The screen is scrolled to its end and drawn, with the cursor on the last line.
abbrev last_screen : Screen
last_screen = record abc_screen { cursor_x = 0; cursor_y = 34; scroll_y = 10 }

abbrev last : Console
last = put_screen (record { screen = last_screen; machine = machine })

last-IsValid : IsValid last.screen
unfolding put_screen
last-IsValid = record { column = omega arith; row = omega arith; scroll = omega arith }

row-last : last.screen.cursor_y ≡ 34
unfolding put_screen
row-last = refl

scroll-last : last.screen.scroll_y ≡ 10
unfolding put_screen
scroll-last = refl

abbrev pub terminal : Terminal
terminal = record { screens = λ i. abc_screen; terminal_index = 0; machine = machine }

terminal_putc_input-Holds_example : Holds (terminal_putc_input 88 abc).screen (insert 88 abc_line)
terminal_putc_input-Holds_example =
    terminal_putc_input-Holds 88 abc abc_line abc-Holds (omega arith) (omega arith)

terminal_del_input-Holds_example :
    Holds (terminal_del_input 5 abc).screen (delete_before 5 abc_line)
terminal_del_input-Holds_example = terminal_del_input-Holds 5 abc abc_line abc-Holds

terminal_del_input_forward-Holds_example :
    Holds (terminal_del_input_forward 1 abc).screen (delete_after 1 abc_line)
terminal_del_input_forward-Holds_example = terminal_del_input_forward-Holds 1 abc abc_line abc-Holds

put_chars-Printed_example :
    Printed last.screen (map (glyph last.screen) (codes "ab")) (put_chars (codes "ab") last).screen
put_chars-Printed_example =
    put_chars-Printed (codes "ab") last (λ e. omega arith, (λ e. omega arith, tt)) last-IsValid

put_newline-Newline_example : Newline last.screen (put_newline last).screen
put_newline-Newline_example = put_newline-Newline last last-IsValid

terminal_begin_output-TextAt_example :
    let s = (terminal_begin_output abc).screen in
    IsValid s
    × (s.cursor_x ≡ 0)
    × (s.input_size ≡ minus_one8)
    × ((p : ℕ) × TextAt s p (codes "abc") × (p + 3 ≤ cursor_position s))
terminal_begin_output-TextAt_example = terminal_begin_output-TextAt abc abc_line abc-Holds

putc-Shown_example : Shown (putc 65 abc).screen (putc 65 abc).machine
putc-Shown_example = putc-Shown 65 abc (omega arith)

terminal_switch_screen-Shown_example :
    let t' = terminal_switch_screen 3 terminal in
    (t'.terminal_index ≡ 3) × Shown (t'.screens 3) t'.machine × (t'.screens 5 ≡ terminal.screens 5)
terminal_switch_screen-Shown_example =
    terminal_switch_screen-Shown 3 5 terminal (omega arith) (omega arith)

-- The cursor is 30 rows below the first visible one.
abbrev below : Console
below = record abc { screen = record abc_screen { cursor_y = 30; scroll_y = 0 } }

align_scroll_to_cursor_ends_example :
    let s = (align_scroll_to_cursor below).screen in
    (s.scroll_y ≤ 30)
    × (30 < s.scroll_y + 25)
    × (distance 0 s.scroll_y ≤ distance 0 7)
    × (s ≡ scrolled below.screen s.scroll_y)
align_scroll_to_cursor_ends_example =
    align_scroll_to_cursor_ends below 7 (omega arith) (omega arith) (omega arith) (omega arith)

put_newline_stale_example :
    ((put_newline last).machine.vga 5 ≡ code_of (cell_at last.screen 805))
    × (cell_at (put_newline last).screen 805 ≡ cell_at last.screen 885)
put_newline_stale_example =
    put_newline_stale last 5 last-IsValid row-last scroll-last (put_screen-Shown _) (omega arith)

terminal_putnbr_output-number_text_example :
    terminal_putnbr_output (2 ^ 32 - 42) abc ≡ put_chars (45 ∷ number_text 42) abc
terminal_putnbr_output-number_text_example =
    terminal_putnbr_output-number_text true 42 abc (omega arith)
