-- ===== src/Terminal/Line/Read.antt =====
-- terminal.c: what `terminal_get_input` and `get_input_after_cursor` read from a line.
use mathlib.Core.Path.{subst}
use kernel_from_scratch.Prelude.{
  ℕ, ◌+◌, ◌^◌, ◌<◌, ◌≡◌, sym, arith, none, some, ltb, if◌then◌else◌, length, length-drop, drop,
  sub32, extend8,
}
use kernel_from_scratch.Terminal.{Screen, cursor_position}
use kernel_from_scratch.Terminal.Input.{read_cells, get_input_after_cursor, terminal_get_input}
use kernel_from_scratch.Terminal.Text.{TextAt-drop, read_cells-TextAt}
use kernel_from_scratch.Terminal.Line.{Line, Holds}

pub get_input_after_cursor-Holds :
    {s : Screen} {l : Line} → Holds s l → get_input_after_cursor s ≡ drop l.cursor l.text
unfolding get_input_after_cursor
get_input_after_cursor-Holds {s} {l} h =
    let rest = drop l.cursor l.text in
    let count : sub32 (extend8 s.input_size) (extend8 s.input_cursor) ≡ length rest =
      ground (arith, h.size, h.count, h.bound, h.inside, length-drop l.cursor l.text) in
    rw (count, ← h.position)
      (read_cells-TextAt s (h.start + l.cursor) rest
        (omega (arith, h.fits, h.inside, length-drop l.cursor l.text))
        (TextAt-drop s h.start l.cursor l.text h.inside h.text_at))

-- On a screen that holds a line, `terminal_get_input` returns its whole text, wherever the cursor
-- is, exactly if the buffer has room for the text and a NUL (sizes below 2 ^ 31).
pub terminal_get_input-Holds :
    (s : Screen) (l : Line) (buffer_size : ℕ)
    → Holds s l
    → buffer_size < 2 ^ 31
    → terminal_get_input s buffer_size
      ≡ (if ltb (length l.text) buffer_size then some l.text else none)
unfolding terminal_get_input
terminal_get_input-Holds s l buffer_size h small =
    let back : sub32 (cursor_position s) (extend8 s.input_cursor) ≡ h.start =
      ground (arith, h.position, h.count, h.inside, h.bound, h.fits) in
    let all : read_cells s s.input_size h.start ≡ l.text =
      subst (λ n. read_cells s n h.start ≡ l.text) (sym h.size)
        (read_cells-TextAt s h.start l.text (omega (arith, h.fits)) h.text_at) in
    rw back (ground (arith, all, h.size, h.bound))
