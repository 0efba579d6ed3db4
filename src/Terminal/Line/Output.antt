-- ===== src/Terminal/Line/Output.antt =====
-- terminal.c: the output of a command between two lines of input.
use kernel_from_scratch.Prelude.{
  ℕ, ◌+◌, ◌-◌, ◌≤◌, ◌≡◌, inl, inr, refl, sym, ap, ◌∙◌, arith, List, [], ◌∷◌, Bool, Bool-cases, ◌==◌,
  true, false, length, codes, lt8, sub32, extend8, minus_one8,
}
use kernel_from_scratch.Terminal.{Screen, Console, cursor_position, cell_at}
use kernel_from_scratch.Terminal.Put.{newline, putc, put_chars, put_newline, put_prompt}
use kernel_from_scratch.Terminal.Output.{
  to_input_end, to_line_start, prompt_if, terminal_begin_output, terminal_end_output,
}
use kernel_from_scratch.Terminal.Advance.{IsValid}
use kernel_from_scratch.Terminal.Print.{putc-put_glyph, put_glyph-Printed}
use kernel_from_scratch.Terminal.Newline.{put_newline-Newline}
use kernel_from_scratch.Terminal.Text.{TextAt}
use kernel_from_scratch.Terminal.Edit.{screen-move_cursor, moved_to-IsValid, position-moved_to}
use kernel_from_scratch.Terminal.Line.{Line, Holds, empty_line}

putc-newline : (c : Console) → putc newline c ≡ put_newline c
unfolding putc
putc-newline c = refl

-- Every character that is printed leaves the screen valid.
pub putc-IsValid : (ch : ℕ) (c : Console) → IsValid c.screen → IsValid (putc ch c).screen
putc-IsValid ch c v = elim (Bool-cases (ch == newline)) [
  | inl nl ↦
      let e : ch ≡ newline = ground arith in
      rw e (rw (putc-newline c) (put_newline-Newline c v).valid)
  | inr other ↦ rw (putc-put_glyph ch c (λ e. ground arith)) (put_glyph-Printed ch c v).valid
]

-- Text of any length and content, newlines included, leaves the cursor on the screen and the visible
-- rows within its rows, however often the screen moves up.
pub put_chars-IsValid :
    (chs : List ℕ) (c : Console) → IsValid c.screen → IsValid (put_chars chs c).screen
unfolding put_chars
put_chars-IsValid [] c v = v
put_chars-IsValid (ch ∷ chs) c v = put_chars-IsValid chs (putc ch c) (putc-IsValid ch c v)

to_line_start-IsValid : (c : Console) → IsValid c.screen → IsValid (to_line_start c).screen
unfolding to_line_start
to_line_start-IsValid c v = elim (Bool-cases (c.cursor_x == 0)) [
  | inl start ↦ rw start v
  | inr inside ↦ rw inside (putc-IsValid newline c v)
]

prompt_if-IsValid : (b : Bool) (c : Console) → IsValid c.screen → IsValid (prompt_if b c).screen
unfolding prompt_if put_prompt
prompt_if-IsValid true c v = put_chars-IsValid (codes "$ ") c v
prompt_if-IsValid false c v = v

pub empty-Holds :
    (s : Screen) → IsValid s → Holds (record s { input_size = 0; input_cursor = 0 }) empty_line
unfolding cursor_position
empty-Holds s v = record {
  valid = record { column = v.column; row = v.row; scroll = v.scroll };
  start = cursor_position s;
  position = omega arith;
  inside = omega arith;
  size = refl;
  count = refl;
  bound = omega arith;
  fits = omega (arith, v.row, v.column);
  is_text = tt;
  text_at = λ i h. absurd (omega arith);
}

-- `terminal_end_output` on any valid screen leaves it holding an empty line of input at the cursor,
-- with or without a prompt before it.
pub terminal_end_output-Holds :
    (show_prompt : Bool) (c : Console)
    → IsValid c.screen
    → Holds (terminal_end_output show_prompt c).screen empty_line
unfolding terminal_end_output
terminal_end_output-Holds show_prompt c v =
    empty-Holds (prompt_if show_prompt (to_line_start c)).screen
      (prompt_if-IsValid show_prompt (to_line_start c) (to_line_start-IsValid c v))

-- The cursor behind the line, wherever it was.
AtEnd : Screen → Line → Type 0
AtEnd s l = IsValid s × ((p : ℕ) × TextAt s p l.text × (p + length l.text ≡ cursor_position s))

to_input_end-AtEnd : (c : Console) (l : Line) → Holds c.screen l → AtEnd (to_input_end c).screen l
unfolding to_input_end AtEnd cell_at
to_input_end-AtEnd c l h = elim (Bool-cases (lt8 0 c.input_size)) [
  | inl some_text ↦
      let e =
        screen-move_cursor (sub32 (extend8 c.input_size) (extend8 c.input_cursor))
          (h.start + length l.text) c h.valid
          (ground (arith, h.position, h.inside, h.size, h.count, h.bound, h.fits)) h.fits in
      rw (some_text, e)
        (
          moved_to-IsValid c.screen (h.start + length l.text) h.valid h.fits,
          (h.start, h.text_at, sym (position-moved_to c.screen (h.start + length l.text))),
        )
  | inr no_text ↦
      rw no_text
        (h.valid, (h.start, h.text_at, ground (arith, h.position, h.inside, h.size, h.bound)))
]

-- From a screen that holds a line, the output of a command begins at the start of a line below the
-- input, whose text stays on the screen, and the terminal leaves its input mode.
pub terminal_begin_output-TextAt :
    (c : Console) (l : Line)
    → Holds c.screen l
    → let s = (terminal_begin_output c).screen in
      IsValid s
      × (s.cursor_x ≡ 0)
      × (s.input_size ≡ minus_one8)
      × ((p : ℕ) × TextAt s p l.text × (p + length l.text ≤ cursor_position s))
unfolding terminal_begin_output AtEnd cell_at cursor_position
terminal_begin_output-TextAt c l h =
    let u = (to_input_end c).screen in
    let (v, at_end) = to_input_end-AtEnd c l h in
    let n = put_newline-Newline (to_input_end c) v in
    let p = at_end.0 in
    let above : n.lost ≤ p = ground (arith, n.lost_rows, at_end.2, h.bound) in
    let text : TextAt (put_newline (to_input_end c)).screen (p - n.lost) l.text = λ i lt.
      let sum : p - n.lost + i + n.lost ≡ p + i = omega arith in
      ap (λ v. v.character) (n.kept (p - n.lost + i) (omega (arith, at_end.2)) ∙ ap (cell_at u) sum)
      ∙ at_end.1 i lt in
    rw (putc-newline (to_input_end c)) (
      record { column = n.valid.column; row = n.valid.row; scroll = n.valid.scroll },
      n.column,
      refl,
      (p - n.lost, text, ground (arith, n.row, n.column, n.lost_rows, at_end.2, v.column)),
    )
