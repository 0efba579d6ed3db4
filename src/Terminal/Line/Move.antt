-- ===== src/Terminal/Line/Move.antt =====
-- terminal.c: `terminal_move` on a screen that holds a line.
use mathlib.Core.Path.{subst}
use kernel_from_scratch.Prelude.{
  ℕ, ◌+◌, ◌-◌, ◌%◌, ◌^◌, ◌≤◌, ◌<◌, ◌≡◌, inl, inr, refl, sym, arith, is_negative8, true, false, ltb,
  length, add32, extend8, Bool-cases, lt8,
}
use kernel_from_scratch.Terminal.{Screen, Console, cursor_position, cell_at}
use kernel_from_scratch.Terminal.Display.{
  scroll_up, scroll_down, can_scroll_up, can_scroll_down, is_cursor_below_visible,
}
use kernel_from_scratch.Terminal.Put.{move_cursor}
use kernel_from_scratch.Terminal.Input.{
  move_by, terminal_move, Direction, cursor_up, cursor_down, cursor_left, cursor_right, resize,
}
use kernel_from_scratch.Terminal.Scroll.{scrolled, screen-scroll_up, screen-scroll_down}
use kernel_from_scratch.Terminal.Edit.{moved_to, screen-move_cursor}
use kernel_from_scratch.Terminal.Line.{Line, Holds, Holds-recount, step_left, step_right}

abbrev pub step : Direction → Line → Line
step cursor_up l = l
step cursor_down l = l
step cursor_left l = step_left l
step cursor_right l = step_right l

-- The line does not depend on which rows are visible.
scrolled-Holds : (s : Screen) (l : Line) (n : ℕ) → Holds s l → n ≤ 10 → Holds (scrolled s n) l
unfolding cursor_position cell_at
scrolled-Holds s l n h small = record {
  valid = record { column = h.valid.column; row = h.valid.row; scroll = omega arith };
  start = h.start;
  position = h.position;
  inside = h.inside;
  size = h.size;
  count = h.count;
  bound = h.bound;
  fits = h.fits;
  is_text = h.is_text;
  text_at = h.text_at;
}

-- The cursor may be put behind any character of the line.
moved_to-Holds :
    (s : Screen) (l : Line) (h : Holds s l) (k : ℕ)
    → k ≤ length l.text
    → Holds (record (moved_to s (h.start + k)) { input_cursor = k }) (record l { cursor = k })
unfolding cursor_position cell_at
moved_to-Holds s l h k small = record {
  valid = record {
    column = omega arith;
    row = omega (arith, h.fits);
    scroll = omega (arith, h.fits, h.valid.scroll);
  };
  start = h.start;
  position = omega arith;
  inside = small;
  size = h.size;
  count = refl;
  bound = h.bound;
  fits = h.fits;
  is_text = h.is_text;
  text_at = h.text_at;
}

-- A step of the cursor, with the counter set beside it.
step_screen :
    (offset amount k : ℕ) (c : Console) (l : Line) (h : Holds c.screen l)
    → k ≤ length l.text
    → add32 (cursor_position c.screen) offset ≡ h.start + k
    → (l.cursor + amount) % 256 ≡ k
    → Holds (resize 0 amount (move_cursor offset c)).screen (record l { cursor = k })
step_screen offset amount k c l h small e f =
    subst
      (λ u.
        Holds
          (record u {
            input_size = (extend8 u.input_size + 0) % 256;
            input_cursor = (extend8 u.input_cursor + amount) % 256;
          })
          (record l { cursor = k }))
      (sym (screen-move_cursor offset (h.start + k) c h.valid e (omega (arith, h.fits))))
      (Holds-recount (moved_to c.screen (h.start + k)) l.text {a = c.input_size} {b = k}
        (moved_to-Holds c.screen l h k small) (ground (arith, h.size, h.bound))
        (ground (arith, h.count, h.bound, h.inside)) refl)

up_screen :
    (c : Console) (l : Line)
    → Holds c.screen l
    → can_scroll_up c.screen ≡ true
    → Holds (scroll_up c).screen l
unfolding can_scroll_up
up_screen c l h test =
    rw (screen-scroll_up c (ground arith) (omega (arith, h.valid.scroll)))
      (scrolled-Holds c.screen l (c.scroll_y - 1) h (omega (arith, h.valid.scroll)))

down_screen :
    (c : Console) (l : Line)
    → Holds c.screen l
    → can_scroll_down c.screen ≡ true
    → Holds (scroll_down c).screen l
unfolding can_scroll_down is_cursor_below_visible
down_screen c l h test =
    rw (screen-scroll_down c (omega (arith, h.valid.scroll)))
      (scrolled-Holds c.screen l (c.scroll_y + 1) h (ground arith))

move_by-Holds :
    (direction : Direction) (c : Console) (l : Line)
    → Holds c.screen l
    → Holds (move_by direction c).screen (step direction l)
unfolding move_by
move_by-Holds cursor_up c l h = elim (Bool-cases (can_scroll_up c.screen)) [
  | inl can ↦ rw can (up_screen c l h can)
  | inr cannot ↦ rw cannot h
]
move_by-Holds cursor_down c l h = elim (Bool-cases (can_scroll_down c.screen)) [
  | inl can ↦ rw can (down_screen c l h can)
  | inr cannot ↦ rw cannot h
]
move_by-Holds cursor_left c l h = elim (Bool-cases (lt8 0 c.input_cursor)) [
  | inl can ↦
      let some_left : 0 < l.cursor = ground (arith, h.count, h.inside, h.bound) in
      rw can (
        step_screen (2 ^ 32 - 1) (2 ^ 32 - 1) (l.cursor - 1) c l h (omega (arith, h.inside))
          (omega (arith, h.position, h.fits, h.inside)) (omega (arith, h.inside, h.bound)))
  | inr cannot ↦
      let none_left : l.cursor - 1 ≡ l.cursor = ground (arith, h.count, h.inside, h.bound) in
      rw (cannot, none_left) h
]
move_by-Holds cursor_right c l h = elim (Bool-cases (lt8 c.input_cursor c.input_size)) [
  | inl can ↦
      let more : ltb l.cursor (length l.text) ≡ true =
        ground (arith, h.count, h.size, h.inside, h.bound) in
      rw (can, more)
        (step_screen 1 1 (l.cursor + 1) c l h (ground arith)
          (omega (arith, h.position, h.fits, h.inside)) (ground (arith, h.inside, h.bound)))
  | inr cannot ↦
      let end : ltb l.cursor (length l.text) ≡ false =
        ground (arith, h.count, h.size, h.inside, h.bound) in
      rw (cannot, end) h
]

-- `terminal_move` on a screen that holds a line: left and right move the cursor by a character
-- within the text, and stop at its ends; up and down change neither text nor cursor.
pub terminal_move-Holds :
    (direction : Direction) (c : Console) (l : Line)
    → Holds c.screen l
    → Holds (terminal_move direction c).screen (step direction l)
unfolding terminal_move
terminal_move-Holds direction c l h =
    let input : is_negative8 c.input_size ≡ false = ground (arith, h.size, h.bound) in
    rw input (move_by-Holds direction c l h)
