-- ===== src/Terminal/Edit.antt =====
-- terminal.c: `move_cursor`, and what reprinting the rest of the input does to a screen.
use mathlib.Core.Path.{subst}
use kernel_from_scratch.Prelude.{
  ℕ, zero, suc, ◌+◌, ◌-◌, ◌/◌, ◌%◌, ◌^◌, ◌≤◌, ◌<◌, ◌≡◌, ◌⊎◌, refl, sym, ap, ◌∙◌, arith, List, [],
  ◌∷◌, ◌++◌, ltb, if◌then◌else◌, length, length-append, length-replicate, replicate, length-map,
  get_or, map, add32, sub32,
}
use kernel_from_scratch.Terminal.{
  Cell, Screen, Console, blank, cursor_position, cell_at, terminal_width,
}
use kernel_from_scratch.Terminal.Display.{show_cursor}
use kernel_from_scratch.Terminal.Put.{move_cursor, put_chars, putc}
use kernel_from_scratch.Terminal.Input.{put_input_after_cursor}
use kernel_from_scratch.Terminal.Cells.{terminal_cells}
use kernel_from_scratch.Terminal.Scroll.{aligned, screen-align_scroll_to_cursor}
use kernel_from_scratch.Terminal.Advance.{IsValid, glyph, Redrawn}
use kernel_from_scratch.Terminal.Print.{Printed, NoNewline, put_chars-Printed}

-- The screen with its cursor at position `p`, scrolled so that the cursor is in view.
abbrev pub moved_to : Screen → ℕ → Screen
moved_to s p = record s {
  cursor_x = p % terminal_width;
  cursor_y = p / terminal_width;
  scroll_y = aligned s.scroll_y (p / terminal_width);
}

pub screen-move_cursor :
    (offset p : ℕ) (c : Console)
    → IsValid c.screen
    → add32 (cursor_position c.screen) offset ≡ p
    → p < terminal_cells
    → (move_cursor offset c).screen ≡ moved_to c.screen p
unfolding move_cursor show_cursor
screen-move_cursor offset p c v e h =
    let row : p / terminal_width % 2 ^ 16 ≡ p / terminal_width = omega arith in
    rw (e, row) (screen-align_scroll_to_cursor _ (omega arith) (omega arith))

pub position-moved_to : (s : Screen) (p : ℕ) → cursor_position (moved_to s p) ≡ p
unfolding cursor_position
position-moved_to s p = omega arith

pub cell_at-moved_to : (s : Screen) (p q : ℕ) → cell_at (moved_to s p) q ≡ cell_at s q
unfolding cell_at
cell_at-moved_to s p q = refl

pub moved_to-IsValid :
    (s : Screen) (p : ℕ) → IsValid s → p < terminal_cells → IsValid (moved_to s p)
moved_to-IsValid s p v h = record { column = omega arith; row = omega arith; scroll = omega arith }

pub position-lt-cells : (s : Screen) → IsValid s → cursor_position s < terminal_cells
unfolding cursor_position
position-lt-cells s v = omega arith

-- `t` is `s` with `gs` printed at the cursor and the cursor moved `back` cells back.
pub record Edited (s : Screen) (gs : List Cell) (back : ℕ) (t : Screen) : Type 0 where
  pub lost : ℕ
  pub position : cursor_position t + back + lost ≡ cursor_position s + length gs
  pub above : (lost ≡ 0) ⊎ (lost + 2464 ≤ cursor_position s)
  pub fits : cursor_position t + back < terminal_cells
  pub cells :
      (q : ℕ)
      → q < cursor_position t + back
      → cell_at t q ≡ (
          if ltb (q + lost) (cursor_position s)
          then cell_at s (q + lost)
          else get_or gs (q + lost - cursor_position s) (blank s))
  pub valid : IsValid t
  pub rest : Redrawn s t

-- Text shorter than a line and a half is printed and the cursor stepped back over part of it.
pub move_back-Edited :
    (c : Console) (s : Screen) (gs : List Cell) (back : ℕ)
    → Printed s gs c.screen
    → back ≤ length gs
    → length gs ≤ 256
    → Edited s gs back (move_cursor (sub32 0 back) c).screen
move_back-Edited c s gs back a h small =
    let p = cursor_position c.screen - back in
    let inside = position-lt-cells c.screen a.valid in
    let enough : back ≤ cursor_position c.screen = ground (arith, a.position, a.last_line) in
    subst (Edited s gs back)
      (sym (screen-move_cursor (sub32 0 back) p c a.valid (omega arith) (omega arith)))
      (record {
        lost = a.lost;
        position = omega (arith, a.position, position-moved_to c.screen p);
        above = ground (arith, a.position, a.last_line);
        fits = omega (arith, position-moved_to c.screen p);
        cells = λ q lt.
            cell_at-moved_to c.screen p q ∙ a.cells q (omega (arith, position-moved_to c.screen p));
        valid = moved_to-IsValid c.screen p a.valid (omega arith);
        rest = ap (λ u. moved_to u p) a.rest;
      })

put_chars-append :
    (xs ys : List ℕ) (c : Console) → put_chars (xs ++ ys) c ≡ put_chars ys (put_chars xs c)
unfolding put_chars
put_chars-append [] ys c = refl
put_chars-append (x ∷ xs) ys c = put_chars-append xs ys (putc x c)

spaces-NoNewline : (xs : List ℕ) (n : ℕ) → NoNewline xs → NoNewline (xs ++ replicate n 32)
spaces-NoNewline [] zero h = tt
spaces-NoNewline [] (suc n) h = (λ e. omega arith, spaces-NoNewline [] n tt)
spaces-NoNewline (x ∷ xs) n h = (h.0, spaces-NoNewline xs n h.1)

-- `put_input_after_cursor` prints the text and the spaces, and comes back to the start of the text.
pub put_input_after_cursor-Edited :
    (text : List ℕ) (erase_count : ℕ) (c : Console)
    → IsValid c.screen
    → NoNewline text
    → length text + erase_count ≤ 256
    → Edited c.screen
        (map (glyph c.screen) (text ++ replicate erase_count 32))
        (length text + erase_count)
        (put_input_after_cursor text erase_count c).screen
unfolding put_input_after_cursor
put_input_after_cursor-Edited text erase_count c v h small =
    let n = length text + erase_count in
    let all = text ++ replicate erase_count 32 in
    let same : add32 (length text) erase_count ≡ n = omega arith in
    let count : length (map (glyph c.screen) all) ≡ n =
      length-map (glyph c.screen) all
      ∙ length-append text (replicate erase_count 32)
      ∙ ap (λ k. length text + k) (length-replicate erase_count 32) in
    let printed = put_chars-Printed all c (spaces-NoNewline text erase_count h) v in
    rw (same, ← put_chars-append text (replicate erase_count 32) c)
      (move_back-Edited (put_chars all c) c.screen (map (glyph c.screen) all) n printed
        (omega arith) (omega arith))
