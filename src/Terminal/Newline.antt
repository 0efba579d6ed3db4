-- ===== src/Terminal/Newline.antt =====
-- terminal.c: what `putc('\n')` does to the cells and to the cursor of a screen.
use mathlib.Core.Path.{subst}
use kernel_from_scratch.Prelude.{
  ℕ, ◌+◌, ◌-◌, ◌*◌, ◌/◌, ◌%◌, ◌^◌, ◌≤◌, ◌<◌, ◌≡◌, ◌⊎◌, inl, inr, refl, sym, ap, ◌∙◌, arith,
  Bool-cases, leb, lt→ltb, for_loop_inv,
}
use kernel_from_scratch.Terminal.{
  Screen, Console, cursor_position, cell_at, terminal_width, terminal_height, blank, set_cell,
}
use kernel_from_scratch.Terminal.Display.{show_cursor}
use kernel_from_scratch.Terminal.Put.{
  put_cell, move_screen_up, make_room, blank_line, end_line, put_newline,
}
use kernel_from_scratch.Terminal.Cells.{
  Filled, Filled-step, cell_at-move_screen_up, fields-move_screen_up,
}
use kernel_from_scratch.Terminal.Scroll.{aligned, screen-align_scroll_to_cursor}
use kernel_from_scratch.Terminal.Advance.{IsValid, Redrawn, Redrawn-trans}

-- `t` is `s` behind a newline: the cursor is at the start of the next line, the cells before it
-- stay, and those from it to the end of its line are blank. On the last line the first line is
-- lost.
pub record Newline (s t : Screen) : Type 0 where
  pub lost : ℕ
  pub column : t.cursor_x ≡ 0
  pub row : t.cursor_y * terminal_width + lost ≡ (s.cursor_y + 1) * terminal_width
  pub kept : (q : ℕ) → q + lost < cursor_position s → cell_at t q ≡ cell_at s (q + lost)
  pub blanked :
      (q : ℕ)
      → cursor_position s ≤ q + lost
      → q + lost < (s.cursor_y + 1) * terminal_width
      → cell_at t q ≡ blank s
  pub lost_rows : (lost ≡ 0) ⊎ (lost ≡ terminal_width) × (s.cursor_y ≡ terminal_height - 1)
  pub valid : IsValid t
  pub rest : Redrawn s t

blank_line-Filled :
    (c : Console) → c.cursor_x ≤ 80 → Filled c.cursor_y c.cursor_x c.screen 80 (blank_line c).screen
unfolding blank_line put_cell
blank_line-Filled c h =
    for_loop_inv (λ k d. Filled c.cursor_y c.cursor_x c.screen k d.screen) _ (80 - c.cursor_x)
      c.cursor_x 80 c (omega arith)
      (λ k d a b f.
        subst
          (λ y.
            Filled c.cursor_y c.cursor_x c.screen (k + 1) (set_cell y k (blank d.screen) d.screen))
          (sym (ap (λ (u : Screen). u.cursor_y) f.rest)) (Filled-step a f))
      (record { rest = refl; filled = λ r k. ground arith })

-- The line is blanked and the cursor put at the start of the next one.
abbrev ended : Screen → Screen
ended u = record u {
  cursor_x = 0;
  cursor_y = u.cursor_y + 1;
  scroll_y = aligned u.scroll_y (u.cursor_y + 1);
}

finish_line :
    (c : Console)
    → IsValid c.screen
    → c.cursor_y + 1 < 35
    → Newline c.screen (ended (blank_line c).screen)
unfolding cursor_position cell_at
finish_line c v h =
    let f = blank_line-Filled c (omega arith) in
    let y : (blank_line c).screen.cursor_y ≡ c.cursor_y = ap (λ (u : Screen). u.cursor_y) f.rest in
    let z : (blank_line c).screen.scroll_y ≡ c.scroll_y = ap (λ (u : Screen). u.scroll_y) f.rest in
    record {
      lost = 0;
      column = refl;
      row = omega arith;
      kept = λ q lt.
          let same : q + 0 ≡ q = omega arith in
          rw same (ground (arith, f.filled (q / 80) (q % 80)));
      blanked = λ q a b. ground (arith, f.filled (q / 80) (q % 80));
      lost_rows = inl refl;
      valid = record { column = omega arith; row = omega arith; scroll = omega arith };
      rest =
          ap
            (λ (u : Screen). record u {
              cursor_x = 0;
              cursor_y = (blank_line c).screen.cursor_y + 1;
              scroll_y =
                  aligned (blank_line c).screen.scroll_y ((blank_line c).screen.cursor_y + 1);
            })
            f.rest;
    }

-- On its last line the screen moves up by a row, and the cursor with it.
module _ (s : Screen) (v : IsValid s) (last : s.cursor_y ≡ 34) where
  fields_up :
      move_screen_up s ≡ record s { cursor_y = s.cursor_y - 1; cells = (move_screen_up s).cells }
  fields_up = fields-move_screen_up s (omega arith) (omega arith)

  row-move_screen_up : (move_screen_up s).cursor_y ≡ 33
  row-move_screen_up = omega (arith, ap (λ (u : Screen). u.cursor_y) fields_up)

  Redrawn-move_screen_up : Redrawn s (move_screen_up s)
  Redrawn-move_screen_up = fields_up ∙ (λ i. record s {
    cursor_x = (sym fields_up i).cursor_x;
    cursor_y = (sym fields_up i).cursor_y;
    scroll_y = (sym fields_up i).scroll_y;
    cells = (move_screen_up s).cells;
  })

  move_screen_up-IsValid : IsValid (move_screen_up s)
  move_screen_up-IsValid =
      subst IsValid (sym fields_up)
        (record { column = v.column; row = omega (arith, v.row); scroll = v.scroll })

-- The same behind the move of the whole screen.
move_first :
    (s t : Screen) → IsValid s → s.cursor_y ≡ 34 → Newline (move_screen_up s) t → Newline s t
unfolding cursor_position
move_first s t v last n =
    let fields = fields-move_screen_up s (omega arith) (omega arith) in
    let x' : (move_screen_up s).cursor_x ≡ s.cursor_x = ap (λ (u : Screen). u.cursor_x) fields in
    let y' : (move_screen_up s).cursor_y ≡ s.cursor_y - 1 =
      ap (λ (u : Screen). u.cursor_y) fields in
    let colors : blank (move_screen_up s) ≡ blank s = ap blank fields in
    let none_lost : n.lost ≡ 0 = ground (arith, n.lost_rows) in
    record {
      lost = 80;
      column = n.column;
      row = omega arith;
      kept = λ q lt.
          let same : q + n.lost ≡ q = omega arith in
          n.kept q (omega arith)
          ∙ rw same
              (cell_at-move_screen_up s q (omega arith) ∙ rw (lt→ltb (q + 80) 2800 (omega arith)));
      blanked = λ q a b. n.blanked q (omega arith) (omega arith) ∙ colors;
      lost_rows = inr (refl, last);
      valid = n.valid;
      rest = Redrawn-trans s (move_screen_up s) t (Redrawn-move_screen_up s v last) n.rest;
    }

screen-end_line :
    (c : Console) → c.cursor_y < 34 → c.scroll_y ≤ 10 → (end_line c).screen ≡ ended c.screen
unfolding end_line show_cursor
screen-end_line c h k =
    let next : (c.cursor_y + 1) % 2 ^ 16 ≡ c.cursor_y + 1 = omega arith in
    rw next (screen-align_scroll_to_cursor _ (omega arith) (omega arith))

Newline-in_room :
    (c : Console)
    → IsValid c.screen
    → c.cursor_y < 34
    → Newline c.screen (end_line (blank_line c)).screen
Newline-in_room c v h =
    let f = blank_line-Filled c (omega arith) in
    let y : (blank_line c).screen.cursor_y ≡ c.cursor_y = ap (λ (u : Screen). u.cursor_y) f.rest in
    let z : (blank_line c).screen.scroll_y ≡ c.scroll_y = ap (λ (u : Screen). u.scroll_y) f.rest in
    rw (screen-end_line (blank_line c) (omega arith) (omega arith)) (finish_line c v (omega arith))

-- A newline from any valid screen puts the cursor at the start of the next line, keeps the cells
-- before the cursor, and blanks those from it to the end of its line; the first line is lost
-- only if the cursor was on the last line.
pub put_newline-Newline : (c : Console) → IsValid c.screen → Newline c.screen (put_newline c).screen
unfolding put_newline make_room
put_newline-Newline c v = elim (Bool-cases (leb terminal_height (c.cursor_y + 1))) [
  | inl full ↦
      let last : c.cursor_y ≡ 34 = ground arith in
      rw full (
        move_first c.screen _ v last (
          Newline-in_room (record c { screen = move_screen_up c.screen })
            (move_screen_up-IsValid c.screen v last)
            (omega (arith, row-move_screen_up c.screen v last))))
  | inr room ↦ rw room (Newline-in_room c v (ground arith))
]
