-- ===== src/Terminal/LastLine.antt =====
-- terminal.c: a newline printed on the last line of a screen that is scrolled to its end.
use kernel_from_scratch.Prelude.{
  ℕ, zero, suc, ◌+◌, ◌-◌, ◌*◌, ◌≤◌, ◌<◌, ◌≡◌, refl, ap, ◌∙◌, arith, true, false, leb, for_loop_inv,
}
use kernel_from_scratch.Machine.{get_position, vga_set_cell, vga_put_cursor, outb}
use kernel_from_scratch.Terminal.{Screen, Console, cell_at, cursor_position}
use kernel_from_scratch.Terminal.Display.{
  y_to_vga, show_cursor, is_cursor_above_visible, is_cursor_below_visible, scroll_up_while_above,
  scroll_down_while_below, align_scroll_to_cursor,
}
use kernel_from_scratch.Terminal.Put.{
  put_cell, make_room, blank_line, end_line, put_newline, move_screen_up,
}
use kernel_from_scratch.Terminal.Advance.{IsValid}
use kernel_from_scratch.Terminal.Cells.{fields-move_screen_up}
use kernel_from_scratch.Terminal.Newline.{put_newline-Newline}
use kernel_from_scratch.Terminal.Shown.{Shown, code_of}

scroll_up_while_above_fixed :
    (fuel : ℕ) (c : Console)
    → is_cursor_above_visible c.screen ≡ false
    → scroll_up_while_above fuel c ≡ c
unfolding scroll_up_while_above
scroll_up_while_above_fixed zero c h = refl
scroll_up_while_above_fixed (suc fuel) c h = ground arith

scroll_down_while_below_fixed :
    (fuel : ℕ) (c : Console)
    → is_cursor_below_visible c.screen ≡ false
    → scroll_down_while_below fuel c ≡ c
unfolding scroll_down_while_below
scroll_down_while_below_fixed zero c h = refl
scroll_down_while_below_fixed (suc fuel) c h = ground arith

-- With the cursor on a visible row nothing is scrolled or drawn.
pub align_scroll_to_cursor_fixed :
    (c : Console)
    → c.scroll_y ≤ c.cursor_y
    → c.cursor_y < c.scroll_y + 25
    → align_scroll_to_cursor c ≡ c
unfolding align_scroll_to_cursor is_cursor_above_visible is_cursor_below_visible
align_scroll_to_cursor_fixed c lo hi =
    rw (scroll_up_while_above_fixed c.scroll_y c (ground arith))
      (scroll_down_while_below_fixed c.cursor_y c (ground arith))

-- Only the row of the cursor is written.
blank_line_vga :
    (c : Console) (p : ℕ)
    → c.cursor_y ≡ 33
    → c.scroll_y ≡ 10
    → c.cursor_x < 80
    → p < 1840
    → ((blank_line c).screen.cursor_y ≡ 33)
      × ((blank_line c).screen.scroll_y ≡ 10)
      × ((blank_line c).machine.vga p ≡ c.machine.vga p)
unfolding blank_line put_cell y_to_vga vga_set_cell get_position
blank_line_vga c p y z x h =
    for_loop_inv
      (λ k d.
        (d.screen.cursor_y ≡ 33) × (d.screen.scroll_y ≡ 10) × (d.machine.vga p ≡ c.machine.vga p))
      _ (80 - c.cursor_x) c.cursor_x 80 c (omega arith)
      (λ k d lo hi (a, b, e). (a, b, ground arith)) (y, z, refl)

end_line_vga :
    (c : Console) → c.cursor_y ≡ 33 → c.scroll_y ≡ 10 → (end_line c).machine.vga ≡ c.machine.vga
unfolding end_line show_cursor vga_put_cursor outb
end_line_vga c y z =
    ap (λ (d : Console). d.machine.vga) (align_scroll_to_cursor_fixed _ (omega arith) (omega arith))

put_newline_vga :
    (c : Console) (p : ℕ)
    → IsValid c.screen
    → c.cursor_y ≡ 34
    → c.scroll_y ≡ 10
    → p < 1840
    → (put_newline c).machine.vga p ≡ c.machine.vga p
unfolding put_newline make_room
put_newline_vga c p v y z h =
    let full : leb 35 (c.cursor_y + 1) ≡ true = ground arith in
    let c' : Console = record c { screen = move_screen_up c.screen } in
    let fields = fields-move_screen_up c.screen (omega arith) (omega arith) in
    let (y', z', e) =
      blank_line_vga c' p (omega (arith, ap (λ (u : Screen). u.cursor_y) fields))
        (omega (arith, ap (λ (u : Screen). u.scroll_y) fields))
        (omega (arith, ap (λ (u : Screen). u.cursor_x) fields, v.column)) h in
    rw full (ap (λ (f : ℕ → ℕ). f p) (end_line_vga (blank_line c') y' z') ∙ e)

-- A newline on the last line of a valid screen that is scrolled to its end moves the cells of the
-- screen up by a row, and leaves the first 23 rows of the VGA page as they were: where the page
-- showed the screen before, each of those rows now shows the row above the one it should.
pub put_newline_stale :
    (c : Console) (p : ℕ)
    → IsValid c.screen
    → c.cursor_y ≡ 34
    → c.scroll_y ≡ 10
    → Shown c.screen c.machine
    → p < 23 * 80
    → ((put_newline c).machine.vga p ≡ code_of (cell_at c.screen (800 + p)))
      × (cell_at (put_newline c).screen (800 + p) ≡ cell_at c.screen (800 + p + 80))
unfolding cursor_position
put_newline_stale c p v y z shown h =
    let n = put_newline-Newline c v in
    let moved : n.lost ≡ 80 = omega (arith, n.row, n.valid.row) in
    let first : c.scroll_y * 80 + p ≡ 800 + p = omega arith in
    let sum : 800 + p + n.lost ≡ 800 + p + 80 = omega arith in
    (
      put_newline_vga c p v y z h
          ∙ shown p (omega arith)
          ∙ ap (λ q. code_of (cell_at c.screen q)) first,
      n.kept (800 + p) (omega arith) ∙ ap (cell_at c.screen) sum,
    )
