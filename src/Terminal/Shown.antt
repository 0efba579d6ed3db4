-- ===== src/Terminal/Shown.antt =====
-- terminal.c: what the VGA memory shows. A screen is shown if the 25 x 80 cells of the text page
-- hold the visible rows of the screen.
use mathlib.Core.Path.{ap₂, subst}
use kernel_from_scratch.Prelude.{
  ℕ, ◌+◌, ◌*◌, ◌/◌, ◌%◌, ◌≤◌, ◌<◌, ◌≡◌, ◌≢◌, refl, sym, arith, true, false, ◌&&◌, leb, ltb, ◌==◌,
  if◌then◌else◌, for_loop, for_loop_inv,
}
use kernel_from_scratch.Machine.{
  Machine, get_cell, get_position, vga_set_cell, vga_put_cursor, outb, vga_height, vga_width,
}
use kernel_from_scratch.Terminal.{
  Cell, Screen, Console, terminal_screen_count, cell_at, terminal_width,
}
use kernel_from_scratch.Terminal.Display.{draw_cell, put_screen, show_cursor}
use kernel_from_scratch.Terminal.Put.{put_glyph, putc, newline}
use kernel_from_scratch.Terminal.Print.{putc-put_glyph}
use kernel_from_scratch.Terminal.Screens.{Terminal, terminal_switch_screen, set_up}

-- The VGA cell that shows a cell of the screen.
abbrev pub code_of : Cell → ℕ
code_of cell = get_cell cell.character cell.fg_color cell.bg_color

abbrev pub Shown : Screen → Machine → Type 0
Shown s m =
    (p : ℕ)
    → p < vga_height * vga_width
    → m.vga p ≡ code_of (cell_at s (s.scroll_y * terminal_width + p))

-- The cell at position `p` of the page.
abbrev shown_code : Screen → ℕ → ℕ
shown_code s p = code_of (s.cells (s.scroll_y + p / 80) (p % 80))

draw_cell_lem :
    (s : Screen) (x y : ℕ) (m : Machine) (p : ℕ)
    → x < 80
    → s.scroll_y ≤ y
    → y < s.scroll_y + 25
    → (draw_cell s x y m).vga p
      ≡ (if (p % 80 == x) && (s.scroll_y + p / 80 == y) then shown_code s p else m.vga p)
unfolding draw_cell vga_set_cell get_position
draw_cell_lem s x y m p hx lo hi = ground arith

-- The columns before `x` and, in column `x`, the rows before `y` are drawn.
abbrev Drawn : Screen → Machine → ℕ → ℕ → Machine → Type 0
Drawn s m x y m' =
    (p : ℕ)
    → m'.vga p ≡ (if (p % 80 == x) && ltb (s.scroll_y + p / 80) y then shown_code s p else m.vga p)

draw_column :
    (s : Screen) (x : ℕ) (m : Machine)
    → x < 80
    → Drawn s m x (s.scroll_y + 25) (for_loop 25 s.scroll_y (λ y. draw_cell s x y) m)
draw_column s x m hx =
    for_loop_inv (λ y m'. Drawn s m x y m') (λ y. draw_cell s x y) 25 s.scroll_y (s.scroll_y + 25) m
      refl (λ y m' lo hi h p. ground (arith, draw_cell_lem s x y m' p, h p)) (λ p. ground arith)

screen-put_screen : (c : Console) → (put_screen c).screen ≡ c.screen
unfolding put_screen
screen-put_screen c = refl

pub put_screen-vga :
    (c : Console) (p : ℕ)
    → (put_screen c).machine.vga p ≡ (if ltb p 2000 then shown_code c.screen p else c.machine.vga p)
unfolding put_screen
put_screen-vga c p =
    let drawn =
      for_loop_inv
        (λ x m.
          (p : ℕ)
          → m.vga p ≡ (
              if ltb (p % 80) x && ltb (p / 80) 25 then shown_code c.screen p else c.machine.vga p))
        (λ x m. for_loop 25 c.scroll_y (λ y. draw_cell c.screen x y) m) 80 0 80 c.machine refl
        (λ x m lo hi h p. ground (arith, draw_column c.screen x m hi p, h p)) (λ p. ground arith) in
    ground (arith, drawn p)

cell_at-visible :
    (s : Screen) (p : ℕ) → cell_at s (s.scroll_y * 80 + p) ≡ s.cells (s.scroll_y + p / 80) (p % 80)
unfolding cell_at
cell_at-visible s p = ap₂ s.cells (omega arith) (omega arith)

-- `put_screen` draws the visible rows of the screen.
pub put_screen-Shown : (c : Console) → Shown (put_screen c).screen (put_screen c).machine
put_screen-Shown c p h =
    rw (screen-put_screen c, cell_at-visible c.screen p) (ground (arith, put_screen-vga c p))

pub show_cursor-Shown :
    (c : Console) → Shown c.screen c.machine → Shown (show_cursor c).screen (show_cursor c).machine
unfolding show_cursor vga_put_cursor outb
show_cursor-Shown c h = h

-- Behind `putc` of any character but a newline the VGA page shows the visible rows of the screen,
-- whatever it showed before.
pub putc-Shown :
    (ch : ℕ) (c : Console) → ch ≢ newline → Shown (putc ch c).screen (putc ch c).machine
unfolding put_glyph
putc-Shown ch c ne =
    subst (λ d. Shown d.screen d.machine) (sym (putc-put_glyph ch c ne)) (put_screen-Shown _)

-- Behind `terminal_switch_screen` with an index below 10 the current screen is the one of that index,
-- the VGA page shows its visible rows, whatever it showed before, and every other screen is as
-- before.
pub terminal_switch_screen-Shown :
    (index other : ℕ) (t : Terminal)
    → index < terminal_screen_count
    → other ≢ index
    → let t' = terminal_switch_screen index t in
      (t'.terminal_index ≡ index)
      × Shown (t'.screens index) t'.machine
      × (t'.screens other ≡ t.screens other)
unfolding terminal_switch_screen
terminal_switch_screen-Shown index other t h ne =
    let small : leb terminal_screen_count index ≡ false = ground arith in
    let itself : (index == index) ≡ true = ground arith in
    let apart : (other == index) ≡ false = ground arith in
    let c : Console = record { screen = t.screens index; machine = t.machine } in
    rw (small, itself, apart)
      (refl, show_cursor-Shown (put_screen (set_up c)) (put_screen-Shown (set_up c)), refl)
