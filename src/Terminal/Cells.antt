-- ===== src/Terminal/Cells.antt =====
-- terminal.c: the cells of a screen by their position, as `cell_at` reads them, under each write.
use kernel_from_scratch.Prelude.{
  ℕ, ◌+◌, ◌-◌, ◌*◌, ◌/◌, ◌%◌, ◌≤◌, ◌<◌, ◌^◌, ◌≡◌, refl, ◌∙◌, ap, arith, ◌&&◌, ltb, leb, ◌==◌,
  if◌then◌else◌, for_loop, for_loop_inv,
}
use kernel_from_scratch.Terminal.{Cell, Screen, terminal_width, blank, set_cell, cell_at}
use kernel_from_scratch.Terminal.Put.{move_rows_up, move_screen_up}

-- The number of cells of a screen.
abbrev pub terminal_cells : ℕ
terminal_cells = 2800

abbrev pub with_cells : Screen → (ℕ → ℕ → Cell) → Screen
with_cells s f = record s { cells = f }

pub cell_at-set_cell :
    (s : Screen) (y x q : ℕ) (v : Cell)
    → x < terminal_width
    → cell_at (set_cell y x v s) q ≡ (if q == y * terminal_width + x then v else cell_at s q)
unfolding cell_at
cell_at-set_cell s y x q v hx = ground arith

-- A loop that writes blanks in row `y`, from column `i` on.
pub record Filled (y i : ℕ) (s : Screen) (j : ℕ) (t : Screen) : Type 0 where
  pub rest : t ≡ with_cells s t.cells
  pub filled :
      (r k : ℕ) → t.cells r k ≡ (if r == y && leb i k && ltb k j then blank s else s.cells r k)

pub Filled-step :
    {y i k : ℕ} {s t : Screen}
    → i ≤ k
    → Filled y i s k t
    → Filled y i s (k + 1) (set_cell y k (blank t) t)
Filled-step {y} {i} {k} {s} {t} a h = record {
  rest = ap (λ u. with_cells u (set_cell y k (blank t) t).cells) h.rest;
  filled = λ r j.
      let colors : blank t ≡ blank s = ap blank h.rest in let before = h.filled r j in ground arith;
}

pub fill_row :
    (y i n : ℕ) (s : Screen)
    → Filled y i s (i + n) (for_loop n i (λ x t. set_cell y x (blank t) t) s)
fill_row y i n s =
    for_loop_inv (Filled y i s) _ n i (i + n) s refl (λ k t a b h. Filled-step a h)
      (record { rest = refl; filled = λ r k. ground arith })

-- The screen moves up by a row: each cell takes the one below it, and the last row is blank.
pub cell_at-move_screen_up :
    (s : Screen) (q : ℕ)
    → q < terminal_cells
    → cell_at (move_screen_up s) q ≡ (
        if ltb (q + terminal_width) terminal_cells then cell_at s (q + terminal_width) else blank s)
unfolding cell_at move_screen_up move_rows_up
cell_at-move_screen_up s q h =
    let row : (q + terminal_width) / terminal_width ≡ q / terminal_width + 1 = omega arith in
    let column : (q + terminal_width) % terminal_width ≡ q % terminal_width = omega arith in
    let after =
      (fill_row 34 0 80 (move_rows_up s)).filled (q / terminal_width) (q % terminal_width) in
    ground arith

pub fields-move_screen_up :
    (s : Screen)
    → 0 < s.cursor_y
    → s.cursor_y < 2 ^ 16
    → move_screen_up s ≡ record s { cursor_y = s.cursor_y - 1; cells = (move_screen_up s).cells }
unfolding move_screen_up move_rows_up
fields-move_screen_up s lo hi =
    ap (λ (t : Screen). record t { cursor_y = (t.cursor_y + 2 ^ 16 - 1) % 2 ^ 16 })
      (fill_row 34 0 80 (move_rows_up s)).rest
    ∙ ap (λ n. record s { cursor_y = n; cells = (move_screen_up s).cells }) (omega arith)
