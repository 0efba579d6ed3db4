-- ===== src/Terminal/Advance.antt =====
-- terminal.c: validity of a screen, and the cursor's way from cell to cell.
use kernel_from_scratch.Prelude.{
  ℕ, ◌+◌, ◌-◌, ◌*◌, ◌%◌, ◌≤◌, ◌<◌, ◌≡◌, ◌⊎◌, inl, inr, refl, sym, ◌∙◌, ap, lt→ltb, arith,
}
use kernel_from_scratch.Machine.{vga_height}
use kernel_from_scratch.Terminal.{
  Cell, Screen, terminal_width, terminal_height, cursor_position, cell_at,
}
use kernel_from_scratch.Terminal.Put.{move_screen_up, advance}
use kernel_from_scratch.Terminal.Cells.{cell_at-move_screen_up, fields-move_screen_up}

-- The cursor is on the screen, and the visible rows are rows of the screen.
pub record IsValid (s : Screen) : Type 0 where
  pub column : s.cursor_x < terminal_width
  pub row : s.cursor_y < terminal_height
  pub scroll : s.scroll_y + vga_height ≤ terminal_height

-- The cell that `putc` writes for a character.
abbrev pub glyph : Screen → ℕ → Cell
glyph s ch = record { character = ch % 256; fg_color = s.fg_color; bg_color = s.bg_color }

-- `t` differs from `s` in its cells, its cursor and its scroll position only.
abbrev pub Redrawn : Screen → Screen → Type 0
Redrawn s t = t ≡ record s {
  cursor_x = t.cursor_x;
  cursor_y = t.cursor_y;
  scroll_y = t.scroll_y;
  cells = t.cells;
}

pub Redrawn-trans : (s t u : Screen) → Redrawn s t → Redrawn t u → Redrawn s u
Redrawn-trans s t u a b =
    b
    ∙ ap
        (λ (w : Screen). record w {
          cursor_x = u.cursor_x;
          cursor_y = u.cursor_y;
          scroll_y = u.scroll_y;
          cells = u.cells;
        })
        a

-- The cursor of `t` is one cell further than that of `s`.
pub record Advanced (s t : Screen) : Type 0 where
  pub lost : ℕ
  pub position : cursor_position t + lost ≡ cursor_position s + 1
  pub last_line : (lost ≡ 0) ⊎ ((terminal_height - 1) * terminal_width ≤ cursor_position t)
  pub kept : (q : ℕ) → q < cursor_position t → cell_at t q ≡ cell_at s (q + lost)
  pub column : t.cursor_x < terminal_width
  pub row : t.cursor_y < terminal_height
  pub scroll : t.scroll_y ≡ s.scroll_y
  pub rest : Redrawn s t

Advanced-in_line :
    (s : Screen)
    → IsValid s
    → s.cursor_x + 1 < 80
    → Advanced s (record s { cursor_x = s.cursor_x + 1 })
unfolding cursor_position cell_at
Advanced-in_line s v h = record {
  lost = 0;
  position = omega arith;
  last_line = inl refl;
  kept = λ q lt. ap (cell_at s) (omega arith);
  column = h;
  row = v.row;
  scroll = refl;
  rest = refl;
}

Advanced-to_line :
    (s : Screen)
    → s.cursor_x ≡ 79
    → s.cursor_y + 1 < 35
    → Advanced s (record s { cursor_x = 0; cursor_y = s.cursor_y + 1 })
unfolding cursor_position cell_at
Advanced-to_line s x y = record {
  lost = 0;
  position = omega arith;
  last_line = inl refl;
  kept = λ q lt. ap (cell_at s) (omega arith);
  column = omega arith;
  row = y;
  scroll = refl;
  rest = refl;
}

Advanced-off :
    (s : Screen)
    → s.cursor_x ≡ 79
    → s.cursor_y ≡ 34
    → Advanced s (move_screen_up (record s { cursor_x = 0; cursor_y = 35 }))
unfolding cursor_position cell_at
Advanced-off s x y =
    let fields =
      fields-move_screen_up (record s { cursor_x = 0; cursor_y = 35 }) (omega arith)
        (omega arith) in
    let x' = ap (λ (t : Screen). t.cursor_x) fields in
    let y' = ap (λ (t : Screen). t.cursor_y) fields in
    let scroll' = ap (λ (t : Screen). t.scroll_y) fields in
    record {
      lost = 80;
      position = omega arith;
      last_line = inr (omega arith);
      kept = λ q lt.
          cell_at-move_screen_up (record s { cursor_x = 0; cursor_y = 35 }) q (omega arith)
          ∙ rw (lt→ltb (q + 80) 2800 (omega arith));
      column = omega arith;
      row = omega arith;
      scroll = scroll';
      rest = fields ∙ (λ i. record s {
        cursor_x = sym x' i;
        cursor_y = sym y' i;
        scroll_y = sym scroll' i;
        cells = (move_screen_up (record s { cursor_x = 0; cursor_y = 35 })).cells;
      });
    }

-- What `advance` does, by the place of the cursor.
advance_lem :
    (s : Screen)
    → IsValid s
    → (advance s ≡ record s { cursor_x = s.cursor_x + 1 }) × (s.cursor_x + 1 < 80)
      ⊎ (advance s ≡ record s { cursor_x = 0; cursor_y = s.cursor_y + 1 })
        × (s.cursor_x ≡ 79)
        × (s.cursor_y + 1 < 35)
      ⊎ (advance s ≡ move_screen_up (record s { cursor_x = 0; cursor_y = 35 }))
        × (s.cursor_x ≡ 79)
        × (s.cursor_y ≡ 34)
unfolding advance
advance_lem s v = ground arith

pub advance-Advanced : (s : Screen) → IsValid s → Advanced s (advance s)
advance-Advanced s v = elim (advance_lem s v) [
  | inl (e, h) ↦ rw e (Advanced-in_line s v h)
  | inr (inl (e, x, y)) ↦ rw e (Advanced-to_line s x y)
  | inr (inr (e, x, y)) ↦ rw e (Advanced-off s x y)
]
