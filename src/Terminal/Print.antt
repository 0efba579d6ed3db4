-- ===== src/Terminal/Print.antt =====
-- terminal.c: what printing characters does to the cells and to the cursor of a screen.
use mathlib.Core.Path.{subst}
use kernel_from_scratch.Prelude.{
  ℕ, ◌+◌, ◌-◌, ◌*◌, ◌≤◌, ◌<◌, ◌≡◌, ◌≢◌, ◌⊎◌, inl, refl, sym, ◌∙◌, ap, lt→ltb, arith, false, ltb,
  if◌then◌else◌, List, [], ◌∷◌, length, get_or, get_or-cons, map,
}
use kernel_from_scratch.Terminal.{
  Cell, Screen, Console, terminal_width, terminal_height, blank, set_cell, cursor_position, cell_at,
}
use kernel_from_scratch.Terminal.Display.{put_screen, show_cursor}
use kernel_from_scratch.Terminal.Put.{put_cell, advance, put_glyph, newline, putc, put_chars}
use kernel_from_scratch.Terminal.Cells.{cell_at-set_cell}
use kernel_from_scratch.Terminal.Scroll.{scrolled, aligned, screen-align_scroll_to_cursor}
use kernel_from_scratch.Terminal.Advance.{
  IsValid, glyph, Redrawn, Redrawn-trans, Advanced, advance-Advanced,
}

-- `t` is `s` with `gs` printed at the cursor: `lost` cells have left the screen at its top, which
-- takes that the cursor has come to the last line.
pub record Printed (s : Screen) (gs : List Cell) (t : Screen) : Type 0 where
  pub lost : ℕ
  pub position : cursor_position t + lost ≡ cursor_position s + length gs
  pub last_line : (lost ≡ 0) ⊎ ((terminal_height - 1) * terminal_width ≤ cursor_position t)
  pub cells :
      (q : ℕ)
      → q < cursor_position t
      → cell_at t q ≡ (
          if ltb (q + lost) (cursor_position s)
          then cell_at s (q + lost)
          else get_or gs (q + lost - cursor_position s) (blank s))
  pub valid : IsValid t
  pub rest : Redrawn s t

set_cell-IsValid : {s : Screen} (y x : ℕ) (g : Cell) → IsValid s → IsValid (set_cell y x g s)
set_cell-IsValid y x g v = record { column = v.column; row = v.row; scroll = v.scroll }

screen-put_glyph :
    (ch : ℕ) (c : Console)
    → IsValid c.screen
    → let t = advance (set_cell c.cursor_y c.cursor_x (glyph c.screen ch) c.screen) in
      (put_glyph ch c).screen ≡ scrolled t (aligned t.scroll_y t.cursor_y)
unfolding put_glyph put_screen show_cursor put_cell
screen-put_glyph ch c v =
    let a =
      advance-Advanced (set_cell c.cursor_y c.cursor_x (glyph c.screen ch) c.screen)
        (set_cell-IsValid c.cursor_y c.cursor_x (glyph c.screen ch) v) in
    screen-align_scroll_to_cursor _ (omega (arith, a.scroll)) (omega (arith, a.row))

-- The cell at the cursor, behind a write there.
cells_glyph :
    (s : Screen) (g : Cell) (q : ℕ)
    → IsValid s
    → q < cursor_position s + 1
    → cell_at (set_cell s.cursor_y s.cursor_x g s) q ≡ (
        if ltb q (cursor_position s)
        then cell_at s q
        else get_or (g ∷ []) (q - cursor_position s) (blank s))
unfolding cursor_position
cells_glyph s g q v lt =
    let index : (ltb q (cursor_position s) ≡ false) → q - cursor_position s ≡ 0 =
      λ h. ground arith in
    ground (arith, index, cell_at-set_cell s s.cursor_y s.cursor_x q g v.column)

Printed-glyph :
    (s t : Screen) (g : Cell)
    → IsValid s
    → Advanced (set_cell s.cursor_y s.cursor_x g s) t
    → Printed s (g ∷ []) (scrolled t (aligned t.scroll_y t.cursor_y))
unfolding cursor_position cell_at
Printed-glyph s t g v a = record {
  lost = a.lost;
  position = omega (arith, a.position);
  last_line = a.last_line;
  cells = λ q lt. a.kept q lt ∙ cells_glyph s g (q + a.lost) v (omega (arith, a.position));
  valid = record { column = a.column; row = a.row; scroll = omega (arith, a.scroll, a.row) };
  rest = ap (λ u. scrolled u (aligned t.scroll_y t.cursor_y)) a.rest;
}

pub put_glyph-Printed :
    (ch : ℕ) (c : Console)
    → IsValid c.screen
    → Printed c.screen (glyph c.screen ch ∷ []) (put_glyph ch c).screen
put_glyph-Printed ch c v =
    let s = set_cell c.cursor_y c.cursor_x (glyph c.screen ch) c.screen in
    rw (screen-put_glyph ch c v) (
      Printed-glyph c.screen (advance s) (glyph c.screen ch) v
        (advance-Advanced s (set_cell-IsValid c.cursor_y c.cursor_x (glyph c.screen ch) v)))

Printed-nil : (s : Screen) → IsValid s → Printed s [] s
Printed-nil s v = record {
  lost = 0;
  position = omega arith;
  last_line = inl refl;
  cells =
      λ q lt. let same : q + 0 ≡ q = omega arith in rw same (rw (lt→ltb q (cursor_position s) lt));
  valid = v;
  rest = refl;
}

Printed-cons :
    {s t u : Screen} {g : Cell} {gs : List Cell}
    → Printed s (g ∷ []) t
    → Printed t gs u
    → Printed s (g ∷ gs) u
Printed-cons {s} {t} {u} {g} {gs} a b = record {
  lost = a.lost + b.lost;
  position = omega (arith, a.position, b.position);
  last_line = ground arith;
  cells = λ q lt.
      let colors : blank t ≡ blank s = ap blank a.rest in
      let sum : q + b.lost + a.lost ≡ q + (a.lost + b.lost) = omega arith in
      let index : q + b.lost - cursor_position t ≡ q + (a.lost + b.lost) - cursor_position s - 1 =
        omega (arith, a.position) in
      ground (
        arith,
        a.position,
        b.position,
        b.cells q lt,
        a.cells (q + b.lost),
        get_or-cons g [] (q + b.lost + a.lost - cursor_position s) (blank s),
        get_or-cons g gs (q + (a.lost + b.lost) - cursor_position s) (blank s),
      );
  valid = b.valid;
  rest = Redrawn-trans s t u a.rest b.rest;
}

-- No character of the list is a newline.
abbrev pub NoNewline : List ℕ → Type 0
NoNewline [] = Unit
NoNewline (ch ∷ chs) = (ch ≢ newline) × NoNewline chs

pub putc-put_glyph : (ch : ℕ) (c : Console) → ch ≢ newline → putc ch c ≡ put_glyph ch c
unfolding putc
putc-put_glyph ch c ne = ground arith

-- Characters other than newlines that are printed one after the other on a valid screen stand in
-- its cells from the cursor on, over line ends, with the cursor behind them: the cells before keep
-- their content, and only what leaves the screen at its top is lost, which takes that the cursor
-- has come to the last line.
pub put_chars-Printed :
    (chs : List ℕ) (c : Console)
    → NoNewline chs
    → IsValid c.screen
    → Printed c.screen (map (glyph c.screen) chs) (put_chars chs c).screen
unfolding put_chars
put_chars-Printed [] c _ v = Printed-nil c.screen v
put_chars-Printed (ch ∷ chs) c (ne, more) v =
    let first = put_glyph-Printed ch c v in
    let next = put_chars-Printed chs (put_glyph ch c) more first.valid in
    let colors : map (glyph (put_glyph ch c).screen) chs ≡ map (glyph c.screen) chs =
      ap (λ s. map (glyph s) chs) first.rest in
    subst (λ d. Printed c.screen (map (glyph c.screen) (ch ∷ chs)) (put_chars chs d).screen)
      (sym (putc-put_glyph ch c ne))
      (Printed-cons first (
        subst (λ gs. Printed (put_glyph ch c).screen gs (put_chars chs (put_glyph ch c)).screen)
          colors next))
