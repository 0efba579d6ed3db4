-- ===== src/Terminal/Frame.antt =====
-- terminal.c: what every operation on a screen leaves alone: the model of the hardware, so that what a
-- port gives at a read depends on the trace as it did before, and the screen's colors and the mark
-- that it was set up.
pub mod Input
use kernel_from_scratch.Prelude.{
  ℕ, zero, suc, ◌+◌, ◌-◌, ◌%◌, ◌^◌, ◌≡◌, refl, ap, ◌∙◌, arith, Bool, true, false, leb, ◌==◌,
  if◌then◌else◌, for_loop, for_loop_inv, lt8, List, [], ◌∷◌, codes,
}
use kernel_from_scratch.Machine.{
  Event, Machine, outb, inb, vga_set_cursor_visibility, vga_put_cursor, vga_set_cell,
}
use kernel_from_scratch.Terminal.{Cell, Screen, Console, blank, terminal_width, terminal_height}
use kernel_from_scratch.Terminal.Display.{
  draw_cell, put_screen, show_cursor, scroll_up, scroll_down, scroll_up_while_above,
  scroll_down_while_below, align_scroll_to_cursor, is_cursor_above_visible, is_cursor_below_visible,
}
use kernel_from_scratch.Terminal.Put.{
  move_screen_up, move_rows_up, move_cursor, put_cell, make_room, blank_line, end_line, put_newline,
  advance, put_glyph, putc, put_chars, put_prompt, newline,
}
use kernel_from_scratch.Terminal.Output.{
  to_input_end, to_line_start, prompt_if, terminal_begin_output, terminal_end_output,
  terminal_clear,
}

-- The part of a screen that its operations leave alone.
pub record Look : Type 0 where
  pub initialized : Bool
  pub fg_color : ℕ
  pub bg_color : ℕ

pub record Frame : Type 0 where
  pub device : List Event → ℕ → ℕ
  pub look : Look

abbrev pub look : Screen → Look
look s = record { initialized = s.initialized; fg_color = s.fg_color; bg_color = s.bg_color }

abbrev pub frame : Console → Frame
frame c = record { device = c.machine.device; look = look c.screen }

-- A loop whose rounds leave alone what is seen of the state.
for_loop-same {ℓ κ} :
    {S : Type ℓ} {A : Type κ} (see : S → A) (n i : ℕ) (body : ℕ → S → S) (s : S)
    → ((k : ℕ) (t : S) → see (body k t) ≡ see t)
    → see (for_loop n i body s) ≡ see s
for_loop-same see n i body s keep =
    for_loop_inv (λ k t. see t ≡ see s) body n i (i + n) s (omega arith) (λ k t a b e. keep k t ∙ e)
      refl

pub either-frame :
    (b : Bool) (c d e : Console)
    → frame d ≡ frame c
    → frame e ≡ frame c
    → frame (if b then d else e) ≡ frame c
either-frame true c d e h k = h
either-frame false c d e h k = k

draw_cell-device : (s : Screen) (x y : ℕ) (m : Machine) → (draw_cell s x y m).device ≡ m.device
unfolding draw_cell vga_set_cell
draw_cell-device s x y m = refl

pub put_screen-frame : (c : Console) → frame (put_screen c) ≡ frame c
unfolding put_screen
put_screen-frame c =
    ap (λ d. record { device = d; look = look c.screen })
      (for_loop-same (λ (m : Machine). m.device) terminal_width 0 _ c.machine
        (λ x m.
          for_loop-same (λ (m : Machine). m.device) _ c.screen.scroll_y _ m
            (λ y m. draw_cell-device c.screen x y m)))

pub show_cursor-frame : (c : Console) → frame (show_cursor c) ≡ frame c
unfolding show_cursor vga_put_cursor outb
show_cursor-frame c = refl

pub scroll_up-frame : (c : Console) → frame (scroll_up c) ≡ frame c
unfolding scroll_up
scroll_up-frame c = show_cursor-frame (put_screen _) ∙ put_screen-frame _

pub scroll_down-frame : (c : Console) → frame (scroll_down c) ≡ frame c
unfolding scroll_down
scroll_down-frame c = show_cursor-frame (put_screen _) ∙ put_screen-frame _

-- The two cases of a loop with fuel.
round-frame :
    (b : Bool) (c d e : Console)
    → frame d ≡ frame c
    → frame e ≡ frame c
    → frame (elim b [ true ↦ d | false ↦ e ]) ≡ frame c
round-frame true c d e h k = h
round-frame false c d e h k = k

scroll_up_while_above-frame :
    (fuel : ℕ) (c : Console) → frame (scroll_up_while_above fuel c) ≡ frame c
unfolding scroll_up_while_above
scroll_up_while_above-frame zero c = refl
scroll_up_while_above-frame (suc fuel) c =
    round-frame (is_cursor_above_visible c.screen) c _ c
      (scroll_up_while_above-frame fuel (scroll_up c) ∙ scroll_up-frame c) refl

scroll_down_while_below-frame :
    (fuel : ℕ) (c : Console) → frame (scroll_down_while_below fuel c) ≡ frame c
unfolding scroll_down_while_below
scroll_down_while_below-frame zero c = refl
scroll_down_while_below-frame (suc fuel) c =
    round-frame (is_cursor_below_visible c.screen) c _ c
      (scroll_down_while_below-frame fuel (scroll_down c) ∙ scroll_down-frame c) refl

align_scroll_to_cursor-frame : (c : Console) → frame (align_scroll_to_cursor c) ≡ frame c
unfolding align_scroll_to_cursor
align_scroll_to_cursor-frame c =
    scroll_down_while_below-frame c.screen.cursor_y _
    ∙ scroll_up_while_above-frame c.screen.scroll_y c

pub move_cursor-frame : (offset : ℕ) (c : Console) → frame (move_cursor offset c) ≡ frame c
unfolding move_cursor
move_cursor-frame offset c = show_cursor-frame _ ∙ align_scroll_to_cursor-frame _

pub put_cell-frame : (y x : ℕ) (g : Cell) (c : Console) → frame (put_cell y x g c) ≡ frame c
unfolding put_cell vga_set_cell
put_cell-frame y x g c = refl

look-move_screen_up : (s : Screen) → look (move_screen_up s) ≡ look s
unfolding move_screen_up move_rows_up
look-move_screen_up s = for_loop-same look terminal_width 0 _ (move_rows_up s) (λ x t. refl)

make_room-frame : (c : Console) → frame (make_room c) ≡ frame c
unfolding make_room
make_room-frame c =
    either-frame (leb terminal_height (c.screen.cursor_y + 1)) c _ c
      (ap (λ l. record { device = c.machine.device; look = l }) (look-move_screen_up c.screen)) refl

blank_line-frame : (c : Console) → frame (blank_line c) ≡ frame c
unfolding blank_line
blank_line-frame c =
    for_loop-same frame (terminal_width - c.screen.cursor_x) c.screen.cursor_x _ c
      (λ x d. put_cell-frame d.screen.cursor_y x (blank d.screen) d)

put_newline-frame : (c : Console) → frame (put_newline c) ≡ frame c
unfolding put_newline end_line
put_newline-frame c =
    show_cursor-frame _
    ∙ align_scroll_to_cursor-frame _
    ∙ blank_line-frame (make_room c)
    ∙ make_room-frame c

look-either :
    (b : Bool) (s t u : Screen)
    → look t ≡ look s
    → look u ≡ look s
    → look (if b then t else u) ≡ look s
look-either true s t u h k = h
look-either false s t u h k = k

look-advance : (s : Screen) → look (advance s) ≡ look s
unfolding advance
look-advance s =
    let right = record s { cursor_x = (s.cursor_x + 1) % 2 ^ 16 } in
    let below = record right { cursor_x = 0; cursor_y = (s.cursor_y + 1) % 2 ^ 16 } in
    let wrapped = if leb terminal_height below.cursor_y then move_screen_up below else below in
    look-either (leb terminal_width right.cursor_x) s wrapped right
      (look-either (leb terminal_height below.cursor_y) s (move_screen_up below) below
        (look-move_screen_up below) refl)
      refl

put_glyph-frame : (ch : ℕ) (c : Console) → frame (put_glyph ch c) ≡ frame c
unfolding put_glyph
put_glyph-frame ch c =
    let glyph : Cell = record {
      character = ch % 256;
      fg_color = c.screen.fg_color;
      bg_color = c.screen.bg_color;
    } in
    let d = put_cell c.screen.cursor_y c.screen.cursor_x glyph c in
    put_screen-frame _
    ∙ align_scroll_to_cursor-frame _
    ∙ show_cursor-frame _
    ∙ ap (λ l. record { device = d.machine.device; look = l }) (look-advance d.screen)
    ∙ put_cell-frame c.screen.cursor_y c.screen.cursor_x glyph c

pub putc-frame : (ch : ℕ) (c : Console) → frame (putc ch c) ≡ frame c
unfolding putc
putc-frame ch c = either-frame (ch == newline) c _ _ (put_newline-frame c) (put_glyph-frame ch c)

pub put_chars-frame : (chs : List ℕ) (c : Console) → frame (put_chars chs c) ≡ frame c
unfolding put_chars
put_chars-frame [] c = refl
put_chars-frame (ch ∷ chs) c = put_chars-frame chs (putc ch c) ∙ putc-frame ch c

to_input_end-frame : (c : Console) → frame (to_input_end c) ≡ frame c
unfolding to_input_end
to_input_end-frame c = either-frame (lt8 0 c.screen.input_size) c _ c (move_cursor-frame _ c) refl

-- The two ends of a command's output.
pub terminal_begin_output-frame : (c : Console) → frame (terminal_begin_output c) ≡ frame c
unfolding terminal_begin_output vga_set_cursor_visibility outb inb
terminal_begin_output-frame c = putc-frame newline (to_input_end c) ∙ to_input_end-frame c

to_line_start-frame : (c : Console) → frame (to_line_start c) ≡ frame c
unfolding to_line_start
to_line_start-frame c =
    either-frame (c.screen.cursor_x == 0) c c (putc newline c) refl (putc-frame newline c)

prompt_if-frame : (show_prompt : Bool) (c : Console) → frame (prompt_if show_prompt c) ≡ frame c
unfolding prompt_if put_prompt
prompt_if-frame show_prompt c =
    either-frame show_prompt c (put_chars (codes "$ ") c) c (put_chars-frame (codes "$ ") c) refl

pub terminal_end_output-frame :
    (show_prompt : Bool) (c : Console) → frame (terminal_end_output show_prompt c) ≡ frame c
unfolding terminal_end_output vga_set_cursor_visibility outb inb
terminal_end_output-frame show_prompt c =
    prompt_if-frame show_prompt (to_line_start c) ∙ to_line_start-frame c

pub look-terminal_clear : (s : Screen) → look (terminal_clear s) ≡ look s
unfolding terminal_clear
look-terminal_clear s =
    for_loop-same look terminal_width 0 _ s
      (λ x t. for_loop-same look terminal_height 0 _ t (λ y u. refl))
