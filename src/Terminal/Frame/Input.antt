-- ===== src/Terminal/Frame/Input.antt =====
-- terminal.c: what the operations of the input field leave alone, and the screens' set-up and switch.
use mathlib.Core.Path.{subst}
use kernel_from_scratch.Prelude.{
  ℕ, zero, suc, ◌+◌, ◌-◌, ◌%◌, ◌^◌, ◌≡◌, refl, sym, ap, Bool-cases, inl, inr, ◌∙◌, true, ◌&&◌, ◌||◌,
  List, ltb, ◌==◌, if◌then◌else◌, length, replicate, drop, is_negative8, int8_max, lt8, extend8,
  sub32, codes,
}
use kernel_from_scratch.Terminal.{Console, terminal_width, blank}
use kernel_from_scratch.Terminal.Display.{
  show_cursor, put_screen, can_scroll_up, can_scroll_down, scroll_up, scroll_down,
}
use kernel_from_scratch.Terminal.Put.{move_cursor, putc, put_chars, put_prompt}
use kernel_from_scratch.Terminal.Output.{terminal_clear}
use kernel_from_scratch.Terminal.Input.{
  Direction, cursor_up, cursor_down, cursor_left, cursor_right, get_input_after_cursor,
  put_input_after_cursor, terminal_putc_input, erase_before, erase_loop, terminal_del_input,
  terminal_del_input_forward, move_by, terminal_move, resize,
}
use kernel_from_scratch.Terminal.Screens.{first_prompt, set_up}
use kernel_from_scratch.Terminal.Frame.{
  Frame, frame, look, either-frame, look-either, put_screen-frame, show_cursor-frame,
  scroll_up-frame, scroll_down-frame, move_cursor-frame, put_cell-frame, putc-frame,
  put_chars-frame, look-terminal_clear,
}

put_input_after_cursor-frame :
    (buffer : List ℕ) (erase_count : ℕ) (c : Console)
    → frame (put_input_after_cursor buffer erase_count c) ≡ frame c
unfolding put_input_after_cursor
put_input_after_cursor-frame buffer erase_count c =
    move_cursor-frame _ _
    ∙ put_chars-frame (replicate erase_count 32) (put_chars buffer c)
    ∙ put_chars-frame buffer c

pub terminal_putc_input-frame : (ch : ℕ) (c : Console) → frame (terminal_putc_input ch c) ≡ frame c
unfolding terminal_putc_input
terminal_putc_input-frame ch c =
    let typed = put_input_after_cursor (get_input_after_cursor c.screen) 0 (putc ch c) in
    either-frame (is_negative8 c.screen.input_size || (c.screen.input_size == int8_max)) c c
      (resize 1 1 typed) refl
      (put_input_after_cursor-frame (get_input_after_cursor c.screen) 0 (putc ch c)
        ∙ putc-frame ch c)

erase_before-frame : (c : Console) → frame (erase_before c) ≡ frame c
unfolding erase_before
erase_before-frame c =
    let s = c.screen in
    let wrapped = record s {
      cursor_y = (s.cursor_y + 2 ^ 16 - 1) % 2 ^ 16;
      cursor_x = terminal_width - 1;
    } in
    let left = record s { cursor_x = s.cursor_x - 1 } in
    let t = if s.cursor_x == 0 then wrapped else left in
    put_cell-frame t.cursor_y t.cursor_x (blank t) (record c { screen = t })
    ∙ ap (λ l. record { device = c.machine.device; look = l })
        (look-either (s.cursor_x == 0) s wrapped left refl refl)

erase_loop-frame : (count : ℕ) (c : Console) → frame (erase_loop count c) ≡ frame c
unfolding erase_loop
erase_loop-frame zero c = refl
erase_loop-frame (suc count) c =
    either-frame ((c.screen.cursor_x == 0) && (c.screen.cursor_y == 0)) c c
      (erase_loop count (erase_before c)) refl
      (erase_loop-frame count (erase_before c) ∙ erase_before-frame c)

pub terminal_del_input-frame :
    (count : ℕ) (c : Console) → frame (terminal_del_input count c) ≡ frame c
unfolding terminal_del_input
terminal_del_input-frame count c =
    let after_cursor = get_input_after_cursor c.screen in
    let n =
      if ltb (extend8 c.screen.input_cursor) count then extend8 c.screen.input_cursor else count in
    let erased = put_input_after_cursor after_cursor n (erase_loop n c) in
    let resized = resize (sub32 0 n) (sub32 0 n) erased in
    either-frame (is_negative8 c.screen.input_size) c c (show_cursor resized) refl (
      show_cursor-frame resized
      ∙ put_input_after_cursor-frame after_cursor n (erase_loop n c)
      ∙ erase_loop-frame n c)

pub terminal_del_input_forward-frame :
    (count : ℕ) (c : Console) → frame (terminal_del_input_forward count c) ≡ frame c
unfolding terminal_del_input_forward
terminal_del_input_forward-frame count c =
    let after_cursor = get_input_after_cursor c.screen in
    let n = if ltb (length after_cursor) count then length after_cursor else count in
    either-frame (is_negative8 c.screen.input_size) c c
      (resize (sub32 0 n) 0 (put_input_after_cursor (drop n after_cursor) n c)) refl
      (put_input_after_cursor-frame (drop n after_cursor) n c)

move_by-frame : (direction : Direction) (c : Console) → frame (move_by direction c) ≡ frame c
unfolding move_by
move_by-frame cursor_up c =
    either-frame (can_scroll_up c.screen) c (scroll_up c) c (scroll_up-frame c) refl
move_by-frame cursor_down c =
    either-frame (can_scroll_down c.screen) c (scroll_down c) c (scroll_down-frame c) refl
move_by-frame cursor_left c =
    either-frame (lt8 0 c.screen.input_cursor) c
      (resize 0 (2 ^ 32 - 1) (move_cursor (2 ^ 32 - 1) c)) c (move_cursor-frame (2 ^ 32 - 1) c) refl
move_by-frame cursor_right c =
    either-frame (lt8 c.screen.input_cursor c.screen.input_size) c (resize 0 1 (move_cursor 1 c)) c
      (move_cursor-frame 1 c) refl

pub terminal_move-frame :
    (direction : Direction) (c : Console) → frame (terminal_move direction c) ≡ frame c
unfolding terminal_move
terminal_move-frame direction c =
    either-frame (is_negative8 c.screen.input_size) c c (move_by direction c) refl
      (move_by-frame direction c)

-- The set-up marks the screen, and leaves the rest alone.
abbrev pub marked : Frame → Frame
marked f = record f { look = record f.look { initialized = true } }

pub first_prompt-frame : (c : Console) → frame (first_prompt c) ≡ marked (frame c)
unfolding first_prompt put_prompt
first_prompt-frame c = ap marked (
    put_chars-frame (codes "$ ") (record c { screen = terminal_clear c.screen })
    ∙ ap (λ l. record { device = c.machine.device; look = l }) (look-terminal_clear c.screen))

set_up-frame : (c : Console) → frame (set_up c) ≡ marked (frame c)
unfolding set_up
set_up-frame c = elim (Bool-cases c.screen.initialized) [
  | inl e ↦
      subst (λ b. frame (if b then c else first_prompt c) ≡ marked (frame c)) (sym e)
        (ap (λ b. record (frame c) { look = record (look c.screen) { initialized = b } }) e)
  | inr e ↦
      subst (λ b. frame (if b then c else first_prompt c) ≡ marked (frame c)) (sym e)
        (first_prompt-frame c)
]

-- What switching draws.
pub shown-frame : (c : Console) → frame (show_cursor (put_screen (set_up c))) ≡ marked (frame c)
shown-frame c =
    show_cursor-frame (put_screen (set_up c)) ∙ put_screen-frame (set_up c) ∙ set_up-frame c
