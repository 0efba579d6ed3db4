-- ===== src/Terminal/Screens/Switch.antt =====
-- terminal.c: setting screens up, and switching between them.
use mathlib.Core.Path.{subst, subst₂}
use kernel_from_scratch.Prelude.{
  ℕ, ◌≤◌, ◌<◌, ◌≡◌, ◌≢◌, ◌⊎◌, inl, inr, refl, sym, ap, ◌∙◌, arith, Bool, true, false, Bool-cases,
  leb, if◌then◌else◌, codes, ◌==◌,
}
use kernel_from_scratch.Terminal.{Screen, Console, cursor_position, cell_at, terminal_screen_count}
use kernel_from_scratch.Terminal.Display.{put_screen, show_cursor}
use kernel_from_scratch.Terminal.Put.{put_prompt, put_chars}
use kernel_from_scratch.Terminal.Output.{terminal_clear}
use kernel_from_scratch.Terminal.Screens.{
  Terminal, current_screen, first_prompt, set_up, terminal_switch_screen,
}
use kernel_from_scratch.Terminal.Advance.{IsValid}
use kernel_from_scratch.Terminal.Print.{put_chars-Printed}
use kernel_from_scratch.Terminal.Line.{Line, Holds, empty_line}
use kernel_from_scratch.Terminal.Line.Output.{empty-Holds}

initialized-Holds :
    (s : Screen) (l : Line) (b : Bool) → Holds s l → Holds (record s { initialized = b }) l
unfolding cursor_position cell_at
initialized-Holds s l b h = record {
  valid = record { column = h.valid.column; row = h.valid.row; scroll = h.valid.scroll };
  start = h.start;
  position = h.position;
  inside = h.inside;
  size = h.size;
  count = h.count;
  bound = h.bound;
  fits = h.fits;
  is_text = h.is_text;
  text_at = h.text_at;
}

pub terminal_clear-IsValid : (s : Screen) → IsValid (terminal_clear s)
unfolding terminal_clear
terminal_clear-IsValid s = record { column = omega arith; row = omega arith; scroll = omega arith }

size-clear : (s : Screen) → (terminal_clear s).input_size ≡ 0
unfolding terminal_clear
size-clear s = refl

count-clear : (s : Screen) → (terminal_clear s).input_cursor ≡ 0
unfolding terminal_clear
count-clear s = refl

-- A screen that is set up holds an empty line, whatever it held before.
pub first_prompt-Holds : (c : Console) → Holds (first_prompt c).screen empty_line
unfolding first_prompt put_prompt
first_prompt-Holds c =
    let blank_screen = record c { screen = terminal_clear c.screen } in
    let prompt =
      put_chars-Printed (codes "$ ") blank_screen (λ e. omega arith, (λ e. omega arith, tt))
        (terminal_clear-IsValid c.screen) in
    let s = (put_chars (codes "$ ") blank_screen).screen in
    let size : s.input_size ≡ 0 =
      ap (λ (u : Screen). u.input_size) prompt.rest ∙ size-clear c.screen in
    let count : s.input_cursor ≡ 0 =
      ap (λ (u : Screen). u.input_cursor) prompt.rest ∙ count-clear c.screen in
    subst₂
      (λ a b. Holds (record s { input_size = a; input_cursor = b; initialized = true }) empty_line)
      (sym size) (sym count)
      (initialized-Holds (record s { input_size = 0; input_cursor = 0 }) empty_line true
        (empty-Holds s prompt.valid))

-- Whether a screen holds a line, or is not set up yet.
abbrev pub Ready : Screen → Line → Type 0
Ready s l = (s.initialized ≡ true) × Holds s l

initialized-first_prompt : (c : Console) → (first_prompt c).screen.initialized ≡ true
unfolding first_prompt
initialized-first_prompt c = refl

set_up-Ready :
    (c : Console) (l : Line)
    → (c.initialized ≡ false) × (l ≡ empty_line) ⊎ Ready c.screen l
    → Ready (set_up c).screen l
unfolding set_up
set_up-Ready c l (inl (new, e)) =
    subst₂ (λ b k. Ready (if b then c else first_prompt c).screen k) (sym new) (sym e)
      (initialized-first_prompt c, first_prompt-Holds c)
set_up-Ready c l (inr (old, h)) =
    subst (λ b. Ready (if b then c else first_prompt c).screen l) (sym old) (old, h)

-- `terminal_switch_screen` with an index below 10 makes that screen the current one. A screen that
-- was shown before holds the line that it held then, and any other an empty line.
pub terminal_switch_screen-Ready :
    (index : ℕ) (t : Terminal) (l : Line)
    → index < terminal_screen_count
    → ((t.screens index).initialized ≡ false) × (l ≡ empty_line) ⊎ Ready (t.screens index) l
    → let t' = terminal_switch_screen index t in
      (t'.terminal_index ≡ index) × Ready (current_screen t') l
unfolding terminal_switch_screen put_screen show_cursor
terminal_switch_screen-Ready index t l h r =
    let small : leb terminal_screen_count index ≡ false = ground arith in
    let itself : (index == index) ≡ true = ground arith in
    rw (small, itself)
      (refl, set_up-Ready (record { screen = t.screens index; machine = t.machine }) l r)

-- `terminal_switch_screen` changes no screen but the one that it switches to, and no screen at all
-- if the index is 10 or above.
pub terminal_switch_screen-ne :
    (index j : ℕ) (t : Terminal)
    → (j ≢ index) ⊎ (terminal_screen_count ≤ index)
    → (terminal_switch_screen index t).screens j ≡ t.screens j
unfolding terminal_switch_screen
terminal_switch_screen-ne index j t h = elim (Bool-cases (leb terminal_screen_count index)) [
  | inl out ↦ rw out
  | inr inside ↦
      let other : (j == index) ≡ false = elim h [
        | inl ne ↦ ground arith
        | inr large ↦ absurd (ground arith)
      ] in
      rw (inside, other)
]
