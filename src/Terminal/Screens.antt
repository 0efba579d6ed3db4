-- ===== src/Terminal/Screens.antt =====
-- terminal.c: the ten screens, and which of them is shown.
pub mod Switch
pub mod Mirror
pub mod Desk
use kernel_from_scratch.Prelude.{
  ℕ, ◌/◌, ◌%◌, ◌^◌, true, false, List, [], ◌∷◌, leb, if◌then◌else◌, for_loop, update, get_or,
}
use kernel_from_scratch.Machine.{Machine}
use kernel_from_scratch.Terminal.{Screen, Console, terminal_screen_count}
use kernel_from_scratch.Terminal.Display.{put_screen, show_cursor}
use kernel_from_scratch.Terminal.Put.{put_prompt}
use kernel_from_scratch.Terminal.Output.{terminal_clear, set_visibility}

abbrev pub screen_colors : List ℕ
screen_colors = 0x07 ∷ 0x1F ∷ 0x76 ∷ 0xF0 ∷ 0x30 ∷ 0x4E ∷ 0x5F ∷ 0x6F ∷ 0x0A ∷ 0x0C ∷ []

pub record Terminal : Type 0 where
  pub screens : ℕ → Screen
  pub terminal_index : ℕ
  pub machine : Machine

abbrev pub current_screen : Terminal → Screen
current_screen t = t.screens t.terminal_index

-- Run an operation on the screen that `current_screen()` points to.
abbrev pub on_current : (Console → Console) → Terminal → Terminal
on_current f t =
    let c = f (record { screen = current_screen t; machine = t.machine }) in
    record t { screens = update t.screens t.terminal_index c.screen; machine = c.machine }

-- The steps that set a screen up when it is first shown.
unfoldable pub first_prompt : Console → Console
first_prompt c =
    let c = put_prompt (record c { screen = terminal_clear c.screen }) in
    record c { screen = record c.screen { initialized = true } }

-- The second `if` of `terminal_switch_screen`.
unfoldable pub set_up : Console → Console
set_up c = if c.screen.initialized then c else first_prompt c

unfoldable pub color_screen : ℕ → Screen → Screen
color_screen i s = record s {
  fg_color = get_or screen_colors i 0 % 2 ^ 4;
  bg_color = get_or screen_colors i 0 / 2 ^ 4;
  initialized = false;
}

unfoldable pub terminal_init : Terminal → Terminal
terminal_init t =
    let screens =
      for_loop terminal_screen_count 0 (λ i f. update f i (color_screen i (f i))) t.screens in
    on_current (λ c. set_visibility true (show_cursor (first_prompt c)))
      (record t { screens = screens; terminal_index = 0 })

unfoldable pub terminal_switch_screen : ℕ → Terminal → Terminal
terminal_switch_screen index t =
    if leb terminal_screen_count index
    then t
    else on_current (λ c. show_cursor (put_screen (set_up c))) (record t { terminal_index = index })
