-- ===== src/Tests/ProgramTests.antt =====
-- Instances of the theorem about any sequence of keys on the whole program.
use mathlib.Core.Option
use kernel_from_scratch.Prelude.{◌≡◌, refl, ℕ, some, List, [], ◌∷◌, codes}
use kernel_from_scratch.Terminal.Screens.Mirror.{first_desk, terminal_init-Mirrors}
use kernel_from_scratch.Keyboard.{
  handle_scancode, press_key, special_key, character, Layout, layout_azerty,
}
use kernel_from_scratch.Shell.{find_command, shell_init, add_shell_cmd}
use kernel_from_scratch.Shell.Table.{shell_init-IsReady}
use kernel_from_scratch.Shell.Ends.{same-Serves}
use kernel_from_scratch.Shell.Modes.{mode}
use kernel_from_scratch.MainLoop.Typed.{press_keys}
use kernel_from_scratch.MainLoop.Program.{
  Program, shown_text, press_program_keys, Refines, press_keys-Refines,
}
use kernel_from_scratch.Tests.TerminalTests.{terminal}
use kernel_from_scratch.Tests.ShellTests.{no_map, no_shell, kernel, platform, serves}
use kernel_from_scratch.Tests.BootTests.{booted}

abbrev start : Program
start = record { desk = first_desk; mode = mode booted }

-- `azerty`, Enter, and the first letter of the row.
abbrev keys : List ℕ
keys = 0x1E ∷ 0x2C ∷ 0x12 ∷ 0x13 ∷ 0x14 ∷ 0x15 ∷ 0x1C ∷ 0x10 ∷ []

-- The layout is changed for the key behind Enter, which writes an `a`.
layout_changed :
    Option.map {B = List ℕ × Layout}
      (λ q. (shown_text q.desk, q.mode.keyboard.current_layout))
      (press_program_keys keys start)
    ≡ some (codes "a", layout_azerty)
unfolding handle_scancode press_key special_key character find_command shell_init add_shell_cmd
layout_changed = refl

press_keys-Refines_example :
    Refines platform (press_program_keys keys start) (press_keys platform 1 keys booted)
press_keys-Refines_example = press_keys-Refines platform 0 keys start booted (
  shell_init-IsReady no_map no_shell,
  same-Serves platform kernel booted refl (terminal_init-Mirrors terminal).1 serves,
  (terminal_init-Mirrors terminal).0,
  refl,
)
