-- ===== src/Tests/BootTests.antt =====
-- Instances of the theorems about main.c, and about the keys on the whole program.
use kernel_from_scratch.Prelude.{
  ℕ, ◌≤◌, ◌≡◌, ◌≢◌, ◌==◌, ◌&&◌, not, ltb, refl, arith, Bool, true, false, some, none, List, [], ◌∷◌,
  ◌++◌, map, codes,
}
use kernel_from_scratch.KeyBuffer.{keyboard_push_scancode, keyboard_has_input}
use kernel_from_scratch.Machine.{inb}
use kernel_from_scratch.Terminal.Screens.{terminal_init}
use kernel_from_scratch.Terminal.Screens.Desk.{Mirrors, line_shown-Holds}
use kernel_from_scratch.Terminal.Screens.Mirror.{first_desk, terminal_init-Mirrors}
use kernel_from_scratch.Terminal.Line.{empty_line}
use kernel_from_scratch.Keyboard.{handle_scancode, character}
use kernel_from_scratch.Keyboard.Typing.{desk_by}
use kernel_from_scratch.Interrupts.{
  InterruptFrame, interrupt_dispatch, interrupt_register, call_handler,
}
use kernel_from_scratch.Shell.{Kernel, is_reading, shell_execute, done, ◌>>=◌}
use kernel_from_scratch.Shell.Table.{IsReady, shell_init-IsReady}
use kernel_from_scratch.Shell.Ends.{EndsOr, Ends, same-Serves}
use kernel_from_scratch.MainLoop.{press_scancode}
use kernel_from_scratch.MainLoop.Keys.{Follows, HaltsBy, press_scancode-Follows}
use kernel_from_scratch.Boot.{
  System, Addresses, kernel_main, keyboard_interrupt_handler, mouse_handler,
  interrupt_vector_keyboard, interrupt_vector_mouse,
}
use kernel_from_scratch.Boot.Alive.{kernel_main-Mirrors}
use kernel_from_scratch.Boot.Loop.{
  State, at_test, leaving, masked, asleep, step_from, step, turns, start, take_interrupt, Reaches,
  here, next, steps, interrupted,
}
use kernel_from_scratch.Boot.Running.{IsSound}
use kernel_from_scratch.Boot.Keystroke.{TakesKey, Reaches-TakesKey}
use kernel_from_scratch.Boot.Endless.{IsFresh, Reaches-Ends, takes_next, Reaches-takes_next}
use kernel_from_scratch.Tests.DeviceTests.{
  frame_of, no_segments, no_gates, stubs, empty, empty-Waits,
}
use kernel_from_scratch.MainLoop.Typed.{
  typed, IsPlain, ArePlain, press_keys, Typed, press_keys-execute,
}
use kernel_from_scratch.Tests.KeyboardTests.{keyboard}
use kernel_from_scratch.Tests.ShellTests.{no_map, no_shell, kernel, platform, serves}
use kernel_from_scratch.Tests.TerminalTests.{terminal}

abbrev pub booted : Kernel
booted = record kernel { terminal = terminal_init terminal }

press_scancode-Follows_example :
    let action = (handle_scancode (is_reading booted) 0x1C booted.keyboard).1 in
    EndsOr
      (HaltsBy action booted (terminal_init-Mirrors terminal).0.line)
      (Follows booted (desk_by action first_desk))
      (press_scancode platform 1 0x1C booted)
press_scancode-Follows_example =
    press_scancode-Follows platform 0 0x1C booted first_desk (terminal_init-Mirrors terminal).0
      (shell_init-IsReady no_map no_shell)
      (same-Serves platform kernel booted refl (terminal_init-Mirrors terminal).1 serves)

abbrev system : System
system = record {
  kernel = record kernel { shell = no_shell };
  gdt = no_segments;
  idt = no_gates;
  idt_pointer = record { limit = 0; base = 0 };
  handlers = λ vector. none;
  devices = record { has_scroll_wheel = false; cycle = 0; packet = λ i. 0; buffer = empty };
}

abbrev addresses : Addresses
addresses = record {
  gdt_start = 4096;
  gdt_end = 4152;
  idt_address = 8192;
  exception_stub_table = stubs;
  irq_stub_table = stubs;
}

kernel_main-Mirrors_example :
    let s' = kernel_main addresses no_map system in
    IsReady s'.kernel.shell
    × Mirrors s'.kernel.terminal first_desk
    × (s'.kernel.shell.read_pending ≡ false)
    × (s'.handlers interrupt_vector_keyboard ≡ some keyboard_interrupt_handler)
    × (s'.handlers interrupt_vector_mouse ≡ some mouse_handler)
    × ((vector : ℕ)
        → vector ≢ interrupt_vector_keyboard
        → vector ≢ interrupt_vector_mouse
        → s'.handlers vector ≡ none)
kernel_main-Mirrors_example = kernel_main-Mirrors addresses no_map system

fresh : IsFresh system
fresh = (λ vector. refl, empty-Waits)

abbrev main : System
main = kernel_main addresses no_map system

abbrev sleeping : State
sleeping = record { system = main; phase = asleep }

abbrev key_frame : InterruptFrame
key_frame = frame_of interrupt_vector_keyboard

abbrev pressed : State
pressed = record { system = take_interrupt key_frame main; phase = at_test }

-- The loop finds no scancode and goes to sleep, and the keyboard wakes it.
to_sleep : Reaches platform 1 (start main) sleeping
unfolding kernel_main step_from keyboard_has_input
to_sleep =
    next {t = record { system = main; phase = masked }}
      (next {t = record { system = main; phase = leaving }} (next here (steps refl)) (steps refl))
      (steps refl)

to_pressed : Reaches platform 1 (start main) pressed
to_pressed = next to_sleep (interrupted key_frame tt)

Reaches-Ends_example : IsSound platform pressed × Ends (IsSound platform) (step platform 1 pressed)
Reaches-Ends_example =
    Reaches-Ends platform 0 addresses no_map system pressed fresh serves to_pressed

input : keyboard_has_input pressed.system.devices.buffer ≡ true
unfolding kernel_main take_interrupt interrupt_dispatch call_handler interrupt_register
    keyboard_interrupt_handler keyboard_push_scancode keyboard_has_input inb
input = refl

Reaches-TakesKey_example : TakesKey main (take_interrupt key_frame main)
Reaches-TakesKey_example =
    Reaches-TakesKey platform 0 addresses no_map system sleeping key_frame fresh serves to_sleep
      refl

Reaches-takes_next_example :
    (n : ℕ) × (n ≤ 4) × (turns platform 0 n pressed ≡ done (takes_next pressed.system))
Reaches-takes_next_example =
    Reaches-takes_next platform 0 addresses no_map system pressed fresh serves to_pressed input
      (λ y e. cc e)

-- The keys of `qwerty`.
abbrev word : List ℕ
word = 0x10 ∷ 0x11 ∷ 0x12 ∷ 0x13 ∷ 0x14 ∷ 0x15 ∷ []

word-text : map (typed keyboard) word ≡ codes "qwerty"
unfolding character
word-text = refl

abbrev is_plain : ℕ → Bool
is_plain s = ltb s 0x1C && not (typed keyboard s == 0)

plain : (s : ℕ) → is_plain s ≡ true → IsPlain keyboard s
plain s h = (
  ground (arith, h),
  λ e. ground (arith, h),
  λ e. ground (arith, h),
  λ e. ground (arith, h),
  λ e. ground (arith, h),
)

word-ArePlain : ArePlain keyboard word
unfolding character
word-ArePlain = (
  plain 0x10 refl,
  (plain 0x11 refl, (plain 0x12 refl, (plain 0x13 refl, (plain 0x14 refl, (plain 0x15 refl, tt))))),
)

press_keys-execute_example :
    (k' : Kernel) × (press_keys platform 1 (word ++ 0x1C ∷ []) booted
      ≡ (do (_, k) ← shell_execute platform 1 (map (typed keyboard) word) k'; done k))
    × Typed booted (map (typed keyboard) word) k'
press_keys-execute_example =
    press_keys-execute platform 1 word booted
      (line_shown-Holds booted.terminal first_desk empty_line (terminal_init-Mirrors terminal).0
        refl)
      refl word-ArePlain (omega arith)
