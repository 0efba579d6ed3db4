-- ===== src/MainLoop.antt =====
-- interrupt/handler/keyboard.c: what a scancode does to the whole program, with the line that Enter
-- executes.
pub mod Keys
pub mod Typed
pub mod Program
use kernel_from_scratch.Prelude.{ℕ, ◌==◌, if◌then◌else◌, Option, none, some, List, [], ◌∷◌}
use kernel_from_scratch.Terminal.Input.{terminal_get_input}
use kernel_from_scratch.Terminal.Screens.{current_screen}
use kernel_from_scratch.KeyBuffer.{KeyBuffer}
use kernel_from_scratch.Keyboard.{Action, execute, handle_scancode, perform}
use kernel_from_scratch.Shell.{Kernel, Platform, Run, done, ◌>>=◌, shell_execute, is_reading}

-- The text that a buffer holds: its characters before the first NUL.
abbrev pub before_nul : List ℕ → List ℕ
before_nul [] = []
before_nul (x ∷ xs) = if x == 0 then [] else x ∷ before_nul xs

-- Behind `terminal_get_input` in `execute`.
abbrev pub execute_buffer : Platform → ℕ → Option (List ℕ) → Kernel → Run Kernel
execute_buffer p depth none k = done k
execute_buffer p depth (some buffer) k = do
  (_, k) ← shell_execute p depth (before_nul buffer) k
  done k

unfoldable pub execute_input : Platform → ℕ → Kernel → Run Kernel
execute_input p depth k =
    execute_buffer p depth (terminal_get_input (current_screen k.terminal) 256) k

-- The call that a scancode leads to.
abbrev pub act : Platform → ℕ → Action → Kernel → Run Kernel
act p depth execute k = execute_input p depth k
act p depth action k = done (record k { terminal = perform (λ t. t) action k.terminal })

-- `handle_scancode` on the whole state.
unfoldable pub press_scancode : Platform → ℕ → ℕ → Kernel → Run Kernel
press_scancode p depth scancode k =
    let (keyboard, action) = handle_scancode (is_reading k) scancode k.keyboard in
    act p depth action (record k { keyboard = keyboard })
