-- ===== src/Shell/Modes.antt =====
-- shell.c: what a line does to the variables of the shell and of the keyboard, whatever it prints.
use mathlib.Core.Option
use kernel_from_scratch.Prelude.{
  ℕ, ◌+◌, ◌≡◌, Bool, true, false, if◌then◌else◌, Option, none, some, List, [], ◌∷◌, codes,
}
use kernel_from_scratch.Keyboard.{Keyboard, layout_azerty, layout_qwerty}
use kernel_from_scratch.Shell.{
  Function, last, halt, read, azerty, qwerty, Kernel, Run, stuck, halted, done, same_text,
}
use kernel_from_scratch.Shell.Table.{table}

-- The variables that say what the next line and the next key do.
pub record Mode : Type 0 where
  pub keyboard : Keyboard
  pub is_reading : Bool
  pub last_command : Option ℕ

abbrev pub mode : Kernel → Mode
mode k = record {
  keyboard = k.keyboard;
  is_reading = k.shell.read_pending;
  last_command = k.shell.last_command;
}

-- The specification of the functions, none for the one that stops the processor. `last` is not
-- repeated.
abbrev pub once : Function → Mode → Option Mode
once azerty m = some (record m { keyboard = record m.keyboard { current_layout = layout_azerty } })
once qwerty m = some (record m { keyboard = record m.keyboard { current_layout = layout_qwerty } })
once read m = some (record m { is_reading = true })
once halt m = none
once _ m = some m

abbrev pub repeated : Option ℕ → Mode → Option Mode
repeated none m = some m
repeated (some i) m = once (table i).function m

abbrev pub effect : Function → Mode → Option Mode
effect last m = repeated m.last_command m
effect f m = once f m

-- The command is the one that `last` repeats from now on, if it is not `last`.
abbrev pub noting : List ℕ → ℕ → Mode → Mode
noting command i m =
    if same_text command (codes "last") then m else record m { last_command = some i }

abbrev pub effect_found : List ℕ → Option ℕ → Mode → Option Mode
effect_found command none m = some m
effect_found command (some i) m = Option.map (noting command i) (effect (table i).function m)

abbrev command_names : List (List ℕ)
command_names =
    codes "help"
    ∷ codes "clear"
    ∷ codes "last"
    ∷ codes "pmultiboot"
    ∷ codes "pstack"
    ∷ codes "reboot"
    ∷ codes "halt"
    ∷ codes "read"
    ∷ codes "azerty"
    ∷ codes "qwerty"
    ∷ []

abbrev position : List ℕ → ℕ → List (List ℕ) → Option ℕ
position command i [] = none
position command i (name ∷ names) =
    if same_text command name then some i else position command (i + 1) names

-- The number of the command of that name.
abbrev pub command_of : List ℕ → Option ℕ
command_of command = position command 0 command_names

-- A text: what `read` waits for, or a command of the table, or neither.
abbrev pub execute_text : List ℕ → Mode → Option Mode
execute_text command m =
    if m.is_reading
    then some (record m { is_reading = false })
    else effect_found command (command_of command) m

-- How a run ends, by the specification, if it is not stuck.
abbrev pub Models : Option Mode → Run Kernel → Type 0
Models o stuck = Unit
Models none (halted k) = Unit
Models (some m) (halted k) = ⊥
Models none (done k) = ⊥
Models (some m) (done k) = mode k ≡ m
