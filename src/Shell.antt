-- ===== src/Shell.antt =====
-- shell.c: the commands, and how a line is executed. The state is that of the whole program as far
-- as commands change it. What the loader and the compiler put into memory is the record `Platform`.
pub mod Table
pub mod Calls
pub mod Ends
pub mod Ready
pub mod Lines
pub mod Repeat
pub mod Modes
pub mod Models
use Prim.Native.Nat.{bit_and}
use kernel_from_scratch.Prelude.{
  ℕ, zero, suc, ◌+◌, Bool, true, false, not, ◌&&◌, ltb, ◌==◌, if◌then◌else◌, Option, none, some,
  List, [], ◌∷◌, take, codes, update,
}
use kernel_from_scratch.Machine.{Machine, inb, outb}
use kernel_from_scratch.Memory.{Bytes}
use kernel_from_scratch.Terminal.{Console}
use kernel_from_scratch.Terminal.Output.{terminal_clear, terminal_begin_output, terminal_end_output}
use kernel_from_scratch.Terminal.Screens.{Terminal, current_screen, on_current}
use kernel_from_scratch.Keyboard.{
  Keyboard, Layout, layout_qwerty, layout_azerty, keyboard_set_layout,
}
use kernel_from_scratch.Printk.{Args, word, text, print}
use kernel_from_scratch.Multiboot.{MultibootInfo, print_multiboot_info}
use kernel_from_scratch.StackDump.{Image, stack_dump}

-- The functions whose addresses the table holds.
pub data Function : Type 0 where
  help clear last pmultiboot pstack reboot halt read azerty qwerty : Function

pub record Command : Type 0 where
  pub name : List ℕ
  pub description : List ℕ
  pub function : Function

-- `last_command` points to an element of `commands`, or is NULL.
pub record Shell : Type 0 where
  pub mbi : MultibootInfo
  pub commands : ℕ → Command
  pub last_command : Option ℕ
  pub read_pending : Bool

pub record Kernel : Type 0 where
  pub terminal : Terminal
  pub keyboard : Keyboard
  pub shell : Shell

-- The memory that the loader's map lies in, what `pstack` finds on the stack and in the registers
-- when it is called, and how often two loops may turn: the one over the memory map, and the one
-- that waits for the keyboard controller.
pub record Platform : Type 0 where
  pub map_memory : Bytes
  pub stack : Kernel → Image
  pub esp : Kernel → ℕ
  pub ebp : Kernel → ℕ
  pub map_fuel : ℕ
  pub poll_fuel : ℕ

-- How a call ends: it is stuck in a loop or in what C leaves undefined, it has stopped the
-- processor, or it returns.
pub data Run {ℓ} (A : Type ℓ) : Type ℓ where
  stuck : Run A
  halted : Kernel → Run A
  done : A → Run A

infixl 1 ◌>>=◌
abbrev pub ◌>>=◌ {ℓ κ} : {A : Type ℓ} {B : Type κ} → Run A → (A → Run B) → Run B
stuck >>= f = stuck
halted k >>= f = halted k
done a >>= f = f a

abbrev pub console : Kernel → Console
console k = record { screen = current_screen k.terminal; machine = k.terminal.machine }

-- An operation on the current screen.
abbrev pub on_screen : (Console → Console) → Kernel → Kernel
on_screen f k = record k { terminal = on_current f k.terminal }

-- One that may be undefined.
abbrev pub settle : Kernel → Option Console → Run Kernel
settle k none = stuck
settle k (some c) = done (on_screen (λ _. c) k)

abbrev pub attempt : (Console → Option Console) → Kernel → Run Kernel
attempt f k = settle k (f (console k))

abbrev pub command_count : ℕ
command_count = 10

abbrev pub kernel_printk : List ℕ → Args → Kernel → Run Kernel
kernel_printk format args = attempt (print format args)

-- The loop of `help`, from `i` on.
unfoldable pub print_commands : ℕ → ℕ → Kernel → Run Kernel
print_commands zero i k = done k
print_commands (suc n) i k = do
  let command = k.shell.commands i
  k ←
      kernel_printk (codes "%s: %s\n")
        (text (some command.name) ∷ text (some command.description) ∷ []) k
  print_commands n (i + 1) k

unfoldable pub call_help : Kernel → Run Kernel
call_help k = do
  k ← kernel_printk (codes "Available commands:\n") [] k
  print_commands command_count 0 k

unfoldable pub call_clear : Kernel → Kernel
call_clear = on_screen (λ c. record c { screen = terminal_clear c.screen })

unfoldable pub call_read : Kernel → Kernel
call_read k =
    if k.shell.read_pending then k else record k { shell = record k.shell { read_pending = true } }

unfoldable pub call_halt : Kernel → Run Kernel
call_halt k = do k ← kernel_printk (codes "System halted.\n") [] k; halted k

abbrev pub ps2_controller_status_port : ℕ
ps2_controller_status_port = 0x64

abbrev pub ps2_input_buffer_full : ℕ
ps2_input_buffer_full = 0x02

abbrev pub ps2_reboot_command : ℕ
ps2_reboot_command = 0xFE

-- The loop of `reboot`, with fuel, and the command to the controller behind it.
unfoldable pub wait_input_buffer : ℕ → Machine → Option Machine
wait_input_buffer zero m = none
wait_input_buffer (suc fuel) m =
    let (status, m) = inb ps2_controller_status_port m in
    let later = wait_input_buffer fuel m in
    if bit_and status ps2_input_buffer_full == 0 then some m else later

abbrev pub send_reboot : Kernel → Option Machine → Run Kernel
send_reboot k none = stuck
send_reboot k (some m) = done (record k {
  terminal = record k.terminal { machine = outb ps2_controller_status_port ps2_reboot_command m };
})

unfoldable pub call_reboot : ℕ → Kernel → Run Kernel
call_reboot fuel k = send_reboot k (wait_input_buffer fuel k.terminal.machine)

abbrev pub set_layout : Layout → Kernel → Kernel
set_layout layout k = record k { keyboard = keyboard_set_layout layout k.keyboard }

-- The functions of the table. `last` calls one of them again, `depth` times at most.
unfoldable pub call : Platform → ℕ → Function → Kernel → Run Kernel
call p depth help k = call_help k
call p depth clear k = done (call_clear k)
call p zero last k = stuck
call p (suc depth) last k = elim k.shell.last_command [
  | some i ↦ call p depth (k.shell.commands i).function k
  | none ↦ kernel_printk (codes "No last command executed.\n") [] k
]
call p depth pmultiboot k = attempt (print_multiboot_info p.map_fuel p.map_memory k.shell.mbi) k
call p depth pstack k = attempt (stack_dump (p.stack k) (p.esp k) (p.ebp k)) k
call p depth reboot k = call_reboot p.poll_fuel k
call p depth halt k = call_halt k
call p depth read k = done (call_read k)
call p depth azerty k = done (set_layout layout_azerty k)
call p depth qwerty k = done (set_layout layout_qwerty k)

-- The bytes that `strncpy` copies leave room for the NUL.
unfoldable pub add_shell_cmd : ℕ → List ℕ → List ℕ → Function → Shell → Shell
add_shell_cmd index name desc command s =
    if ltb index command_count
    then record s {
      commands =
          update s.commands index
            (record { name = take 255 name; description = take 255 desc; function = command });
    }
    else s

unfoldable pub shell_init : MultibootInfo → Shell → Shell
shell_init mbi s =
    let s = record s { mbi = mbi; last_command = none; read_pending = false } in
    let s = add_shell_cmd 0 (codes "help") (codes "Display the commands list") help s in
    let s = add_shell_cmd 1 (codes "clear") (codes "Clear the terminal screen") clear s in
    let s = add_shell_cmd 2 (codes "last") (codes "Execute the last command") last s in
    let s = add_shell_cmd 3 (codes "pmultiboot") (codes "Print multiboot infos") pmultiboot s in
    let s = add_shell_cmd 4 (codes "pstack") (codes "Print the kernel stack") pstack s in
    let s = add_shell_cmd 5 (codes "reboot") (codes "Reboot the system") reboot s in
    let s = add_shell_cmd 6 (codes "halt") (codes "Halt the system") halt s in
    let s = add_shell_cmd 7 (codes "read") (codes "Read a line and print it") read s in
    let s =
      add_shell_cmd 8 (codes "azerty") (codes "Switch to the Azerty keyboard layout") azerty s in
    add_shell_cmd 9 (codes "qwerty") (codes "Switch to the Qwerty keyboard layout") qwerty s

-- `strcmp(a, b) == 0` on the characters before the NULs.
abbrev pub same_text : List ℕ → List ℕ → Bool
same_text [] [] = true
same_text (x ∷ xs) (y ∷ ys) = (x == y) && same_text xs ys
same_text _ _ = false

-- The loop of `shell_execute`, from `i` on, up to the command of that name.
unfoldable pub find_command : ℕ → ℕ → (ℕ → Command) → List ℕ → Option ℕ
find_command zero i commands command = none
find_command (suc n) i commands command =
    let later = find_command n (i + 1) commands command in
    if same_text command (commands i).name then some i else later

-- The line that `read` waits for.
unfoldable pub execute_read : List ℕ → Kernel → Run (Bool × Kernel)
execute_read command k = do
  let k = on_screen terminal_begin_output k
  k ← kernel_printk (codes "read: \"%s\"") (text (some command) ∷ []) k
  let k = on_screen (terminal_end_output true) k
  done (true, record k { shell = record k.shell { read_pending = false } })

-- The body of the loop, for the element at `i`.
abbrev pub remember : List ℕ → ℕ → Kernel → Kernel
remember command i k =
    if same_text command (codes "last")
    then k
    else record k { shell = record k.shell { last_command = some i } }

unfoldable pub execute_command : Platform → ℕ → List ℕ → ℕ → Kernel → Run (Bool × Kernel)
execute_command p depth command i k = do
  let k = on_screen terminal_begin_output k
  k ← call p depth (k.shell.commands i).function k
  let k = remember command i k
  done (true, on_screen (terminal_end_output (not k.shell.read_pending)) k)

abbrev pub is_empty : List ℕ → Bool
is_empty [] = true
is_empty (_ ∷ _) = false

unfoldable pub execute_unknown : List ℕ → Kernel → Run (Bool × Kernel)
execute_unknown command k = do
  let k = on_screen terminal_begin_output k
  k ←
      (if is_empty command
        then done k
        else kernel_printk (codes "%s: command not found\n") (text (some command) ∷ []) k)
  done (false, on_screen (terminal_end_output true) k)

-- For the element that the loop finds, or behind the loop.
abbrev pub execute_found : Platform → ℕ → List ℕ → Option ℕ → Kernel → Run (Bool × Kernel)
execute_found p depth command (some i) k = execute_command p depth command i k
execute_found p depth command none k = execute_unknown command k

unfoldable pub shell_execute : Platform → ℕ → List ℕ → Kernel → Run (Bool × Kernel)
shell_execute p depth command k =
    if k.shell.read_pending
    then execute_read command k
    else execute_found p depth command (find_command command_count 0 k.shell.commands command) k

unfoldable pub is_reading : Kernel → Bool
is_reading k = k.shell.read_pending
