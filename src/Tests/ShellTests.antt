-- ===== src/Tests/ShellTests.antt =====
-- Instances of the theorems about shell.c, the keys of keyboard.c and main.c.
use Prim.Native.Nat.{bit_and}
use kernel_from_scratch.Prelude.{
  ℕ, ◌<◌, ◌≤◌, ◌≡◌, ◌≢◌, ◌%◌, ◌==◌, ap, zero, suc, ltb, length, if◌then◌else◌, refl, arith, true,
  false, none, [], codes,
}
use kernel_from_scratch.Machine.{outb, inb}
use kernel_from_scratch.Terminal.Put.{put_chars}
use kernel_from_scratch.Terminal.Output.{terminal_begin_output, terminal_end_output}
use kernel_from_scratch.Multiboot.{MultibootInfo}
use kernel_from_scratch.Shell.{
  Shell, Kernel, Platform, done, ◌>>=◌, on_screen, call_reboot, command_count, shell_init,
  add_shell_cmd, shell_execute, same_text, help,
}
use kernel_from_scratch.Shell.Table.{table, shell_init-IsReady}
use kernel_from_scratch.Shell.Lines.{
  quoted, not_found, shell_execute-not_found, shell_execute-pending,
}
use kernel_from_scratch.Shell.Repeat.{shell_execute-last}
use kernel_from_scratch.Shell.Calls.{polled, is_free, IsFirst, call_reboot-polled}
use kernel_from_scratch.Shell.Ends.{EndsOr, Serves}
use kernel_from_scratch.Shell.Ready.{LeavesReady, Halting, shell_execute-EndsOr}
use kernel_from_scratch.Tests.TerminalTests.{terminal, abc_line, abc-Holds}
use kernel_from_scratch.Tests.KeyboardTests.{keyboard}
use kernel_from_scratch.Tests.PrintkTests.{image}

abbrev pub no_map : MultibootInfo
no_map = record { flags = 0; mem_lower = 0; mem_upper = 0; mmap_length = 0; mmap_addr = 0 }

abbrev pub no_shell : Shell
no_shell = record {
  mbi = no_map;
  commands = λ i. record { name = []; description = []; function = help };
  last_command = none;
  read_pending = true;
}

abbrev pub kernel : Kernel
kernel = record { terminal = terminal; keyboard = keyboard; shell = shell_init no_map no_shell }

abbrev pub platform : Platform
platform = record {
  map_memory = λ p. 0;
  stack = λ k. image;
  esp = λ k. 2097000;
  ebp = λ k. 2097040;
  map_fuel = 1;
  poll_fuel = 1;
}

pub serves : Serves platform kernel
unfolding shell_init add_shell_cmd inb
serves = record {
  esp_fits = λ k. omega arith;
  ebp_fits = λ k. omega arith;
  entries = [];
  lower_fits = omega arith;
  upper_fits = omega arith;
  map_fits = omega arith;
  map_turns = omega arith;
  map_at = refl;
  free = λ m e. (0, omega arith, ap (λ d. bit_and (d m.trace 0x64 % 256) 0x02 == 0) e);
}

idle : kernel.shell.read_pending ≡ false
unfolding shell_init add_shell_cmd
idle = refl

-- `pstack` is run, and `last` runs it again.
shell_execute-last_example :
    (do
      (_, k) ← shell_execute platform 1 (codes "pstack") kernel
      shell_execute platform 2 (codes "last") k)
    ≡ (do
      (_, k) ← shell_execute platform 1 (codes "pstack") kernel
      shell_execute platform 1 (codes "pstack") k)
shell_execute-last_example =
    shell_execute-last platform 1 4 kernel (shell_init-IsReady no_map no_shell) idle (omega arith)
      (λ e. absurd (ground (arith, ap (λ n. same_text n (codes "last")) e)))
      (λ e. absurd (ground (arith, ap (λ n. same_text n (codes "read")) e)))

no_name : (i : ℕ) → i < command_count → (table i).name ≢ codes "ls"
no_name i h e = absurd (ground (arith, other i h, ap (λ n. same_text n (codes "ls")) e))
  where
    other : (i : ℕ) → i < command_count → same_text (table i).name (codes "ls") ≡ false
    other zero h = refl
    other (suc zero) h = refl
    other (suc (suc zero)) h = refl
    other (suc (suc (suc zero))) h = refl
    other (suc (suc (suc (suc zero)))) h = refl
    other (suc (suc (suc (suc (suc zero))))) h = refl
    other (suc (suc (suc (suc (suc (suc zero)))))) h = refl
    other (suc (suc (suc (suc (suc (suc (suc zero))))))) h = refl
    other (suc (suc (suc (suc (suc (suc (suc (suc zero)))))))) h = refl
    other (suc (suc (suc (suc (suc (suc (suc (suc (suc zero))))))))) h = refl
    other (suc (suc (suc (suc (suc (suc (suc (suc (suc (suc i)))))))))) h =
        absurd (omega (arith, h))

shell_execute-not_found_example :
    shell_execute platform 1 (codes "ls") kernel
    ≡ done (
      false,
      on_screen
          (terminal_end_output true)
          (not_found (codes "ls") (on_screen terminal_begin_output kernel)),
    )
shell_execute-not_found_example =
    shell_execute-not_found platform 1 (codes "ls") kernel (shell_init-IsReady no_map no_shell) idle
      no_name (omega arith)

abbrev reading : Kernel
reading = record kernel { shell = record kernel.shell { read_pending = true } }

shell_execute-pending_example :
    shell_execute platform 1 (codes "help") reading
    ≡ done (
      true,
      (let k = on_screen terminal_begin_output reading in
          let k = on_screen (put_chars (quoted (codes "help"))) k in
          let k = on_screen (terminal_end_output true) k in
          record k { shell = record k.shell { read_pending = false } }),
    )
shell_execute-pending_example =
    shell_execute-pending platform 1 (codes "help") reading refl (omega arith)

-- The input buffer is full at the first two reads.
abbrev slow : Kernel
slow = record kernel {
  terminal = record kernel.terminal {
    machine = record kernel.terminal.machine {
      device = λ events port. if ltb (length events) 2 then 2 else 0;
    };
  };
}

slow-free : is_free (polled 2 slow.terminal.machine) ≡ true
unfolding inb
slow-free = refl

call_reboot-polled_example :
    (j : ℕ) × (j ≤ 2)
    × IsFirst j slow.terminal.machine
    × (call_reboot 5 slow
        ≡ done (record slow {
          terminal = record slow.terminal {
            machine = outb 0x64 0xFE (polled (suc j) slow.terminal.machine);
          };
        }))
call_reboot-polled_example = call_reboot-polled 5 2 slow (omega arith) slow-free

shell_execute-EndsOr_example :
    EndsOr
      (Halting kernel (codes "pstack"))
      (LeavesReady kernel)
      (shell_execute platform 1 (codes "pstack") kernel)
shell_execute-EndsOr_example =
    shell_execute-EndsOr platform 0 (codes "pstack") kernel abc_line
      (shell_init-IsReady no_map no_shell) abc-Holds serves (omega arith)
