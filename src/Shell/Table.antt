-- ===== src/Shell/Table.antt =====
-- shell.c: the table of commands behind `shell_init`.
use kernel_from_scratch.Prelude.{
  ℕ, zero, suc, ◌+◌, ◌<◌, ◌≡◌, refl, arith, Bool, true, false, Option, none, some, List, [], ◌∷◌,
  codes, get_or, length, ◌^◌,
}
use kernel_from_scratch.Multiboot.{MultibootInfo}
use kernel_from_scratch.Shell.{
  Function, help, clear, last, pmultiboot, pstack, reboot, halt, read, azerty, qwerty, Command,
  Shell, command_count, add_shell_cmd, shell_init, same_text, find_command,
}

abbrev entry : List ℕ → List ℕ → Function → Command
entry n d f = record { name = n; description = d; function = f }

abbrev entries : List Command
entries =
    entry (codes "help") (codes "Display the commands list") help
    ∷ entry (codes "clear") (codes "Clear the terminal screen") clear
    ∷ entry (codes "last") (codes "Execute the last command") last
    ∷ entry (codes "pmultiboot") (codes "Print multiboot infos") pmultiboot
    ∷ entry (codes "pstack") (codes "Print the kernel stack") pstack
    ∷ entry (codes "reboot") (codes "Reboot the system") reboot
    ∷ entry (codes "halt") (codes "Halt the system") halt
    ∷ entry (codes "read") (codes "Read a line and print it") read
    ∷ entry (codes "azerty") (codes "Switch to the Azerty keyboard layout") azerty
    ∷ entry (codes "qwerty") (codes "Switch to the Qwerty keyboard layout") qwerty
    ∷ []

-- The commands by their numbers.
abbrev pub table : ℕ → Command
table i = get_or entries i (entry [] [] help)

-- The test for the function `last`.
abbrev pub calls_last : Function → Bool
calls_last last = true
calls_last _ = false

abbrev pub IsLast : (ℕ → Command) → Option ℕ → Type 0
IsLast commands none = Unit
IsLast commands (some i) = (i < command_count) × (calls_last (commands i).function ≡ false)

-- The table is the one of `shell_init`, and `last_command` is NULL or points to a command of it
-- that is not `last`.
pub record IsReady (s : Shell) : Type 0 where
  pub holds_table : (i : ℕ) → i < command_count → s.commands i ≡ table i
  pub is_last : IsLast s.commands s.last_command

pub shell_init-table :
    (mbi : MultibootInfo) (s : Shell) (i : ℕ)
    → i < command_count
    → (shell_init mbi s).commands i ≡ table i
unfolding shell_init add_shell_cmd
shell_init-table mbi s zero h = refl
shell_init-table mbi s (suc zero) h = refl
shell_init-table mbi s (suc (suc zero)) h = refl
shell_init-table mbi s (suc (suc (suc zero))) h = refl
shell_init-table mbi s (suc (suc (suc (suc zero)))) h = refl
shell_init-table mbi s (suc (suc (suc (suc (suc zero))))) h = refl
shell_init-table mbi s (suc (suc (suc (suc (suc (suc zero)))))) h = refl
shell_init-table mbi s (suc (suc (suc (suc (suc (suc (suc zero))))))) h = refl
shell_init-table mbi s (suc (suc (suc (suc (suc (suc (suc (suc zero)))))))) h = refl
shell_init-table mbi s (suc (suc (suc (suc (suc (suc (suc (suc (suc zero))))))))) h = refl
shell_init-table mbi s (suc (suc (suc (suc (suc (suc (suc (suc (suc (suc i)))))))))) h =
    absurd (omega (arith, h))

pub shell_init-IsReady : (mbi : MultibootInfo) (s : Shell) → IsReady (shell_init mbi s)
shell_init-IsReady mbi s = record {
  holds_table = shell_init-table mbi s;
  is_last = unfold shell_init add_shell_cmd in tt;
}

-- The search depends on the elements that it looks at.
find_command-same :
    (n i : ℕ) (f g : ℕ → Command) (command : List ℕ)
    → ((j : ℕ) → j < i + n → f j ≡ g j)
    → find_command n i f command ≡ find_command n i g command
unfolding find_command
find_command-same zero i f g command h = refl
find_command-same (suc n) i f g command h =
    rw (h i (omega arith), find_command-same n (i + 1) f g command (λ j k. h j (omega (arith, k))))
      refl

pub find_command-table :
    (s : Shell) (command : List ℕ)
    → IsReady s
    → find_command command_count 0 s.commands command ≡ find_command command_count 0 table command
find_command-table s command r =
    find_command-same command_count 0 s.commands table command
      (λ j k. r.holds_table j (omega (arith, k)))

pub table-short :
    (i : ℕ)
    → i < command_count
    → (length (table i).name < 2 ^ 32) × (length (table i).description < 2 ^ 32)
table-short zero h = (omega arith, omega arith)
table-short (suc zero) h = (omega arith, omega arith)
table-short (suc (suc zero)) h = (omega arith, omega arith)
table-short (suc (suc (suc zero))) h = (omega arith, omega arith)
table-short (suc (suc (suc (suc zero)))) h = (omega arith, omega arith)
table-short (suc (suc (suc (suc (suc zero))))) h = (omega arith, omega arith)
table-short (suc (suc (suc (suc (suc (suc zero)))))) h = (omega arith, omega arith)
table-short (suc (suc (suc (suc (suc (suc (suc zero))))))) h = (omega arith, omega arith)
table-short (suc (suc (suc (suc (suc (suc (suc (suc zero)))))))) h = (omega arith, omega arith)
table-short (suc (suc (suc (suc (suc (suc (suc (suc (suc zero))))))))) h =
    (omega arith, omega arith)
table-short (suc (suc (suc (suc (suc (suc (suc (suc (suc (suc i)))))))))) h =
    absurd (omega (arith, h))

-- The function `last` has the name `last`.
pub table-last :
    (i : ℕ)
    → i < command_count
    → calls_last (table i).function ≡ same_text (table i).name (codes "last")
table-last zero h = refl
table-last (suc zero) h = refl
table-last (suc (suc zero)) h = refl
table-last (suc (suc (suc zero))) h = refl
table-last (suc (suc (suc (suc zero)))) h = refl
table-last (suc (suc (suc (suc (suc zero))))) h = refl
table-last (suc (suc (suc (suc (suc (suc zero)))))) h = refl
table-last (suc (suc (suc (suc (suc (suc (suc zero))))))) h = refl
table-last (suc (suc (suc (suc (suc (suc (suc (suc zero)))))))) h = refl
table-last (suc (suc (suc (suc (suc (suc (suc (suc (suc zero))))))))) h = refl
table-last (suc (suc (suc (suc (suc (suc (suc (suc (suc (suc i)))))))))) h =
    absurd (omega (arith, h))
