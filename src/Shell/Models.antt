-- ===== src/Shell/Models.antt =====
-- shell.c: that a line does to the variables what the specification says.
use mathlib.Core.Path.{subst}
use mathlib.Core.Option
use kernel_from_scratch.Prelude.{
  ℕ, zero, suc, ◌+◌, ◌^◌, ◌<◌, ◌≡◌, refl, sym, ap, ◌∙◌, arith, Bool, true, false, not, Option, none,
  some, List, [], ◌∷◌, codes, length, Bool-cases, inl, inr,
}
use kernel_from_scratch.Machine.{Machine}
use kernel_from_scratch.Terminal.{Console}
use kernel_from_scratch.Terminal.Output.{terminal_begin_output, terminal_end_output}
use kernel_from_scratch.Keyboard.{keyboard_set_layout}
use kernel_from_scratch.Shell.{
  Function, help, clear, last, pmultiboot, pstack, reboot, halt, read, azerty, qwerty, Kernel,
  Platform, Run, stuck, halted, done, ◌>>=◌, on_screen, kernel_printk, call, call_help, call_clear,
  call_read, call_halt, call_reboot, print_commands, send_reboot, wait_input_buffer, settle,
  command_count, same_text, find_command, remember, execute_command, execute_found, shell_execute,
}
use kernel_from_scratch.Shell.Table.{table, IsReady, IsLast, calls_last, find_command-table}
use kernel_from_scratch.Shell.Lines.{
  not_found, if_then, if_else, shell_execute-pending, execute_unknown-not_found,
}
use kernel_from_scratch.Shell.Ready.{Found, find_command-Found}
use kernel_from_scratch.Shell.Modes.{
  Mode, mode, once, repeated, effect, noting, effect_found, command_of, execute_text, Models,
}

bind-Models :
    (k : Kernel) (r : Run Kernel) (f : Kernel → Run Kernel) (g : Mode → Option Mode)
    → Models (some (mode k)) r
    → ((k : Kernel) → Models (g (mode k)) (f k))
    → Models (g (mode k)) (r >>= f)
bind-Models k stuck f g h rest = tt
bind-Models k (halted l) f g h rest = absurd h
bind-Models k (done l) f g h rest = subst (λ m. Models (g m) (f l)) h (rest l)

settle-Models : (k : Kernel) (o : Option Console) → Models (some (mode k)) (settle k o)
settle-Models k none = tt
settle-Models k (some c) = refl

send_reboot-Models : (k : Kernel) (o : Option Machine) → Models (some (mode k)) (send_reboot k o)
send_reboot-Models k none = tt
send_reboot-Models k (some m) = refl

print_commands-Models : (n i : ℕ) (k : Kernel) → Models (some (mode k)) (print_commands n i k)
unfolding print_commands
print_commands-Models zero i k = refl
print_commands-Models (suc n) i k =
    bind-Models k _ (print_commands n (i + 1)) some (settle-Models k _)
      (print_commands-Models n (i + 1))

call_read-mode : (k : Kernel) → mode (call_read k) ≡ record (mode k) { is_reading = true }
unfolding call_read
call_read-mode k = elim (Bool-cases k.shell.read_pending) [
  | inl e ↦
      ap mode (if_then k.shell.read_pending _ _ e) ∙ ap (λ b. record (mode k) { is_reading = b }) e
  | inr e ↦ ap mode (if_else k.shell.read_pending _ _ e)
]

-- A function other than `last`.
call-Models :
    (p : Platform) (depth : ℕ) (f : Function) (k : Kernel)
    → calls_last f ≡ false
    → Models (once f (mode k)) (call p depth f k)
unfolding call call_help call_clear call_halt call_reboot keyboard_set_layout
call-Models p depth help k h =
    bind-Models k _ (print_commands command_count 0) some (settle-Models k _)
      (print_commands-Models command_count 0)
call-Models p depth clear k h = refl
call-Models p depth last k h = absurd (ground arith)
call-Models p depth pmultiboot k h = settle-Models k _
call-Models p depth pstack k h = settle-Models k _
call-Models p depth reboot k h =
    send_reboot-Models k (wait_input_buffer p.poll_fuel k.terminal.machine)
call-Models p depth halt k h = bind-Models k _ halted (λ _. none) (settle-Models k _) (λ k. tt)
call-Models p depth read k h = call_read-mode k
call-Models p depth azerty k h = refl
call-Models p depth qwerty k h = refl

calls_last-Models :
    (p : Platform) (depth : ℕ) (k : Kernel)
    → IsReady k.shell
    → Models (effect last (mode k)) (call p (suc depth) last k)
unfolding call
calls_last-Models p depth k r = again k.shell.last_command r.is_last
  where
    again :
        (o : Option ℕ)
        → IsLast k.shell.commands o
        → Models (repeated o (mode k)) (elim o [
          | some i ↦ call p depth (k.shell.commands i).function k
          | none ↦ kernel_printk (codes "No last command executed.\n") [] k
        ])
    again none t = settle-Models k _
    again (some i) (small, other) =
        subst
          (λ c. Models (once c.function (mode k)) (call p depth (k.shell.commands i).function k))
          (r.holds_table i small) (call-Models p depth (k.shell.commands i).function k other)

call_once-Models :
    (p : Platform) (depth : ℕ) (f : Function) (k : Kernel)
    → IsReady k.shell
    → Models (effect f (mode k)) (call p (suc depth) f k)
call_once-Models p depth help k r = call-Models p (suc depth) help k refl
call_once-Models p depth clear k r = call-Models p (suc depth) clear k refl
call_once-Models p depth last k r = calls_last-Models p depth k r
call_once-Models p depth pmultiboot k r = call-Models p (suc depth) pmultiboot k refl
call_once-Models p depth pstack k r = call-Models p (suc depth) pstack k refl
call_once-Models p depth reboot k r = call-Models p (suc depth) reboot k refl
call_once-Models p depth halt k r = call-Models p (suc depth) halt k refl
call_once-Models p depth read k r = call-Models p (suc depth) read k refl
call_once-Models p depth azerty k r = call-Models p (suc depth) azerty k refl
call_once-Models p depth qwerty k r = call-Models p (suc depth) qwerty k refl

-- The result of a line, without its Boolean.
abbrev pub forget : Run (Bool × Kernel) → Run Kernel
forget r = do (_, k) ← r; done k

remember-mode :
    (command : List ℕ) (i : ℕ) (k : Kernel)
    → mode (remember command i k) ≡ noting command i (mode k)
remember-mode command i k = elim (Bool-cases (same_text command (codes "last"))) [
  | inl e ↦ ap mode (if_then _ _ _ e) ∙ sym (if_then _ _ _ e)
  | inr e ↦ ap mode (if_else _ _ _ e) ∙ sym (if_else _ _ _ e)
]

noted :
    (command : List ℕ) (i : ℕ) (o : Option Mode) (r : Run Kernel)
    → Models o r
    → Models (Option.map (noting command i) o) (
        forget (do
          k ← r
          let k = remember command i k
          done (true, on_screen (terminal_end_output (not k.shell.read_pending)) k)))
noted command i o stuck h = tt
noted command i none (halted k) h = tt
noted command i (some m) (halted k) h = absurd h
noted command i none (done k) h = absurd h
noted command i (some m) (done k) h = remember-mode command i k ∙ ap (noting command i) h

not_found-mode : (command : List ℕ) (k : Kernel) → mode (not_found command k) ≡ mode k
not_found-mode [] k = refl
not_found-mode (x ∷ xs) k = refl

done-Models :
    (m : Mode) (b : Bool) (k : Kernel) (r : Run (Bool × Kernel))
    → r ≡ done (b, k)
    → mode k ≡ m
    → Models (some m) (forget r)
done-Models m b k r e h = rw e h

execute_found-Models :
    (p : Platform) (depth : ℕ) (command : List ℕ) (k : Kernel) (o : Option ℕ)
    → IsReady k.shell
    → length command < 2 ^ 32
    → Found k.shell.commands command command_count o
    → Models (effect_found command o (mode k)) (forget (execute_found p (suc depth) command o k))
unfolding execute_command
execute_found-Models p depth command k none r short w =
    done-Models (mode k) false _ _ (execute_unknown-not_found command k short)
      (not_found-mode command (on_screen terminal_begin_output k))
execute_found-Models p depth command k (some i) r short (small, name) =
    let begun = on_screen terminal_begin_output k in
    noted command i _ (call p (suc depth) (k.shell.commands i).function begun) (
      subst
        (λ c.
          Models (effect c.function (mode k))
            (call p (suc depth) (k.shell.commands i).function begun))
        (r.holds_table i small)
        (call_once-Models p depth (k.shell.commands i).function begun
          (record { holds_table = r.holds_table; is_last = r.is_last })))

find_command-command_of :
    (command : List ℕ) → find_command command_count 0 table command ≡ command_of command
unfolding find_command
find_command-command_of command = refl

idle-Models :
    (p : Platform) (depth : ℕ) (command : List ℕ) (k : Kernel)
    → IsReady k.shell
    → length command < 2 ^ 32
    → k.shell.read_pending ≡ false
    → Models
        (effect_found command (command_of command) (mode k))
        (forget (shell_execute p (suc depth) command k))
unfolding shell_execute
idle-Models p depth command k r short e =
    subst (λ q. Models (effect_found command (command_of command) (mode k)) (forget q))
      (sym (if_else k.shell.read_pending _ _ e))
      (subst
        (λ o. Models (effect_found command o (mode k)) (
          forget (
            execute_found p (suc depth) command
              (find_command command_count 0 k.shell.commands command) k)))
        (find_command-table k.shell command r ∙ find_command-command_of command)
        (execute_found-Models p depth command k
          (find_command command_count 0 k.shell.commands command) r short
          (find_command-Found command_count 0 k.shell.commands command)))

pub shell_execute-Models :
    (p : Platform) (depth : ℕ) (command : List ℕ) (k : Kernel)
    → IsReady k.shell
    → length command < 2 ^ 32
    → Models (execute_text command (mode k)) (forget (shell_execute p (suc depth) command k))
shell_execute-Models p depth command k r short = elim (Bool-cases k.shell.read_pending) [
  | inl e ↦
      subst (λ o. Models o (forget (shell_execute p (suc depth) command k)))
        (sym (if_then k.shell.read_pending _ _ e))
        (done-Models _ true _ _ (shell_execute-pending p (suc depth) command k e short) refl)
  | inr e ↦
      subst (λ o. Models o (forget (shell_execute p (suc depth) command k)))
        (sym (if_else k.shell.read_pending _ _ e)) (idle-Models p depth command k r short e)
]
