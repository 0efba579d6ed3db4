-- ===== src/Shell/Repeat.antt =====
-- shell.c: the command that `last` repeats.
use mathlib.Core.Path.{subst}
use kernel_from_scratch.Prelude.{
  ℕ, zero, suc, ◌+◌, ◌<◌, ◌≡◌, ◌≢◌, refl, sym, ap, ◌∙◌, arith, Bool, true, false, not,
  if◌then◌else◌, Option, none, some, List, [], codes, Bool-cases, inl, inr,
}
use kernel_from_scratch.Terminal.{Console}
use kernel_from_scratch.Terminal.Output.{terminal_begin_output, terminal_end_output}
use kernel_from_scratch.Machine.{Machine}
use kernel_from_scratch.Shell.{
  Function, help, clear, last, pmultiboot, pstack, reboot, halt, read, azerty, qwerty, Kernel,
  Platform, Run, stuck, halted, done, ◌>>=◌, on_screen, kernel_printk, call, call_help, call_clear,
  call_halt, call_reboot, print_commands, send_reboot, wait_input_buffer, settle, command_count,
  same_text, remember, shell_execute,
}
use kernel_from_scratch.Shell.Table.{table, IsReady, calls_last, table-last}
use kernel_from_scratch.Shell.Lines.{same_text-eq, shell_execute-name}

-- Where a call returns, the shell's variables are as before.
abbrev KeepsShell : Kernel → Run Kernel → Type 0
KeepsShell k stuck = Unit
KeepsShell k (halted k') = Unit
KeepsShell k (done k') = k'.shell ≡ k.shell

trans-KeepsShell :
    (k k' : Kernel) (r : Run Kernel) → k'.shell ≡ k.shell → KeepsShell k' r → KeepsShell k r
trans-KeepsShell k k' stuck e h = tt
trans-KeepsShell k k' (halted l) e h = tt
trans-KeepsShell k k' (done l) e h = h ∙ e

bind-KeepsShell :
    (k : Kernel) (r : Run Kernel) (f : Kernel → Run Kernel)
    → KeepsShell k r
    → ((k : Kernel) → KeepsShell k (f k))
    → KeepsShell k (r >>= f)
bind-KeepsShell k stuck f h g = tt
bind-KeepsShell k (halted k') f h g = tt
bind-KeepsShell k (done k') f h g = trans-KeepsShell k k' (f k') h (g k')

settle-KeepsShell : (k : Kernel) (o : Option Console) → KeepsShell k (settle k o)
settle-KeepsShell k none = tt
settle-KeepsShell k (some c) = refl

send_reboot-KeepsShell : (k : Kernel) (o : Option Machine) → KeepsShell k (send_reboot k o)
send_reboot-KeepsShell k none = tt
send_reboot-KeepsShell k (some m) = refl

print_commands-KeepsShell : (n i : ℕ) (k : Kernel) → KeepsShell k (print_commands n i k)
unfolding print_commands
print_commands-KeepsShell zero i k = refl
print_commands-KeepsShell (suc n) i k =
    bind-KeepsShell k _ (print_commands n (i + 1)) (settle-KeepsShell k _)
      (print_commands-KeepsShell n (i + 1))

-- The functions that do not touch the shell's variables themselves.
abbrev is_plain : Function → Bool
is_plain last = false
is_plain read = false
is_plain _ = true

call-KeepsShell :
    (p : Platform) (depth : ℕ) (f : Function) (k : Kernel)
    → is_plain f ≡ true
    → KeepsShell k (call p depth f k)
unfolding call call_help call_clear call_halt call_reboot
call-KeepsShell p depth help k h =
    bind-KeepsShell k _ (print_commands command_count 0) (settle-KeepsShell k _)
      (print_commands-KeepsShell command_count 0)
call-KeepsShell p depth clear k h = refl
call-KeepsShell p depth last k h = absurd (ground arith)
call-KeepsShell p depth pmultiboot k h = settle-KeepsShell k _
call-KeepsShell p depth pstack k h = settle-KeepsShell k _
call-KeepsShell p depth reboot k h =
    send_reboot-KeepsShell k (wait_input_buffer p.poll_fuel k.terminal.machine)
call-KeepsShell p depth halt k h = bind-KeepsShell k _ halted (settle-KeepsShell k _) (λ k. tt)
call-KeepsShell p depth read k h = absurd (ground arith)
call-KeepsShell p depth azerty k h = refl
call-KeepsShell p depth qwerty k h = refl

table-is_plain :
    (i : ℕ)
    → i < command_count
    → (table i).name ≢ codes "last"
    → (table i).name ≢ codes "read"
    → is_plain (table i).function ≡ true
table-is_plain zero h l r = refl
table-is_plain (suc zero) h l r = refl
table-is_plain (suc (suc zero)) h l r = absurd (l refl)
table-is_plain (suc (suc (suc zero))) h l r = refl
table-is_plain (suc (suc (suc (suc zero)))) h l r = refl
table-is_plain (suc (suc (suc (suc (suc zero))))) h l r = refl
table-is_plain (suc (suc (suc (suc (suc (suc zero)))))) h l r = refl
table-is_plain (suc (suc (suc (suc (suc (suc (suc zero))))))) h l r = absurd (r refl)
table-is_plain (suc (suc (suc (suc (suc (suc (suc (suc zero)))))))) h l r = refl
table-is_plain (suc (suc (suc (suc (suc (suc (suc (suc (suc zero))))))))) h l r = refl
table-is_plain (suc (suc (suc (suc (suc (suc (suc (suc (suc (suc i)))))))))) h l r =
    absurd (omega (arith, h))

other_text : (a b : List ℕ) → a ≢ b → same_text a b ≡ false
other_text a b ne = elim (Bool-cases (same_text a b)) [
  | inl e ↦ absurd (ne (same_text-eq a b e))
  | inr e ↦ e
]

abbrev repeated : List ℕ → ℕ → Kernel → Kernel
repeated name i k = record k { shell = record k.shell { last_command = some i } }

remember-other :
    (name : List ℕ) (i : ℕ) (k : Kernel)
    → name ≢ codes "last"
    → remember name i k ≡ repeated name i k
remember-other name i k ne = ap (λ b. if b then k else repeated name i k) (other_text _ _ ne)

-- The end of a command's output.
abbrev ended : Kernel → Run (Bool × Kernel)
ended k = done (true, on_screen (terminal_end_output (not k.shell.read_pending)) k)

-- Remembering a command that is remembered already changes nothing.
again :
    (name : List ℕ) (i : ℕ) (k : Kernel) (r : Run Kernel)
    → name ≢ codes "last"
    → k.shell.last_command ≡ some i
    → KeepsShell k r
    → (r >>= ended) ≡ (r >>= λ k. ended (remember name i k))
again name i k stuck ne e h = refl
again name i k (halted l) ne e h = refl
again name i k (done l) ne e h = ap ended (
    ap (λ o. record l { shell = record l.shell { last_command = o } })
      (ap (λ s. s.last_command) h ∙ e)
    ∙ sym (remember-other name i l ne))

-- `last` while `last_command` is the command of that name.
last-name :
    (p : Platform) (depth i : ℕ) (k : Kernel)
    → IsReady k.shell
    → k.shell.read_pending ≡ false
    → i < command_count
    → (table i).name ≢ codes "last"
    → (table i).name ≢ codes "read"
    → k.shell.last_command ≡ some i
    → shell_execute p (suc depth) (codes "last") k ≡ shell_execute p depth (table i).name k
unfolding call
last-name p depth i k r idle h nl nr e =
    let begun = on_screen terminal_begin_output k in
    let repeats : call p (suc depth) last begun ≡ call p depth (table i).function begun =
      ap
        (λ (o : Option ℕ). elim o [
          | some i ↦ call p depth (k.shell.commands i).function begun
          | none ↦ kernel_printk (codes "No last command executed.\n") [] begun
        ])
        e
      ∙ ap (λ c. call p depth c.function begun) (r.holds_table i h) in
    shell_execute-name p (suc depth) 2 k r idle (omega arith)
    ∙ ap (λ q. q >>= ended) repeats
    ∙ again (table i).name i begun (call p depth (table i).function begun) nl e
        (call-KeepsShell p depth (table i).function begun (table-is_plain i h nl nr))
    ∙ sym (shell_execute-name p depth i k r idle h)

-- The shell behind a command of the table.
remembered-IsReady :
    (k k' : Kernel) (i : ℕ)
    → IsReady k.shell
    → k'.shell ≡ k.shell
    → i < command_count
    → (table i).name ≢ codes "last"
    → IsReady (repeated (table i).name i k').shell
remembered-IsReady k k' i r e h ne =
    let commands : (j : ℕ) → j < command_count → k'.shell.commands j ≡ table j =
      λ j q. ap (λ s. s.commands j) e ∙ r.holds_table j q in
    record {
      holds_table = commands;
      is_last = (
        h,
        ap (λ c. calls_last c.function) (commands i h)
            ∙ table-last i h
            ∙ other_text (table i).name (codes "last") ne,
      );
    }

-- In a state whose shell is ready, when no `read` waits, a command of the table other than `last`
-- and `read`, and then `last`, does the same as the command two times: `last` repeats the latest
-- command, and leaves it the one that is repeated.
pub shell_execute-last :
    (p : Platform) (depth i : ℕ) (k : Kernel)
    → IsReady k.shell
    → k.shell.read_pending ≡ false
    → i < command_count
    → (table i).name ≢ codes "last"
    → (table i).name ≢ codes "read"
    → (do
      (_, k) ← shell_execute p depth (table i).name k
      shell_execute p (suc depth) (codes "last") k)
      ≡ (do (_, k) ← shell_execute p depth (table i).name k; shell_execute p depth (table i).name k)
shell_execute-last p depth i k r idle h nl nr =
    let begun = on_screen terminal_begin_output k in
    let f = (table i).function in
    ap (λ q. q >>= λ (_, k). shell_execute p (suc depth) (codes "last") k)
      (shell_execute-name p depth i k r idle h)
    ∙ both (call p depth f begun) (call-KeepsShell p depth f begun (table-is_plain i h nl nr))
    ∙ sym (
        ap (λ q. q >>= λ (_, k). shell_execute p depth (table i).name k)
          (shell_execute-name p depth i k r idle h))
  where
    behind : Run Kernel → (Kernel → Run (Bool × Kernel)) → Run (Bool × Kernel)
    behind q f = (q >>= λ k. ended (remember (table i).name i k)) >>= λ (_, k). f k

    behind_one : Kernel → (Kernel → Run (Bool × Kernel)) → Run (Bool × Kernel)
    behind_one m f = ended m >>= λ (_, k). f k

    both :
        (q : Run Kernel)
        → KeepsShell k q
        → behind q (shell_execute p (suc depth) (codes "last"))
          ≡ behind q (shell_execute p depth (table i).name)
    both stuck kept = refl
    both (halted l) kept = refl
    both (done l) kept =
        let l' = repeated (table i).name i l in
        subst
          (λ m.
            behind_one m (shell_execute p (suc depth) (codes "last"))
            ≡ behind_one m (shell_execute p depth (table i).name))
          (sym (remember-other (table i).name i l nl))
          (last-name p depth i (on_screen (terminal_end_output (not l'.shell.read_pending)) l')
            (remembered-IsReady k l i r kept h nl) (ap (λ s. s.read_pending) kept ∙ idle) h nl nr
            refl)
