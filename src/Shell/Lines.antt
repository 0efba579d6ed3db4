-- ===== src/Shell/Lines.antt =====
-- shell.c: what a line leads to.
use kernel_from_scratch.Prelude.{
  ℕ, zero, suc, ◌+◌, ◌^◌, ◌<◌, ◌≡◌, ◌≢◌, refl, sym, ap, ◌∙◌, arith, Bool, true, false, not,
  if◌then◌else◌, Bool-cases, inl, inr, Option, none, some, List, [], ◌∷◌, length, codes,
}
use kernel_from_scratch.Terminal.{Console}
use kernel_from_scratch.Terminal.Put.{put_chars}
use kernel_from_scratch.Terminal.Output.{terminal_begin_output, terminal_end_output}
use kernel_from_scratch.Printk.{Args, text, print}
use kernel_from_scratch.Printk.Text.{join}
use kernel_from_scratch.Printk.Writes.{
  IsWritten, print-IsWritten, writes_nil, writes_plain, writes_s,
}
use kernel_from_scratch.Shell.{
  Command, Kernel, Platform, done, ◌>>=◌, console, on_screen, attempt, kernel_printk, call,
  command_count, same_text, find_command, remember, execute_read, execute_command, execute_unknown,
  execute_found, settle, shell_execute,
}
use kernel_from_scratch.Shell.Table.{table, IsReady, find_command-table}

pub if_else {ℓ} : {A : Type ℓ} (b : Bool) (x y : A) → b ≡ false → (if b then x else y) ≡ y
if_else b x y e = rw e refl

pub if_then {ℓ} : {A : Type ℓ} (b : Bool) (x y : A) → b ≡ true → (if b then x else y) ≡ x
if_then b x y e = rw e refl

pub attempt-put_chars :
    (f : Console → Option Console) (t : List ℕ) (k : Kernel)
    → f (console k) ≡ some (put_chars t (console k))
    → attempt f k ≡ done (on_screen (put_chars t) k)
attempt-put_chars f t k h = ap (settle k) h

pub kernel_printk-IsWritten :
    (format : List ℕ) (args : Args) (t : List ℕ) (k : Kernel)
    → IsWritten format args t
    → kernel_printk format args k ≡ done (on_screen (put_chars t) k)
kernel_printk-IsWritten format args t k w =
    attempt-put_chars (print format args) t k (print-IsWritten format args t (console k) w)

pub same_text-eq : (a b : List ℕ) → same_text a b ≡ true → a ≡ b
same_text-eq [] [] h = refl
same_text-eq [] (y ∷ ys) h = absurd (ground arith)
same_text-eq (x ∷ xs) [] h = absurd (ground arith)
same_text-eq (x ∷ xs) (y ∷ ys) h =
    let here : x ≡ y = ground arith in
    let there : same_text xs ys ≡ true = ground arith in rw (here, same_text-eq xs ys there) refl

find_command-none :
    (n i : ℕ) (f : ℕ → Command) (command : List ℕ)
    → ((j : ℕ) → j < i + n → (f j).name ≢ command)
    → find_command n i f command ≡ none
unfolding find_command
find_command-none zero i f command h = refl
find_command-none (suc n) i f command h = elim (Bool-cases (same_text command (f i).name)) [
  | inl e ↦ absurd (h i (omega arith) (sym (same_text-eq command (f i).name e)))
  | inr e ↦ rw e (find_command-none n (i + 1) f command (λ j k. h j (omega (arith, k))))
]

pub find_command-name :
    (i : ℕ) → i < command_count → find_command command_count 0 table (table i).name ≡ some i
unfolding find_command
find_command-name zero h = refl
find_command-name (suc zero) h = refl
find_command-name (suc (suc zero)) h = refl
find_command-name (suc (suc (suc zero))) h = refl
find_command-name (suc (suc (suc (suc zero)))) h = refl
find_command-name (suc (suc (suc (suc (suc zero))))) h = refl
find_command-name (suc (suc (suc (suc (suc (suc zero)))))) h = refl
find_command-name (suc (suc (suc (suc (suc (suc (suc zero))))))) h = refl
find_command-name (suc (suc (suc (suc (suc (suc (suc (suc zero)))))))) h = refl
find_command-name (suc (suc (suc (suc (suc (suc (suc (suc (suc zero))))))))) h = refl
find_command-name (suc (suc (suc (suc (suc (suc (suc (suc (suc (suc i)))))))))) h =
    absurd (omega (arith, h))

-- A line that is the name of a command of the table calls its function, between the start and the
-- end of an output. It is then the command that `last` repeats, if it is not `last`; and the prompt
-- follows, if no `read` waits for a line.
pub shell_execute-name :
    (p : Platform) (depth i : ℕ) (k : Kernel)
    → IsReady k.shell
    → k.shell.read_pending ≡ false
    → i < command_count
    → shell_execute p depth (table i).name k ≡ (do
      k ← call p depth (table i).function (on_screen terminal_begin_output k)
      let k = remember (table i).name i k
      done (true, on_screen (terminal_end_output (not k.shell.read_pending)) k))
unfolding shell_execute execute_command
shell_execute-name p depth i k r e h =
    let found = find_command-table k.shell (table i).name r ∙ find_command-name i h in
    if_else _ _ _ e
    ∙ ap (λ o. execute_found p depth (table i).name o k) found
    ∙ ap
        (λ f. do
          k ← call p depth f (on_screen terminal_begin_output k)
          let k = remember (table i).name i k
          done (true, on_screen (terminal_end_output (not k.shell.read_pending)) k))
        (ap (λ c. c.function) (r.holds_table i h))

-- The message about a line that is no command, unless it is empty.
abbrev pub not_found : List ℕ → Kernel → Kernel
not_found [] k = k
not_found (x ∷ xs) k =
    on_screen (put_chars (join ((x ∷ xs) ∷ codes ": command not found\n" ∷ []))) k

pub execute_unknown-not_found :
    (command : List ℕ) (k : Kernel)
    → length command < 2 ^ 32
    → execute_unknown command k
      ≡ done (
        false,
        on_screen
            (terminal_end_output true)
            (not_found command (on_screen terminal_begin_output k)),
      )
unfolding execute_unknown
execute_unknown-not_found [] k short = refl
execute_unknown-not_found (x ∷ xs) k short =
    ap (λ r. r >>= λ k. done (false, on_screen (terminal_end_output true) k))
      (kernel_printk-IsWritten (codes "%s: command not found\n") (text (some (x ∷ xs)) ∷ []) _
        (on_screen terminal_begin_output k)
        (writes_s (some (x ∷ xs)) _ _ _ short
          (writes_plain (codes ": command not found\n") [] [] [] refl (writes_nil [] tt))))

-- A line that is no name of the table, when no `read` waits: nothing is called and nothing of the
-- shell changes. The message is printed, unless the line is empty, and the prompt follows.
pub shell_execute-not_found :
    (p : Platform) (depth : ℕ) (command : List ℕ) (k : Kernel)
    → IsReady k.shell
    → k.shell.read_pending ≡ false
    → ((i : ℕ) → i < command_count → (table i).name ≢ command)
    → length command < 2 ^ 32
    → shell_execute p depth command k
      ≡ done (
        false,
        on_screen
            (terminal_end_output true)
            (not_found command (on_screen terminal_begin_output k)),
      )
unfolding shell_execute
shell_execute-not_found p depth command k r e h short =
    let missing =
      find_command-table k.shell command r
      ∙ find_command-none command_count 0 table command (λ j q. h j (omega (arith, q))) in
    if_else _ _ _ e
    ∙ ap (λ o. execute_found p depth command o k) missing
    ∙ execute_unknown-not_found command k short

abbrev pub quoted : List ℕ → List ℕ
quoted command = join (codes "read: \"" ∷ command ∷ codes "\"" ∷ [])

-- A line that comes while `read` waits is printed between quotes, whatever it is: no command is
-- looked up. `read` no longer waits, and `last` repeats the command that it repeated before.
pub shell_execute-pending :
    (p : Platform) (depth : ℕ) (command : List ℕ) (k : Kernel)
    → k.shell.read_pending ≡ true
    → length command < 2 ^ 32
    → shell_execute p depth command k
      ≡ done (
        true,
        (let k = on_screen terminal_begin_output k in
            let k = on_screen (put_chars (quoted command)) k in
            let k = on_screen (terminal_end_output true) k in
            record k { shell = record k.shell { read_pending = false } }),
      )
unfolding shell_execute execute_read
shell_execute-pending p depth command k e short =
    if_then _ _ _ e
    ∙ ap
        (λ r. r >>= λ k.
          let k = on_screen (terminal_end_output true) k in
          done (true, record k { shell = record k.shell { read_pending = false } }))
        (kernel_printk-IsWritten (codes "read: \"%s\"") (text (some command) ∷ []) _
          (on_screen terminal_begin_output k)
          (writes_plain (codes "read: \"") _ _ _ refl (
            writes_s (some command) _ _ _ short
              (writes_plain (codes "\"") [] [] [] refl (writes_nil [] tt)))))
