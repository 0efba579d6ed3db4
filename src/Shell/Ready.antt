-- ===== src/Shell/Ready.antt =====
-- shell.c: no line stops the shell from taking the next one, but `halt`.
use mathlib.Core.Path.{subst}
use kernel_from_scratch.Prelude.{
  ◌⊎◌, ℕ, zero, suc, ◌+◌, ◌^◌, ◌<◌, ◌≡◌, refl, sym, ap, ◌∙◌, arith, Bool, true, false, not,
  if◌then◌else◌, Bool-cases, inl, inr, Option, none, some, List, [], ◌∷◌, length, codes, if_elim,
}
use kernel_from_scratch.Terminal.Put.{put_chars}
use kernel_from_scratch.Terminal.Output.{terminal_begin_output, terminal_end_output}
use kernel_from_scratch.Terminal.Screens.{current_screen}
use kernel_from_scratch.Terminal.Advance.{IsValid}
use kernel_from_scratch.Terminal.Screens.Desk.{Stays, refl-Stays, trans-Stays}
use kernel_from_scratch.Terminal.Line.{Line, Holds, empty_line}
use kernel_from_scratch.Shell.{
  Command, Kernel, Platform, Run, stuck, halted, done, ◌>>=◌, on_screen, call, command_count,
  same_text, find_command, remember, execute_read, execute_command, execute_found, shell_execute,
}
use kernel_from_scratch.Shell.Table.{table, IsReady, calls_last, table-last}
use kernel_from_scratch.Shell.Lines.{
  quoted, not_found, same_text-eq, shell_execute-pending, execute_unknown-not_found,
}
use kernel_from_scratch.Shell.Ends.{
  EndsOr, EndsOr-weaken, repeats_halt, stops, Serves, Keeps, put_chars-Keeps, ended-Holds,
  begun-IsValid, begun-Serves, begun-Stays, ended-Stays, done-Ends, call_once-Ends,
}

-- An index that the search finds, with the name that it found it by.
abbrev pub Found : (ℕ → Command) → List ℕ → ℕ → Option ℕ → Type 0
Found commands command n none = Unit
Found commands command n (some i) = (i < n) × (same_text command (commands i).name ≡ true)

pub find_command-Found :
    (n i : ℕ) (commands : ℕ → Command) (command : List ℕ)
    → Found commands command (i + n) (find_command n i commands command)
unfolding find_command
find_command-Found zero i commands command = tt
find_command-Found (suc n) i commands command =
    let next : i + 1 + n ≡ i + suc n = omega arith in
    if_elim (Found commands command (i + suc n)) (same_text command (commands i).name)
      (λ e. (omega arith, e)) (λ e. rw (← next) (find_command-Found n (i + 1) commands command))

-- What a line leaves of the state `k`: a shell that is ready for the next one, an empty line on the
-- screen, and Ctrl, the loader's map, the other screens and the hardware as they were.
abbrev pub LeavesReady : Kernel → Bool × Kernel → Type 0
LeavesReady k (b, k') =
    IsReady k'.shell
    × Holds (current_screen k'.terminal) empty_line
    × (k'.keyboard.is_ctrl ≡ k.keyboard.is_ctrl)
    × (k'.shell.mbi ≡ k.shell.mbi)
    × Stays k.terminal k'.terminal

Keeps-IsReady : (k k' : Kernel) → Keeps k k' → IsReady k.shell → IsReady k'.shell
Keeps-IsReady k k' (same, last_same, ctrl, valid, map, stays) r = record {
  holds_table = rw same r.holds_table;
  is_last = rw (same, last_same) r.is_last;
}

-- A command's output that is ended.
ended-LeavesReady :
    (show_prompt b : Bool) (k k' : Kernel)
    → IsReady k'.shell
    → Keeps (on_screen terminal_begin_output k) k'
    → IsValid (current_screen (on_screen terminal_begin_output k).terminal)
    → LeavesReady k (b, on_screen (terminal_end_output show_prompt) k')
ended-LeavesReady show_prompt b k k' r (same, last_same, ctrl, valid, map, stays) v = (
  r,
  ended-Holds show_prompt k' (valid v),
  ctrl,
  map,
  trans-Stays k.terminal k'.terminal _
      (trans-Stays k.terminal (on_screen terminal_begin_output k).terminal k'.terminal
        (begun-Stays k) stays)
      (ended-Stays show_prompt k'),
)

-- Remembering the command changes `last_command` only.
remember-LeavesReady :
    (show_prompt : Bool) (command : List ℕ) (i : ℕ) (k k' : Kernel)
    → IsReady (remember command i k').shell
    → LeavesReady k (true, on_screen (terminal_end_output show_prompt) k')
    → LeavesReady k (true, on_screen (terminal_end_output show_prompt) (remember command i k'))
remember-LeavesReady show_prompt command i k k' r l =
    if_elim
      (λ (q : Kernel).
        IsReady q.shell → LeavesReady k (true, on_screen (terminal_end_output show_prompt) q))
      (same_text command (codes "last")) (λ yes r. (r, l.1, l.2, l.3, l.4))
      (λ no r. (r, l.1, l.2, l.3, l.4)) r

call_found-Ends :
    (p : Platform) (depth i : ℕ) (command : List ℕ) (k : Kernel)
    → IsReady k.shell
    → IsValid (current_screen (on_screen terminal_begin_output k).terminal)
    → Serves p (on_screen terminal_begin_output k)
    → i < command_count
    → same_text command (k.shell.commands i).name ≡ true
    → EndsOr
        (stops k.shell (k.shell.commands i).function ≡ true)
        (LeavesReady k)
        (execute_command p (suc depth) command i k)
unfolding execute_command
call_found-Ends p depth i command k r v s h e =
    let begun = on_screen terminal_begin_output k in
    behind _ (call p (suc depth) (k.shell.commands i).function begun)
      (call_once-Ends p depth (k.shell.commands i).function begun r s)
  where
    remembered : (k' : Kernel) → IsReady k'.shell → IsReady (remember command i k').shell
    remembered k' r' =
        let named : command ≡ (table i).name =
          same_text-eq command (k.shell.commands i).name e ∙ ap (λ c. c.name) (r.holds_table i h) in
        if_elim (λ (q : Kernel). IsReady q.shell) (same_text command (codes "last")) (λ yes. r')
          (λ no. record {
            holds_table = r'.holds_table;
            is_last = (
              h,
              ap (λ c. calls_last c.function) (r'.holds_table i h)
                  ∙ table-last i h
                  ∙ ap (λ n. same_text n (codes "last")) (sym named)
                  ∙ no,
            );
          })

    behind :
        (H : Type 0) (c : Run Kernel)
        → EndsOr H (Keeps (on_screen terminal_begin_output k)) c
        → EndsOr H (LeavesReady k) (do
          k ← c
          let k = remember command i k
          done (true, on_screen (terminal_end_output (not k.shell.read_pending)) k))
    behind H stuck n = n
    behind H (halted k') n = n
    behind H (done k') keeps =
        let ready = Keeps-IsReady (on_screen terminal_begin_output k) k' keeps r in
        let show_prompt = not (remember command i k').shell.read_pending in
        remember-LeavesReady show_prompt command i k k' (remembered k' ready)
          (ended-LeavesReady show_prompt true k k' ready keeps v)

not_found-Keeps : (command : List ℕ) (k : Kernel) → Keeps k (not_found command k)
not_found-Keeps [] k = (refl, refl, refl, λ v. v, refl, refl-Stays k.terminal)
not_found-Keeps (x ∷ xs) k = put_chars-Keeps _ k

-- The texts on which the shell stops the processor: `halt`, and `last` if it repeats `halt`.
abbrev pub Halting : Kernel → List ℕ → Type 0
Halting k command =
    (k.shell.read_pending ≡ false)
    × ((command ≡ codes "halt")
        ⊎ ((command ≡ codes "last") × (repeats_halt k.shell.commands k.shell.last_command ≡ true)))

table-Halting :
    (k : Kernel) (i : ℕ)
    → i < command_count
    → k.shell.read_pending ≡ false
    → stops k.shell (table i).function ≡ true
    → Halting k (table i).name
table-Halting k zero h e t = absurd (ground arith)
table-Halting k (suc zero) h e t = absurd (ground arith)
table-Halting k (suc (suc zero)) h e t = (e, inr (refl, t))
table-Halting k (suc (suc (suc zero))) h e t = absurd (ground arith)
table-Halting k (suc (suc (suc (suc zero)))) h e t = absurd (ground arith)
table-Halting k (suc (suc (suc (suc (suc zero))))) h e t = absurd (ground arith)
table-Halting k (suc (suc (suc (suc (suc (suc zero)))))) h e t = (e, inl refl)
table-Halting k (suc (suc (suc (suc (suc (suc (suc zero))))))) h e t = absurd (ground arith)
table-Halting k (suc (suc (suc (suc (suc (suc (suc (suc zero)))))))) h e t = absurd (ground arith)
table-Halting k (suc (suc (suc (suc (suc (suc (suc (suc (suc zero))))))))) h e t =
    absurd (ground arith)
table-Halting k (suc (suc (suc (suc (suc (suc (suc (suc (suc (suc i)))))))))) h e t =
    absurd (omega (arith, h))

-- The command that is found stops the processor only for one of those texts.
found-Halting :
    (k : Kernel) (i : ℕ) (command : List ℕ)
    → IsReady k.shell
    → i < command_count
    → same_text command (k.shell.commands i).name ≡ true
    → k.shell.read_pending ≡ false
    → stops k.shell (k.shell.commands i).function ≡ true
    → Halting k command
found-Halting k i command r h name e t =
    let entry = r.holds_table i h in
    let named : command ≡ (table i).name =
      same_text-eq command (k.shell.commands i).name name ∙ ap (λ c. c.name) entry in
    subst (Halting k) (sym named)
      (table-Halting k i h e (subst (λ c. stops k.shell c.function ≡ true) entry t))

-- In a state whose table is the one of `shell_init`, whose `last_command` is not `last`, and whose
-- current screen holds a line, any text of fewer than 2 ^ 32 characters is executed: if the
-- platform serves the calls, then `shell_execute`, with one call of `last` at most, is not stuck,
-- and it returns unless the text is `halt`, or `last` while `last_command` is `halt`, and no `read`
-- waits. When it returns, the table and `last_command` are so again, the current screen is the same
-- one and holds an empty line, and Ctrl, the other screens, the current one's colors, the loader's
-- map and the hardware are as they were.
pub shell_execute-EndsOr :
    (p : Platform) (depth : ℕ) (command : List ℕ) (k : Kernel) (l : Line)
    → IsReady k.shell
    → Holds (current_screen k.terminal) l
    → Serves p k
    → length command < 2 ^ 32
    → EndsOr (Halting k command) (LeavesReady k) (shell_execute p (suc depth) command k)
unfolding shell_execute
shell_execute-EndsOr p depth command k l r w s short = elim (Bool-cases k.shell.read_pending) [
  | inl e ↦
      let printed = on_screen (put_chars (quoted command)) begun in
      let keeps = put_chars-Keeps (quoted command) begun in
      let ended =
        ended-LeavesReady true true k printed (Keeps-IsReady begun printed keeps r) keeps v in
      done-Ends _ (LeavesReady k) _ _ (shell_execute-pending p (suc depth) command k e short) (
        record { holds_table = ended.0.holds_table; is_last = ended.0.is_last },
        ended.1,
        ended.2,
        ended.3,
        ended.4,
      )
  | inr e ↦
      found k.shell.read_pending e e (find_command command_count 0 k.shell.commands command)
        (find_command-Found command_count 0 k.shell.commands command)
]
  where
    begun : Kernel
    begun = on_screen terminal_begin_output k

    v : IsValid (current_screen begun.terminal)
    v = begun-IsValid k l w

    found :
        (b : Bool)
        → b ≡ false
        → k.shell.read_pending ≡ false
        → (o : Option ℕ) → Found k.shell.commands command command_count o
        → EndsOr
            (Halting k command)
            (LeavesReady k)
            (if b then execute_read command k else execute_found p (suc depth) command o k)
    found true e idle o w = absurd (ground (arith, e))
    found false e idle none w =
        let keeps = not_found-Keeps command begun in
        done-Ends _ (LeavesReady k) _ _ (execute_unknown-not_found command k short) (
          ended-LeavesReady true false k (not_found command begun)
            (Keeps-IsReady begun (not_found command begun) keeps r) keeps v)
    found false e idle (some i) (small, name) =
        EndsOr-weaken _ _ (LeavesReady k) _ (found-Halting k i command r small name idle)
          (call_found-Ends p depth i command k r v (begun-Serves p k s) small name)
