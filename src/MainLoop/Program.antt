-- ===== src/MainLoop/Program.antt =====
-- keyboard.c, shell.c and terminal.c: any sequence of keys on the whole program, as what it promises:
-- ten lines, of which one is shown, and the variables that say what the next key and line do.
use mathlib.Core.Path.{subst}
use mathlib.Core.Option
use kernel_from_scratch.Prelude.{
  ℕ, suc, ◌^◌, ◌<◌, ◌≡◌, refl, sym, ap, arith, Option, none, some, List, [], ◌∷◌, length,
}
use kernel_from_scratch.Terminal.Screens.Desk.{Desk, Mirrors, line_or_empty, shown-Holds}
use kernel_from_scratch.Terminal.Screens.{current_screen}
use kernel_from_scratch.Keyboard.{
  Action, nothing, put_input, delete_input, delete_forward, move_input, switch_to, execute,
  handle_scancode,
}
use kernel_from_scratch.Keyboard.Typing.{desk_by}
use kernel_from_scratch.Shell.{Kernel, Platform, Run, stuck, halted, done, ◌>>=◌, is_reading}
use kernel_from_scratch.Shell.Table.{IsReady}
use kernel_from_scratch.Shell.Ends.{EndsOr-weaken, Ends, Serves, same-Serves}
use kernel_from_scratch.Shell.Modes.{Mode, mode, execute_text, Models}
use kernel_from_scratch.Shell.Models.{shell_execute-Models}
use kernel_from_scratch.MainLoop.{before_nul, execute_buffer, execute_input, act, press_scancode}
use kernel_from_scratch.MainLoop.Keys.{Follows, get_line, length-before_nul, press_scancode-Follows}
use kernel_from_scratch.MainLoop.Typed.{press_keys}

pub record Program : Type 0 where
  pub desk : Desk
  pub mode : Mode

-- The text of the line that is shown.
abbrev pub shown_text : Desk → List ℕ
shown_text d = before_nul (line_or_empty (d.lines d.shown)).text

-- The variables behind an action: only Enter changes them, by the text of the line.
abbrev pub mode_by : Action → List ℕ → Mode → Option Mode
mode_by execute text m = execute_text text m
mode_by _ text m = some m

-- A key, which leaves none if it stops the processor.
abbrev pub press_program : ℕ → Program → Option Program
press_program scancode q =
    let (keyboard, action) = handle_scancode q.mode.is_reading scancode q.mode.keyboard in
    Option.map (λ m. record { desk = desk_by action q.desk; mode = m })
      (mode_by action (shown_text q.desk) (record q.mode { keyboard = keyboard }))

abbrev pub behind : Option Program → (Program → Option Program) → Option Program
behind none f = none
behind (some q) f = f q

abbrev pub press_program_keys : List ℕ → Program → Option Program
press_program_keys [] q = some q
press_program_keys (scancode ∷ scancodes) q =
    behind (press_program scancode q) (press_program_keys scancodes)

-- A state that implements the program: the shell is ready, the platform serves the commands, the
-- screens show the lines, and the variables are those of the program.
abbrev pub Implements : Platform → Program → Kernel → Type 0
Implements p q k = IsReady k.shell × Serves p k × Mirrors k.terminal q.desk × (mode k ≡ q.mode)

-- A run that is not stuck, and stops the processor exactly if the program does.
abbrev pub Refines : Platform → Option Program → Run Kernel → Type 0
Refines p o stuck = ⊥
Refines p none (halted k) = Unit
Refines p (some q) (halted k) = ⊥
Refines p none (done k) = ⊥
Refines p (some q) (done k) = Implements p q k

execute_input-Models :
    (p : Platform) (depth : ℕ) (k : Kernel) (d : Desk)
    → Mirrors k.terminal d
    → IsReady k.shell
    → Models (execute_text (shown_text d) (mode k)) (execute_input p (suc depth) k)
unfolding execute_input
execute_input-Models p depth k d m r =
    let l = m.line in
    let h = shown-Holds k.terminal d m in
    let short : length (before_nul l.text) < 2 ^ 32 =
      omega (arith, length-before_nul l.text, h.bound) in
    let shown : shown_text d ≡ before_nul l.text =
      ap (λ o. before_nul (line_or_empty o).text) m.shown_line in
    subst (λ t. Models (execute_text t (mode k)) (execute_input p (suc depth) k)) (sym shown)
      (subst
        (λ o. Models (execute_text (before_nul l.text) (mode k)) (execute_buffer p (suc depth) o k))
        (sym (get_line (current_screen k.terminal) l h))
        (shell_execute-Models p depth (before_nul l.text) k r short))

act-Models :
    (p : Platform) (depth : ℕ) (a : Action) (k : Kernel) (d : Desk)
    → Mirrors k.terminal d
    → IsReady k.shell
    → Models (mode_by a (shown_text d) (mode k)) (act p (suc depth) a k)
act-Models p depth execute k d m r = execute_input-Models p depth k d m r
act-Models p depth nothing k d m r = refl
act-Models p depth (put_input c) k d m r = refl
act-Models p depth (delete_input n) k d m r = refl
act-Models p depth (delete_forward n) k d m r = refl
act-Models p depth (move_input direction) k d m r = refl
act-Models p depth (switch_to index) k d m r = refl

press_scancode-Models :
    (p : Platform) (depth scancode : ℕ) (k : Kernel) (d : Desk)
    → Mirrors k.terminal d
    → IsReady k.shell
    → let (keyboard, action) = handle_scancode (is_reading k) scancode k.keyboard in
      Models
        (mode_by action (shown_text d) (record (mode k) { keyboard = keyboard }))
        (press_scancode p (suc depth) scancode k)
unfolding press_scancode
press_scancode-Models p depth scancode k d m r =
    let (keyboard, action) = handle_scancode (is_reading k) scancode k.keyboard in
    act-Models p depth action (record k { keyboard = keyboard }) d m r

-- What is known of the lines and of the variables together.
joined :
    (p : Platform) (k : Kernel) (d : Desk) (o : Option Mode) (r : Run Kernel)
    → Serves p k
    → Ends (Follows k d) r
    → Models o r
    → Refines p (Option.map (λ m. record { desk = d; mode = m }) o) r
joined p k d o stuck s f h = f
joined p k d none (halted l) s f h = tt
joined p k d (some m) (halted l) s f h = h
joined p k d none (done l) s f h = h
joined p k d (some m) (done l) s (ready, mirrors, map, device) h =
    (ready, same-Serves p k l map device s, mirrors, h)

press_scancode-Refines :
    (p : Platform) (depth scancode : ℕ) (q : Program) (k : Kernel)
    → Implements p q k
    → Refines p (press_program scancode q) (press_scancode p (suc depth) scancode k)
unfolding is_reading
press_scancode-Refines p depth scancode q k (ready, s, m, same) =
    let d = desk_by (handle_scancode (is_reading k) scancode k.keyboard).1 q.desk in
    subst
      (λ v.
        Refines p (press_program scancode (record { desk = q.desk; mode = v }))
          (press_scancode p (suc depth) scancode k))
      same
      (joined p k d _ (press_scancode p (suc depth) scancode k) s
        (EndsOr-weaken _ _ (Follows k d) _ (λ halts. tt)
          (press_scancode-Follows p depth scancode k q.desk m ready s))
        (press_scancode-Models p depth scancode k q.desk m ready))

then_others :
    (p : Platform) (o : Option Program) (r : Run Kernel) (f : Program → Option Program)
    (g : Kernel → Run Kernel)
    → Refines p o r
    → ((q : Program) (k : Kernel) → Implements p q k → Refines p (f q) (g k))
    → Refines p (behind o f) (r >>= g)
then_others p o stuck f g n later = n
then_others p none (halted l) f g n later = tt
then_others p (some q) (halted l) f g n later = absurd n
then_others p none (done l) f g n later = absurd n
then_others p (some q) (done l) f g n later = later q l n

-- From a state that implements a program of ten lines, of which one is shown, any sequence of
-- scancodes is handled, with all the commands that it executes, with one call of `last` at most
-- for each: handling is not stuck, it stops the processor exactly if the program does, and
-- where it returns the state implements the program behind the same keys. In it each scancode
-- edits the line that is shown or moves its cursor, shows another screen, changes the
-- modifiers, or does nothing; Enter empties the line and executes its text, up to a NUL. If a
-- `read` was waiting, it no longer waits, and nothing else changes. Otherwise `azerty` and
-- `qwerty` change the layout of the keys to come, `read` waits, `halt` stops the processor,
-- `last` repeats the command that was latest, each of the ten names but `last` becomes the
-- latest, and any other text changes nothing.
pub press_keys-Refines :
    (p : Platform) (depth : ℕ) (scancodes : List ℕ) (q : Program) (k : Kernel)
    → Implements p q k
    → Refines p (press_program_keys scancodes q) (press_keys p (suc depth) scancodes k)
press_keys-Refines p depth [] q k h = h
press_keys-Refines p depth (scancode ∷ scancodes) q k h =
    then_others p (press_program scancode q) (press_scancode p (suc depth) scancode k)
      (press_program_keys scancodes) (press_keys p (suc depth) scancodes)
      (press_scancode-Refines p depth scancode q k h) (press_keys-Refines p depth scancodes)
