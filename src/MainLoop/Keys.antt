-- ===== src/MainLoop/Keys.antt =====
-- keyboard.c: keys on the whole program.
use mathlib.Core.Path.{subst}
use kernel_from_scratch.Prelude.{
  ℕ, suc, ◌^◌, ◌<◌, ◌≤◌, ◌≡◌, ◌≢◌, refl, sym, ap, ◌∙◌, arith, Bool, true, false, ◌==◌, not, ltb,
  if◌then◌else◌, some, List, [], ◌∷◌, length, if_elim,
}
use kernel_from_scratch.Chars.{toupper, islower}
use kernel_from_scratch.Terminal.Input.{terminal_get_input}
use kernel_from_scratch.Terminal.Screens.{current_screen}
use kernel_from_scratch.Terminal.Line.{Line, Holds, empty_line}
use kernel_from_scratch.Terminal.{Screen}
use kernel_from_scratch.Terminal.Screens.Desk.{Desk, Mirrors, shown-Holds, edit_shown-Mirrors}
use kernel_from_scratch.Terminal.Line.Read.{terminal_get_input-Holds}
use kernel_from_scratch.Keyboard.{
  Keyboard, Layout, layout_qwerty, layout_azerty, Action, nothing, put_input, delete_input,
  delete_forward, move_input, switch_to, execute, character, is_upper, handle_scancode, press_key,
  special_key, perform,
}
use kernel_from_scratch.Keyboard.Allowed.{IsAllowed, handle_scancode-IsAllowed}
use kernel_from_scratch.Keyboard.Typing.{desk_by, perform-Acts}
use kernel_from_scratch.Shell.{
  Kernel, Platform, Run, stuck, halted, done, ◌>>=◌, shell_execute, is_reading,
}
use kernel_from_scratch.Shell.Table.{IsReady}
use kernel_from_scratch.Shell.Lines.{if_then}
use kernel_from_scratch.Shell.Ends.{EndsOr, EndsOr-weaken, Serves, same-Serves}
use kernel_from_scratch.Shell.Ready.{LeavesReady, Halting, shell_execute-EndsOr}
use kernel_from_scratch.MainLoop.{before_nul, execute_buffer, execute_input, act, press_scancode}

enter_character : (layout : Layout) (upper : Bool) → character layout upper 0x1C ≡ 0
unfolding character toupper islower
enter_character layout_qwerty true = refl
enter_character layout_qwerty false = refl
enter_character layout_azerty true = refl
enter_character layout_azerty false = refl

third {ℓ} :
    {A : Type ℓ} (a b : Bool) (x y z : A)
    → a ≡ false
    → b ≡ true
    → (if a then x else if not b then y else z) ≡ z
third a b x y z e h = rw (e, h) refl

-- Enter has no character in either layout.
handle_scancode-enter :
    (b : Bool) (k : Keyboard) → k.is_ctrl ≡ false → handle_scancode b 0x1C k ≡ (k, execute)
unfolding handle_scancode press_key special_key
handle_scancode-enter b k off =
    let none_typed = enter_character k.current_layout (is_upper k) in
    let zero : (character k.current_layout (is_upper k) 0x1C == 0) ≡ true = ground arith in
    third k.is_ctrl (character k.current_layout (is_upper k) 0x1C == 0) _ _ _ off zero

pub length-before_nul : (xs : List ℕ) → length (before_nul xs) ≤ length xs
length-before_nul [] = omega arith
length-before_nul (x ∷ xs) =
    if_elim (λ (ys : List ℕ). length ys ≤ length (x ∷ xs)) (x == 0) (λ e. omega arith)
      (λ e. omega (arith, length-before_nul xs))

pub get_line : (s : Screen) (l : Line) → Holds s l → terminal_get_input s 256 ≡ some l.text
get_line s l h =
    terminal_get_input-Holds s l 256 h (omega arith)
    ∙ if_then (ltb (length l.text) 256) _ _ (ground (arith, h.bound))

-- With Ctrl released, Enter executes the text of the line that the current screen holds, up to its
-- first NUL.
pub press_scancode-enter :
    (p : Platform) (depth : ℕ) (k : Kernel) (l : Line)
    → k.keyboard.is_ctrl ≡ false
    → Holds (current_screen k.terminal) l
    → press_scancode p depth 0x1C k
      ≡ (do (_, k) ← shell_execute p depth (before_nul l.text) k; done k)
unfolding press_scancode execute_input
press_scancode-enter p depth k l off h =
    ap (λ (r : Keyboard × Action). act p depth r.1 (record k { keyboard = r.0 }))
      (handle_scancode-enter (is_reading k) k.keyboard off)
    ∙ ap (λ o. execute_buffer p depth o k) (get_line (current_screen k.terminal) l h)

-- What is kept of the state `k` while the shell is ready and the screens show the lines of a desk.
abbrev pub Follows : Kernel → Desk → Kernel → Type 0
Follows k d k' =
    IsReady k'.shell
    × Mirrors k'.terminal d
    × (k'.shell.mbi ≡ k.shell.mbi)
    × (k'.terminal.machine.device ≡ k.terminal.machine.device)

executed-Follows :
    (H : Type 0) (k : Kernel) (d : Desk) (r : Run (Bool × Kernel))
    → Mirrors k.terminal d
    → EndsOr H (LeavesReady k) r
    → EndsOr H (Follows k (desk_by execute d)) (do (_, k) ← r; done k)
executed-Follows H k d stuck m h = h
executed-Follows H k d (halted k') m h = h
executed-Follows H k d (done (b, k')) m (r, held, ctrl, map, stays) = (
  r,
  edit_shown-Mirrors (λ l. empty_line) k.terminal k'.terminal d m stays
      (subst (λ n. Holds (k'.terminal.screens n) empty_line) stays.index held),
  map,
  stays.device,
)

-- Enter: the line that is shown is executed.
execute_input-Follows :
    (p : Platform) (depth : ℕ) (k : Kernel) (d : Desk) (m : Mirrors k.terminal d)
    → IsReady k.shell
    → Serves p k
    → EndsOr
        (Halting k (before_nul m.line.text))
        (Follows k (desk_by execute d))
        (execute_input p (suc depth) k)
unfolding execute_input
execute_input-Follows p depth k d m r s =
    let l = m.line in
    let h = shown-Holds k.terminal d m in
    let short : length (before_nul l.text) < 2 ^ 32 =
      omega (arith, length-before_nul l.text, h.bound) in
    subst
      (λ o.
        EndsOr (Halting k (before_nul l.text)) (Follows k (desk_by execute d))
          (execute_buffer p (suc depth) o k))
      (sym (get_line (current_screen k.terminal) l h))
      (executed-Follows _ k d (shell_execute p (suc depth) (before_nul l.text) k) m
        (shell_execute-EndsOr p depth (before_nul l.text) k l r h s short))

performed-Follows :
    (a : Action) (k : Kernel) (d : Desk)
    → a ≢ execute
    → IsAllowed a
    → IsReady k.shell
    → Mirrors k.terminal d
    → Follows k (desk_by a d) (record k { terminal = perform (λ t. t) a k.terminal })
performed-Follows a k d other ok r m =
    let acts = perform-Acts (λ t. t) a k.terminal d ok m (λ e. absurd (other e)) in
    (r, acts.0, refl, acts.1)

-- Enter, with a line that stops the processor.
abbrev pub HaltsBy : Action → Kernel → Line → Type 0
HaltsBy a k l = (a ≡ execute) × Halting k (before_nul l.text)

act-Follows :
    (p : Platform) (depth : ℕ) (a : Action) (k : Kernel) (d : Desk) (m : Mirrors k.terminal d)
    → IsAllowed a
    → IsReady k.shell
    → Serves p k
    → EndsOr (HaltsBy a k m.line) (Follows k (desk_by a d)) (act p (suc depth) a k)
act-Follows p depth execute k d m ok r s =
    EndsOr-weaken _ (HaltsBy execute k m.line) (Follows k (desk_by execute d)) _ (λ h. (refl, h))
      (execute_input-Follows p depth k d m r s)
act-Follows p depth nothing k d m ok r s = performed-Follows nothing k d (λ e. cc e) ok r m
act-Follows p depth (put_input c) k d m ok r s =
    performed-Follows (put_input c) k d (λ e. cc e) ok r m
act-Follows p depth (delete_input n) k d m ok r s =
    performed-Follows (delete_input n) k d (λ e. cc e) ok r m
act-Follows p depth (delete_forward n) k d m ok r s =
    performed-Follows (delete_forward n) k d (λ e. cc e) ok r m
act-Follows p depth (move_input direction) k d m ok r s =
    performed-Follows (move_input direction) k d (λ e. cc e) ok r m
act-Follows p depth (switch_to index) k d m ok r s =
    performed-Follows (switch_to index) k d (λ e. cc e) ok r m

-- In a state whose shell is ready (its table is the one of `shell_init`, and `last_command` is not
-- `last`) and whose ten screens show the lines of a desk, every scancode is handled, with Ctrl held
-- or released, while a `read` waits or not, and with the line that Enter executes: if the platform
-- serves the calls of a command, handling is not stuck, and it returns unless the key is Enter, no
-- `read` waits, and the line that is shown says `halt`, or `last` while `last_command` is `halt`.
-- When it returns, the shell is ready again, the screens show the desk that the action of the
-- scancode makes of the lines (an edit of the line that is shown, another screen shown, or an empty
-- line behind Enter), and the loader's map and the hardware are the same.
pub press_scancode-Follows :
    (p : Platform) (depth scancode : ℕ) (k : Kernel) (d : Desk) (m : Mirrors k.terminal d)
    → IsReady k.shell
    → Serves p k
    → let action = (handle_scancode (is_reading k) scancode k.keyboard).1 in
      EndsOr
        (HaltsBy action k m.line)
        (Follows k (desk_by action d))
        (press_scancode p (suc depth) scancode k)
unfolding press_scancode
press_scancode-Follows p depth scancode k d m r s =
    let (keyboard, action) = handle_scancode (is_reading k) scancode k.keyboard in
    let k' = record k { keyboard = keyboard } in
    act-Follows p depth action k' d m (handle_scancode-IsAllowed (is_reading k) scancode k.keyboard)
      r (same-Serves p k k' refl refl s)
