-- ===== src/MainLoop/Typed.antt =====
-- keyboard.c: a text that is typed into an empty line and executed.
use mathlib.Core.Path.{subst}
use mathlib.Core.List.{append-nil, append_assoc}
use kernel_from_scratch.Prelude.{
  ℕ, ◌+◌, ◌≤◌, ◌<◌, ◌≡◌, ◌≢◌, refl, sym, ap, ◌∙◌, arith, Bool, true, false, ltb, leb, ◌==◌, not,
  if◌then◌else◌, List, [], ◌∷◌, ◌++◌, length, take, drop, map, length-append,
}
use kernel_from_scratch.Terminal.Input.{terminal_putc_input}
use kernel_from_scratch.Terminal.Screens.{current_screen, on_current}
use kernel_from_scratch.Terminal.Frame.Input.{terminal_putc_input-frame}
use kernel_from_scratch.Terminal.Screens.Desk.{Stays, refl-Stays, trans-Stays, on_current-Stays}
use kernel_from_scratch.Terminal.Line.{Line, Holds, empty_line, insert}
use kernel_from_scratch.Terminal.Line.Insert.{terminal_putc_input-Holds}
use kernel_from_scratch.Keyboard.{
  Keyboard, Action, put_input, character, is_upper, handle_scancode, press_key, perform,
}
use kernel_from_scratch.Keyboard.Allowed.{character-IsAllowed}
use kernel_from_scratch.Shell.{
  Kernel, Platform, Run, stuck, halted, done, ◌>>=◌, shell_execute, is_reading,
}
use kernel_from_scratch.MainLoop.{before_nul, act, press_scancode}
use kernel_from_scratch.MainLoop.Keys.{press_scancode-enter}

-- The character that a key has while the keyboard is in a state.
abbrev pub typed : Keyboard → ℕ → ℕ
typed k scancode = character k.current_layout (is_upper k) scancode

-- The press of a key that has a character, and is neither Shift nor Ctrl.
abbrev pub IsPlain : Keyboard → ℕ → Type 0
IsPlain k scancode =
    (scancode < 128)
    × (scancode ≢ 0x2A)
    × (scancode ≢ 0x36)
    × (scancode ≢ 0x1D)
    × (typed k scancode ≢ 0)

abbrev pub ArePlain : Keyboard → List ℕ → Type 0
ArePlain k [] = Unit
ArePlain k (scancode ∷ scancodes) = IsPlain k scancode × ArePlain k scancodes

fourth {ℓ} :
    {A : Type ℓ} (a b c : Bool) (x y z w : A)
    → a ≡ false
    → b ≡ false
    → c ≡ false
    → (if a then x else if b then y else if not c then z else w) ≡ z
fourth a b c x y z w e h l = rw (e, h, l) refl

press_key-plain :
    (is_reading : Bool) (scancode : ℕ) (k : Keyboard)
    → k.is_ctrl ≡ false
    → IsPlain k scancode
    → press_key is_reading scancode k ≡ (k, put_input (typed k scancode))
unfolding press_key
press_key-plain is_reading scancode k off (small, _, _, _, some) =
    let pressed : leb 128 scancode ≡ false = ground arith in
    let has_character : (typed k scancode == 0) ≡ false = ground arith in
    fourth (leb 128 scancode) k.is_ctrl (typed k scancode == 0) _ _ _ _ pressed off has_character

handle_scancode-plain :
    (is_reading : Bool) (scancode : ℕ) (k : Keyboard)
    → k.is_ctrl ≡ false
    → IsPlain k scancode
    → handle_scancode is_reading scancode k ≡ (k, put_input (typed k scancode))
unfolding handle_scancode
handle_scancode-plain is_reading scancode k off plain =
    let (small, left, right, ctrl, some) = plain in
    let shift_left : (scancode == 0x2A) ≡ false = ground arith in
    let no_shift_left : (scancode == 0xAA) ≡ false = ground arith in
    let shift_right : (scancode == 0x36) ≡ false = ground arith in
    let no_shift_right : (scancode == 0xB6) ≡ false = ground arith in
    let ctrl_on : (scancode == 0x1D) ≡ false = ground arith in
    let ctrl_off : (scancode == 0x9D) ≡ false = ground arith in
    rw (shift_left, no_shift_left, shift_right, no_shift_right, ctrl_on, ctrl_off)
      (press_key-plain is_reading scancode k off plain)

-- The cursor stands behind the text.
abbrev pub at_end : List ℕ → Line
at_end text = record { text = text; cursor = length text }

take_all : (xs : List ℕ) → take (length xs) xs ≡ xs
take_all [] = refl
take_all (x ∷ xs) = ap (x ∷◌) (take_all xs)

drop_all : (xs : List ℕ) → drop (length xs) xs ≡ []
drop_all [] = refl
drop_all (x ∷ xs) = drop_all xs

insert-at_end :
    (c : ℕ) (text : List ℕ) → length text < 127 → insert c (at_end text) ≡ at_end (text ++ c ∷ [])
insert-at_end c text h =
    let room : ltb (length text) 127 ≡ true = ground arith in
    let size : length text + 1 ≡ length (text ++ c ∷ []) =
      omega (arith, length-append text (c ∷ [])) in
    rw (room, take_all text, drop_all text, size) refl

-- A kernel in which a text was typed into the line: nothing else is changed.
pub record Typed (k : Kernel) (text : List ℕ) (k' : Kernel) : Type 0 where
  pub shell : k'.shell ≡ k.shell
  pub keyboard : k'.keyboard ≡ k.keyboard
  pub stays : Stays k.terminal k'.terminal
  pub holds : Holds (current_screen k'.terminal) (at_end text)

press_plain-Typed :
    (p : Platform) (depth scancode : ℕ) (k : Kernel) (text : List ℕ)
    → Holds (current_screen k.terminal) (at_end text)
    → k.keyboard.is_ctrl ≡ false
    → IsPlain k.keyboard scancode
    → length text < 127
    → (k' : Kernel) × (press_scancode p depth scancode k ≡ done k')
      × Typed k (text ++ typed k.keyboard scancode ∷ []) k'
unfolding press_scancode perform
press_plain-Typed p depth scancode k text h off plain room =
    let c = typed k.keyboard scancode in
    let t = on_current (terminal_putc_input c) k.terminal in
    let allowed =
      character-IsAllowed k.keyboard.current_layout (is_upper k.keyboard) scancode plain.0 in
    let itself : (k.terminal.terminal_index == k.terminal.terminal_index) ≡ true = ground arith in
    (
      record k { terminal = t },
      ap (λ (r : Keyboard × Action). act p depth r.1 (record k { keyboard = r.0 }))
          (handle_scancode-plain (is_reading k) scancode k.keyboard off plain),
      record {
        shell = refl;
        keyboard = refl;
        stays = on_current-Stays (terminal_putc_input c) k.terminal (terminal_putc_input-frame c _);
        holds =
            subst (Holds (current_screen t)) (insert-at_end c text room)
              (rw itself (terminal_putc_input-Holds c _ (at_end text) h allowed.0 allowed.1));
      },
    )

-- The scancodes handled one after the other, with the commands that they execute.
abbrev pub press_keys : Platform → ℕ → List ℕ → Kernel → Run Kernel
press_keys p depth [] k = done k
press_keys p depth (scancode ∷ scancodes) k = do
  k ← press_scancode p depth scancode k
  press_keys p depth scancodes k

press_keys-Typed :
    (p : Platform) (depth : ℕ) (scancodes : List ℕ) (k : Kernel) (text : List ℕ)
    → Holds (current_screen k.terminal) (at_end text)
    → k.keyboard.is_ctrl ≡ false
    → ArePlain k.keyboard scancodes
    → length text + length scancodes ≤ 127
    → (k' : Kernel) × ((rest : List ℕ)
        → press_keys p depth (scancodes ++ rest) k ≡ press_keys p depth rest k')
      × Typed k (text ++ map (typed k.keyboard) scancodes) k'
press_keys-Typed p depth [] k text h off plain room = (
  k,
  λ rest. refl,
  record {
    shell = refl;
    keyboard = refl;
    stays = refl-Stays k.terminal;
    holds = subst (λ t. Holds (current_screen k.terminal) (at_end t)) (sym (append-nil text)) h;
  },
)
press_keys-Typed p depth (scancode ∷ scancodes) k text h off (plain, others) room =
    let c = typed k.keyboard scancode in
    let (k', e, first) = press_plain-Typed p depth scancode k text h off plain (omega arith) in
    let size : length (text ++ c ∷ []) ≡ length text + 1 =
      omega (arith, length-append text (c ∷ [])) in
    let (k'', es, later) =
      press_keys-Typed p depth scancodes k' (text ++ c ∷ []) first.holds (rw first.keyboard off)
        (subst (λ b. ArePlain b scancodes) (sym first.keyboard) others) (omega arith) in
    (
      k'',
      λ rest. ap (λ r. r >>= press_keys p depth (scancodes ++ rest)) e ∙ es rest,
      record {
        shell = later.shell ∙ first.shell;
        keyboard = later.keyboard ∙ first.keyboard;
        stays = trans-Stays k.terminal k'.terminal k''.terminal first.stays later.stays;
        holds =
            subst (λ t. Holds (current_screen k''.terminal) (at_end t))
              (ap (λ b. (text ++ c ∷ []) ++ map (typed b) scancodes) first.keyboard
                ∙ append_assoc text (c ∷ []) (map (typed k.keyboard) scancodes))
              later.holds;
      },
    )

-- None of the characters is a NUL.
before_nul-typed :
    (k : Keyboard) (scancodes : List ℕ)
    → ArePlain k scancodes
    → before_nul (map (typed k) scancodes) ≡ map (typed k) scancodes
before_nul-typed k [] plain = refl
before_nul-typed k (scancode ∷ scancodes) (plain, others) =
    let some : (typed k scancode == 0) ≡ false = ground (arith, plain.4) in
    rw some (ap (typed k scancode ∷◌) (before_nul-typed k scancodes others))

-- `done` behind a run changes nothing.
done_right {ℓ} : {A : Type ℓ} (r : Run A) → (r >>= done) ≡ r
done_right stuck = refl
done_right (halted k) = refl
done_right (done a) = refl

-- On a current screen that holds an empty line, with Ctrl released, pressing up to 127 keys that
-- have characters, and then Enter, executes the text of those characters, as the layout, Shift and
-- Caps Lock write them: the shell is called with that text, in a state in which the line holds it
-- and the shell, the keyboard, the other screens and the hardware are as they were before.
pub press_keys-execute :
    (p : Platform) (depth : ℕ) (scancodes : List ℕ) (k : Kernel)
    → Holds (current_screen k.terminal) empty_line
    → k.keyboard.is_ctrl ≡ false
    → ArePlain k.keyboard scancodes
    → length scancodes ≤ 127
    → let text = map (typed k.keyboard) scancodes in
      (k' : Kernel) × (press_keys p depth (scancodes ++ 0x1C ∷ []) k
        ≡ (do (_, k) ← shell_execute p depth text k'; done k))
      × Typed k text k'
press_keys-execute p depth scancodes k h off plain room =
    let text = map (typed k.keyboard) scancodes in
    let (k', e, typed) = press_keys-Typed p depth scancodes k [] h off plain (omega arith) in
    (
      k',
      e (0x1C ∷ [])
          ∙ ap (λ r. r >>= done)
              (press_scancode-enter p depth k' (at_end text) (rw typed.keyboard off) typed.holds)
          ∙ ap (λ t. (do (_, k) ← shell_execute p depth t k'; done k) >>= done)
              (before_nul-typed k.keyboard scancodes plain)
          ∙ done_right (do (_, k) ← shell_execute p depth text k'; done k),
      typed,
    )
