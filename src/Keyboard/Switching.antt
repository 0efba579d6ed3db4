-- ===== src/Keyboard/Switching.antt =====
-- keyboard.c: the keys that switch between screens.
use kernel_from_scratch.Prelude.{
  ℕ, ◌+◌, ◌-◌, ◌%◌, ◌&&◌, ◌<◌, ◌≡◌, refl, ap, arith, Bool, true, false, ◌==◌, all_below,
  all_below-at, if◌then◌else◌, if_elim, leb, not,
}
use kernel_from_scratch.Chars.{isdigit}
use kernel_from_scratch.Keyboard.{
  Keyboard, Action, Layout, layout_qwerty, layout_azerty, nothing, switch_to, character, is_upper,
  handle_scancode, press_key,
}

-- The screen of a digit, in the order of the keyboard's row: the key of `1` is at scancode 2, that
-- of `0` at scancode 11.
abbrev pub digit_layout : Bool → Layout
digit_layout true = layout_azerty
digit_layout false = layout_qwerty

digits :
    (upper : Bool)
    → all_below 10 (λ i.
      isdigit (character (digit_layout upper) upper (i + 2))
      && ((character (digit_layout upper) upper (i + 2) + 10 - 49) % 10 == i))
      ≡ true
unfolding character isdigit
digits true = refl
digits false = refl

digit-at :
    (k : Keyboard) (i : ℕ)
    → i < 10
    → k.current_layout ≡ digit_layout (is_upper k)
    → let c = character k.current_layout (is_upper k) (i + 2) in
      (isdigit c ≡ true) × ((c + 10 - 49) % 10 ≡ i)
digit-at k i h digit =
    let test =
      all_below-at 10 i
        (λ i.
          let c = character (digit_layout (is_upper k)) (is_upper k) (i + 2) in
          isdigit c && ((c + 10 - 49) % 10 == i))
        (digits (is_upper k)) h in
    rw digit (ground (arith, test), ground (arith, test))

digit_action :
    (is_reading : Bool) (c i : ℕ)
    → isdigit c ≡ true
    → (c + 10 - 49) % 10 ≡ i
    → (if not is_reading && isdigit c then switch_to ((c + 10 - 49) % 10) else nothing)
      ≡ (if is_reading then nothing else switch_to i)
digit_action true c i d e = refl
digit_action false c i d e = rw (d, e)

press_key-switch_to :
    (is_reading : Bool) (k : Keyboard) (i : ℕ)
    → i < 10
    → k.is_ctrl ≡ true
    → k.current_layout ≡ digit_layout (is_upper k)
    → press_key is_reading (i + 2) k ≡ (k, if is_reading then nothing else switch_to i)
unfolding press_key
press_key-switch_to is_reading k i h ctrl digit =
    let Switches =
      λ (r : Keyboard × Action). r ≡ (k, if is_reading then nothing else switch_to i) in
    let (is_digit, screen) = digit-at k i h digit in
    if_elim Switches (leb 128 (i + 2)) (λ large. absurd (ground arith))
      (λ small.
        if_elim Switches k.is_ctrl
          (λ on. ap (λ a. (k, a)) (digit_action is_reading _ i is_digit screen))
          (λ off. absurd (ground (arith, off, ctrl))))

-- With Ctrl held, the ten keys of the digits switch to the screens 0 to 9 in the order of their row
-- and do nothing while a `read` waits, where the layout writes them as digits: without Shift in
-- Qwerty, with Shift in Azerty.
pub handle_scancode-switch_to :
    (is_reading : Bool) (k : Keyboard) (i : ℕ)
    → i < 10
    → k.is_ctrl ≡ true
    → k.current_layout ≡ digit_layout (is_upper k)
    → handle_scancode is_reading (i + 2) k ≡ (k, if is_reading then nothing else switch_to i)
unfolding handle_scancode
handle_scancode-switch_to is_reading k i h ctrl digit =
    let shift_left : ((i + 2) == 0x2A) ≡ false = ground arith in
    let no_shift_left : ((i + 2) == 0xAA) ≡ false = ground arith in
    let shift_right : ((i + 2) == 0x36) ≡ false = ground arith in
    let no_shift_right : ((i + 2) == 0xB6) ≡ false = ground arith in
    let ctrl_on : ((i + 2) == 0x1D) ≡ false = ground arith in
    let ctrl_off : ((i + 2) == 0x9D) ≡ false = ground arith in
    rw (shift_left, no_shift_left, shift_right, no_shift_right, ctrl_on, ctrl_off)
      (press_key-switch_to is_reading k i h ctrl digit)
