-- ===== src/Tests/KeyboardTests.antt =====
-- Instances of the theorems about the handling of scancodes in keyboard.c.
use kernel_from_scratch.Prelude.{◌≡◌, refl, arith, true, false}
use kernel_from_scratch.Keyboard.{
  Keyboard, layout_qwerty, layout_azerty, switch_to, handle_scancode,
}
use kernel_from_scratch.Keyboard.Switching.{handle_scancode-switch_to}

abbrev pub keyboard : Keyboard
keyboard = record {
  is_lock = false;
  is_ctrl = false;
  is_left_shift = false;
  is_right_shift = false;
  current_layout = layout_qwerty;
}

abbrev with_ctrl : Keyboard
with_ctrl = record keyboard { is_ctrl = true; is_lock = true; current_layout = layout_azerty }

handle_scancode-switch_to_example : handle_scancode false 11 with_ctrl ≡ (with_ctrl, switch_to 9)
handle_scancode-switch_to_example =
    handle_scancode-switch_to false with_ctrl 9 (omega arith) refl refl
