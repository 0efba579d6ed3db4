-- ===== src/KeyBuffer.antt =====
-- interrupt/handler/keyboard.c: the ring buffer of scancodes between the interrupt handlers, which
-- push, and the main loop, which takes.
pub mod Queue
pub mod Loop
pub mod Interleaving
use kernel_from_scratch.Prelude.{
  ℕ, zero, suc, ◌+◌, ◌%◌, ◌^◌, Bool, true, false, not, ◌==◌, if◌then◌else◌, update,
}

abbrev pub key_buffer_size : ℕ
key_buffer_size = 128

pub record KeyBuffer : Type 0 where
  pub key_buffer : ℕ → ℕ
  pub key_buffer_head : ℕ
  pub key_buffer_tail : ℕ

unfoldable pub keyboard_push_scancode : ℕ → KeyBuffer → KeyBuffer
keyboard_push_scancode scancode b =
    let next_head = (b.key_buffer_head + 1) % 2 ^ 32 % key_buffer_size in
    if next_head == b.key_buffer_tail then b else record b {
      key_buffer = update b.key_buffer b.key_buffer_head (scancode % 256);
      key_buffer_head = next_head;
    }

unfoldable pub keyboard_has_input : KeyBuffer → Bool
keyboard_has_input b = not (b.key_buffer_head == b.key_buffer_tail)

-- The two statements at the head of the loop of `keyboard_handle_input`: they read the scancode,
-- and move the tail.
unfoldable pub scancode_at_tail : KeyBuffer → ℕ
scancode_at_tail b = b.key_buffer b.key_buffer_tail

unfoldable pub advance_tail : KeyBuffer → KeyBuffer
advance_tail b = record b { key_buffer_tail = (b.key_buffer_tail + 1) % 2 ^ 32 % key_buffer_size }

-- The loop, with fuel, for any `handle_scancode` that works on the rest of the state.
unfoldable pub keyboard_handle_input {ℓ} :
    {S : Type ℓ} → (ℕ → S → S) → ℕ → KeyBuffer → S → KeyBuffer × S
keyboard_handle_input handle_scancode zero b s = (b, s)
keyboard_handle_input handle_scancode (suc fuel) b s = elim (keyboard_has_input b) [
  | true ↦
      keyboard_handle_input handle_scancode fuel (advance_tail b)
        (handle_scancode (scancode_at_tail b) s)
  | false ↦ (b, s)
]
