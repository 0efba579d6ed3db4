-- ===== src/KeyBuffer/Loop.antt =====
-- keyboard.c: the loop of `keyboard_handle_input`.
use kernel_from_scratch.Prelude.{ℕ, zero, suc, ◌≤◌, ◌≡◌, refl, arith, List, [], ◌∷◌, length, false}
use kernel_from_scratch.KeyBuffer.{
  KeyBuffer, keyboard_handle_input, keyboard_has_input, advance_tail,
}
use kernel_from_scratch.KeyBuffer.Queue.{
  Waits, keyboard_has_input-nil, keyboard_has_input-cons, scancode_at_tail-cons, advance_tail-Waits,
}

-- The scancodes handled one after the other.
abbrev pub handle_all {ℓ} : {S : Type ℓ} → (ℕ → S → S) → List ℕ → S → S
handle_all handle [] s = s
handle_all handle (x ∷ q) s = handle_all handle q (handle x s)

-- With no scancode coming in between, the loop of `keyboard_handle_input` ends by its own test
-- behind as many rounds as scancodes wait: it has handled them in the order in which they came,
-- and the buffer is empty.
pub keyboard_handle_input_ends {ℓ} :
    {S : Type ℓ} (handle_scancode : ℕ → S → S) (fuel : ℕ) (b : KeyBuffer) (s : S) (q : List ℕ)
    → Waits b q
    → length q ≤ fuel
    → let r = keyboard_handle_input handle_scancode fuel b s in
      (keyboard_has_input r.0 ≡ false) × (r.1 ≡ handle_all handle_scancode q s)
unfolding keyboard_handle_input
keyboard_handle_input_ends handle zero b s [] w h = (keyboard_has_input-nil b w, refl)
keyboard_handle_input_ends handle zero b s (x ∷ q) w h = absurd (omega arith)
keyboard_handle_input_ends handle (suc fuel) b s [] w h =
    rw (keyboard_handle_input, keyboard_has_input-nil b w) (keyboard_has_input-nil b w, refl)
keyboard_handle_input_ends handle (suc fuel) b s (x ∷ q) w h =
    rw (keyboard_handle_input, keyboard_has_input-cons b x q w, scancode_at_tail-cons b x q w)
      (keyboard_handle_input_ends handle fuel (advance_tail b) (handle x s) q
        (advance_tail-Waits b x q w) (omega arith))
