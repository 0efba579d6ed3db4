-- ===== src/Mouse/Hardware.antt =====
-- interrupt/handler/mouse.c, interrupt/pic.c: the set-up of the mouse and of the interrupt controllers
-- leaves the model of the hardware alone, though it reads and writes its ports.
use kernel_from_scratch.Prelude.{ℕ, zero, suc, ◌%◌, ◌≡◌, refl, ◌∙◌, Bool, true, false, List}
use kernel_from_scratch.Machine.{Machine, Event, inb, outb, io_wait}
use kernel_from_scratch.Interrupts.{remap_pic, out_and_wait}
use kernel_from_scratch.Mouse.{
  has_bit, wait_input_for, wait_input_empty, wait_output_for, wait_output_full, answers,
  mouse_write_for, mouse_write, mouse_set_up, ask_wheel, mouse_init, ps2_timeout, ps2_retries,
}

-- The hardware of a machine.
abbrev device : Machine → List Event → ℕ → ℕ
device m = m.device

-- The two cases of a test on what was read.
case-device {ℓ} :
    {A : Type ℓ} (see : A → List Event → ℕ → ℕ) (b : Bool) (x y : A) (d : List Event → ℕ → ℕ)
    → see x ≡ d
    → see y ≡ d
    → see (elim b [ true ↦ x | false ↦ y ]) ≡ d
case-device see true x y d h k = h
case-device see false x y d h k = k

abbrev second {ℓ} : {A : Type ℓ} → A × Machine → List Event → ℕ → ℕ
second r = r.1.device

wait_input_for-device : (n : ℕ) (m : Machine) → device (wait_input_for n m) ≡ device m
unfolding wait_input_for inb io_wait outb
wait_input_for-device zero m = refl
wait_input_for-device (suc n) m =
    let (status, m') = inb 0x64 m in
    case-device device (has_bit 1 status) (wait_input_for n (io_wait m')) m' m.device
      (wait_input_for-device n (io_wait m')) refl

wait_output_for-device : (n : ℕ) (m : Machine) → second (wait_output_for n m) ≡ device m
unfolding wait_output_for inb io_wait outb
wait_output_for-device zero m = refl
wait_output_for-device (suc n) m =
    let (status, m') = inb 0x64 m in
    case-device second (has_bit 0 status) (true, m') (wait_output_for n (io_wait m')) m.device refl
      (wait_output_for-device n (io_wait m'))

answers-device : (expected : ℕ) (m : Machine) → second (answers expected m) ≡ device m
unfolding answers wait_output_full inb
answers-device expected m =
    let (full, m') = wait_output_for ps2_timeout m in
    case-device second full _ (false, m') m.device (wait_output_for-device ps2_timeout m)
      (wait_output_for-device ps2_timeout m)

-- The two writes of an attempt.
abbrev attempt : ℕ → Machine → Machine
attempt value m = outb 0x60 value (wait_input_empty (outb 0x64 0xD4 (wait_input_empty m)))

attempt-device : (value : ℕ) (m : Machine) → device (attempt value m) ≡ device m
unfolding wait_input_empty outb
attempt-device value m =
    wait_input_for-device ps2_timeout (outb 0x64 0xD4 (wait_input_for ps2_timeout m))
    ∙ wait_input_for-device ps2_timeout m

mouse_write_for-device : (n value : ℕ) (m : Machine) → second (mouse_write_for n value m) ≡ device m
unfolding mouse_write_for
mouse_write_for-device zero value m = refl
mouse_write_for-device (suc n) value m =
    let (acknowledged, m') = answers 0xFA (attempt (value % 256) m) in
    let same : device m' ≡ device m =
      answers-device 0xFA (attempt (value % 256) m) ∙ attempt-device (value % 256) m in
    case-device second acknowledged (true, m') (mouse_write_for n value m') m.device same
      (mouse_write_for-device n value m' ∙ same)

mouse_write-device : (value : ℕ) (m : Machine) → second (mouse_write value m) ≡ device m
unfolding mouse_write
mouse_write-device value m = mouse_write_for-device ps2_retries value m

mouse_set_up-device : (m : Machine) → device (mouse_set_up m) ≡ device m
unfolding mouse_set_up wait_input_empty wait_output_full inb outb
mouse_set_up-device m =
    wait_input_for-device ps2_timeout _
    ∙ wait_input_for-device ps2_timeout _
    ∙ wait_output_for-device ps2_timeout _
    ∙ wait_input_for-device ps2_timeout _

ask_wheel-device : (m : Machine) → second (ask_wheel m) ≡ device m
unfolding ask_wheel
ask_wheel-device m =
    answers-device 3 _
    ∙ mouse_write-device 0xF2 _
    ∙ mouse_write-device 80 _
    ∙ mouse_write-device 0xF3 _
    ∙ mouse_write-device 100 _
    ∙ mouse_write-device 0xF3 _
    ∙ mouse_write-device 200 _
    ∙ mouse_write-device 0xF3 m

pub mouse_init-device :
    (has_scroll_wheel : Bool) (m : Machine) → second (mouse_init has_scroll_wheel m) ≡ device m
unfolding mouse_init
mouse_init-device has_scroll_wheel m =
    let (found, m') = mouse_write 0xF6 (mouse_set_up m) in
    let same : device m' ≡ device m =
      mouse_write-device 0xF6 (mouse_set_up m) ∙ mouse_set_up-device m in
    case-device second found _ (has_scroll_wheel, m') m.device
      (mouse_write-device 0xF4 (ask_wheel m').1 ∙ ask_wheel-device m' ∙ same) same

pub remap_pic-device : (m : Machine) → device (remap_pic m) ≡ device m
unfolding remap_pic out_and_wait io_wait outb
remap_pic-device m = refl
