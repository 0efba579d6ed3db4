-- ===== src/Mouse.antt =====
-- interrupt/handler/mouse.c: the mouse behind the PS/2 controller, its set-up and its packets.
pub mod Packets
pub mod Hardware
use kernel_from_scratch.Prelude.{
  ℕ, zero, suc, ◌+◌, ◌-◌, ◌*◌, ◌/◌, ◌%◌, ◌^◌, Bool, true, false, not, ◌&&◌, ◌||◌, ltb, ◌==◌, lt8,
  is_negative8, if◌then◌else◌, update,
}
use kernel_from_scratch.Machine.{Machine, inb, outb, io_wait}
use kernel_from_scratch.Ps2.{
  ps2_port, data_port, status_port, command_port, ps2_status, output_full, input_full, from_mouse,
  Ps2Command, ps2_command, read_config, write_config, disable_mouse, enable_mouse, disable_keyboard,
  enable_keyboard, write_to_mouse, ps2_config, mouse_irq, mouse_clock, mouse_command, get_id,
  set_sample_rate, enable_data, set_defaults, ack, id_wheel, packet_always_one, wheel_up_scancode,
  wheel_down_scancode,
}
use kernel_from_scratch.KeyBuffer.{KeyBuffer, keyboard_push_scancode}

abbrev pub ps2_timeout : ℕ
ps2_timeout = 10000

abbrev pub ps2_retries : ℕ
ps2_retries = 3

-- Bit `k` of a byte.
abbrev pub has_bit : ℕ → ℕ → Bool
has_bit k value = value / 2 ^ k % 2 == 1

-- The bounded waits, with `n` rounds left.
unfoldable pub wait_input_for : ℕ → Machine → Machine
wait_input_for zero m = m
wait_input_for (suc n) m =
    let (status, m) = inb (ps2_port status_port) m in
    elim (has_bit (ps2_status input_full) status) [
      | true ↦ wait_input_for n (io_wait m)
      | false ↦ m
    ]

unfoldable pub wait_input_empty : Machine → Machine
wait_input_empty = wait_input_for ps2_timeout

unfoldable pub wait_output_for : ℕ → Machine → Bool × Machine
wait_output_for zero m = (false, m)
wait_output_for (suc n) m =
    let (status, m) = inb (ps2_port status_port) m in
    elim (has_bit (ps2_status output_full) status) [
      | true ↦ (true, m)
      | false ↦ wait_output_for n (io_wait m)
    ]

unfoldable pub wait_output_full : Machine → Bool × Machine
wait_output_full = wait_output_for ps2_timeout

-- `wait_output_full() && inb(PS2_DATA_PORT) == expected`
unfoldable pub answers : ℕ → Machine → Bool × Machine
answers expected m =
    let (full, m) = wait_output_full m in
    elim full [
      | true ↦ let (value, m) = inb (ps2_port data_port) m in (value == expected, m)
      | false ↦ (false, m)
    ]

unfoldable pub mouse_write_for : ℕ → ℕ → Machine → Bool × Machine
mouse_write_for zero value m = (false, m)
mouse_write_for (suc retry) value m =
    let m = outb (ps2_port command_port) (ps2_command write_to_mouse) (wait_input_empty m) in
    let (acknowledged, m) =
      answers (mouse_command ack) (outb (ps2_port data_port) (value % 256) (wait_input_empty m)) in
    elim acknowledged [ true ↦ (true, m) | false ↦ mouse_write_for retry value m ]

unfoldable pub mouse_write : ℕ → Machine → Bool × Machine
mouse_write = mouse_write_for ps2_retries

-- The configuration byte with the interrupt of the mouse on and its clock enabled.
unfoldable pub mouse_config : ℕ → ℕ
mouse_config config =
    let config =
      if has_bit (ps2_config mouse_irq) config then config else config + 2 ^ ps2_config mouse_irq in
    if has_bit (ps2_config mouse_clock) config then config - 2 ^ ps2_config mouse_clock else config

unfoldable pub mouse_set_up : Machine → Machine
mouse_set_up m =
    let command : Ps2Command → Machine → Machine =
      λ c. outb (ps2_port command_port) (ps2_command c) in
    let (dropped, m) =
      inb (ps2_port data_port) (command disable_keyboard (command disable_mouse m)) in
    let (full, m) = wait_output_full (command read_config (wait_input_empty m)) in
    let (config, m) = inb (ps2_port data_port) m in
    let m = wait_input_empty (command write_config (wait_input_empty m)) in
    let m = outb (ps2_port data_port) (mouse_config config) m in
    command enable_mouse (command enable_keyboard m)

-- The scroll wheel is asked for by three sample rates and the ID.
unfoldable pub ask_wheel : Machine → Bool × Machine
ask_wheel m =
    let m = (mouse_write 200 (mouse_write (mouse_command set_sample_rate) m).1).1 in
    let m = (mouse_write 100 (mouse_write (mouse_command set_sample_rate) m).1).1 in
    let m = (mouse_write 80 (mouse_write (mouse_command set_sample_rate) m).1).1 in
    answers (mouse_command id_wheel) (mouse_write (mouse_command get_id) m).1

-- The result is `has_scroll_wheel`, given its value before.
unfoldable pub mouse_init : Bool → Machine → Bool × Machine
mouse_init has_scroll_wheel m =
    let (found, m) = mouse_write (mouse_command set_defaults) (mouse_set_up m) in
    elim found [
      | true ↦
          let (wheel, m) = ask_wheel m in (wheel, (mouse_write (mouse_command enable_data) m).1)
      | false ↦ (has_scroll_wheel, m)
    ]

-- The static variables of the interrupt handler, with what it works on.
pub record Mouse : Type 0 where
  pub has_scroll_wheel : Bool
  pub cycle : ℕ
  pub packet : ℕ → ℕ
  pub buffer : KeyBuffer
  pub machine : Machine

abbrev pub packet_size : Bool → ℕ
packet_size has_scroll_wheel = if has_scroll_wheel then 4 else 3

-- The scancode of a turn of the wheel, an `int8_t`.
unfoldable pub push_wheel : ℕ → KeyBuffer → KeyBuffer
push_wheel wheel b =
    if is_negative8 wheel
    then keyboard_push_scancode wheel_up_scancode b
    else if lt8 0 wheel
    then keyboard_push_scancode wheel_down_scancode b
    else b

-- The handler from the byte of the packet on.
unfoldable pub receive_byte : ℕ → Mouse → Mouse
receive_byte value s =
    let s = record s { packet = update s.packet s.cycle value } in
    if (s.cycle == 0) && not (has_bit packet_always_one (s.packet 0))
    then s
    else (let s = record s { cycle = (s.cycle + 1) % 256 } in
        if ltb s.cycle (packet_size s.has_scroll_wheel)
        then s
        else (let s = record s { cycle = 0 } in
            if s.has_scroll_wheel
            then record s { buffer = push_wheel (s.packet 3) s.buffer }
            else s))

unfoldable pub mouse_interrupt_handler : Mouse → Mouse
mouse_interrupt_handler s =
    let (status, m) = inb (ps2_port status_port) s.machine in
    if not (has_bit (ps2_status output_full) status) || not (has_bit (ps2_status from_mouse) status)
    then record s { machine = m }
    else (let (value, m) = inb (ps2_port data_port) m in
        receive_byte value (record s { machine = m }))
