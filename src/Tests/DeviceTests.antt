-- ===== src/Tests/DeviceTests.antt =====
-- Instances of the theorems about the key buffer, the interrupts, the segments and the mouse.
use kernel_from_scratch.Prelude.{
  ℕ, ◌+◌, ◌/◌, ◌%◌, ◌^◌, ◌<◌, ◌≡◌, refl, arith, true, false, none, List, [], ◌∷◌, length, get_or,
  ◌==◌, if◌then◌else◌,
}
use kernel_from_scratch.Machine.{Machine, wrote, inb}
use kernel_from_scratch.KeyBuffer.{
  KeyBuffer, keyboard_push_scancode, keyboard_has_input, scancode_at_tail, advance_tail,
}
use kernel_from_scratch.KeyBuffer.Queue.{Waits, keyboard_push_scancode-Waits}
use kernel_from_scratch.KeyBuffer.Interleaving.{
  Kernel, Runs, stop, interrupt, fetch, advance, Serves, Serving, Runs-Serves, Runs-order,
}
use kernel_from_scratch.Interrupts.{
  Descriptor, InterruptFrame, InterruptHandler, Handlers, interrupt_init, interrupt_register,
  interrupt_dispatch,
}
use kernel_from_scratch.Interrupts.Gates.{LeadsTo, interrupt_init-LeadsToStub}
use kernel_from_scratch.Interrupts.Acknowledge.{interrupt_dispatch-register}
use kernel_from_scratch.Interrupts.Controllers.{Controller, icw4_next}
use kernel_from_scratch.Gdt.{Entry, Gdt, set_entry}
use kernel_from_scratch.Gdt.Segments.{base_of, limit_of, set_entry_lem}
use kernel_from_scratch.Mouse.{Mouse, mouse_interrupt_handler, receive_byte}
use kernel_from_scratch.Mouse.Packets.{
  Packet, Interrupted, done, byte, is_ready, next_byte, push_all, Interrupted-turns,
}

-- An empty buffer at the end of its array.
abbrev pub empty : KeyBuffer
empty = record { key_buffer = λ i. 0; key_buffer_head = 127; key_buffer_tail = 127 }

pub empty-Waits : Waits empty []
empty-Waits = record {
  tail = omega arith;
  head = refl;
  bound = omega arith;
  cells = λ i h. absurd (omega arith);
}

abbrev two : KeyBuffer
two = keyboard_push_scancode 48 (keyboard_push_scancode 30 empty)

two-Waits : Waits two (30 ∷ 48 ∷ [])
two-Waits =
    keyboard_push_scancode-Waits 48 (keyboard_push_scancode 30 empty) (30 ∷ [])
      (keyboard_push_scancode-Waits 30 empty [] empty-Waits (omega arith)) (omega arith)

abbrev idle : Kernel
idle = record { buffer = empty; scancode = none }

abbrev one_left : Kernel
one_left = record { buffer = advance_tail two; scancode = none }

-- The second scancode comes between the two statements that take the first one.
between : Runs idle (30 ∷ 48 ∷ []) (30 ∷ []) one_left
unfolding keyboard_push_scancode keyboard_has_input scancode_at_tail
between =
    interrupt 30 (omega arith) (fetch refl refl (interrupt 48 (omega arith) (advance 30 refl stop)))

Runs-Serves_example : (q : List ℕ) × Serves [] (30 ∷ 48 ∷ []) (30 ∷ []) q × Serving one_left q
Runs-Serves_example = Runs-Serves [] (empty-Waits, tt) between

Runs-order_example : (q : List ℕ) × (30 ∷ 48 ∷ [] ≡ 30 ∷ q) × Serving one_left q
Runs-order_example = Runs-order [] (empty-Waits, tt) between (omega arith)

abbrev pub stubs : ℕ → ℕ
stubs i = 0x100000 + i % 32

stubs-fit : (i : ℕ) → stubs i < 2 ^ 32
stubs-fit i = omega arith

abbrev pub no_gates : ℕ → Descriptor
no_gates i = record { base_low = 0; selector = 0; zero = 0; flags = 0; base_high = 0 }

interrupt_init-LeadsToStub_example : LeadsTo (interrupt_init stubs stubs no_gates 33) 0x100001
interrupt_init-LeadsToStub_example =
    interrupt_init-LeadsToStub stubs stubs no_gates 33 stubs-fit stubs-fit

abbrev machine : Machine
machine = record { trace = []; device = λ events port. 0; vga = λ p. 0 }

abbrev no_handlers : Handlers ℕ
no_handlers vector = none

abbrev count : InterruptHandler ℕ
count frame (n, m) = (n + 1, m)

abbrev pub frame_of : ℕ → InterruptFrame
frame_of vector = record {
  edi = 0;
  esi = 0;
  ebp = 0;
  esp = 0;
  ebx = 0;
  edx = 0;
  ecx = 0;
  eax = 0;
  vector = vector;
  error_code = 0;
  eip = 0;
  cs = 8;
  eflags = 0;
}

interrupt_dispatch-register_example :
    let r =
      interrupt_dispatch (interrupt_register 44 count no_handlers) (frame_of 44) (0, machine) in
    (r.0 ≡ 1) × (r.1.trace ≡ wrote 0x20 0x20 ∷ wrote 0xA0 0x20 ∷ [])
interrupt_dispatch-register_example =
    interrupt_dispatch-register 44 (frame_of 44) count no_handlers (0, machine) (omega arith)

-- A controller in the middle of its initialization.
abbrev unknown : Controller
unknown = record {
  next_word = icw4_next;
  is_single = true;
  has_icw4 = true;
  is_8086 = false;
  offset = 8;
  cascade = 0;
  mask = 255;
}

abbrev no_entries : ℕ → Entry
no_entries i = record {
  limit_low = 0;
  base_low = 0;
  base_middle = 0;
  access = 0;
  granularity = 0;
  base_high = 0;
}

abbrev pub no_segments : Gdt
no_segments = record {
  gdt = no_entries;
  gdt_ptr = record { limit = 0; base = 0 };
  code_segment = 0;
  data_segments = 0;
  stack_segment = 0;
}

set_entry_lem_example :
    let gdt = set_entry 2 0x12345678 0xABCDE 0x92 0xCF no_entries in
    (base_of (gdt 2) ≡ 0x12345678)
    × (limit_of (gdt 2) ≡ 0xABCDE)
    × ((gdt 2).access ≡ 0x92)
    × ((gdt 2).granularity / 2 ^ 4 ≡ 12)
    × (gdt 5 ≡ no_entries 5)
set_entry_lem_example =
    set_entry_lem 2 0x12345678 0xABCDE 0x92 0xCF no_entries 5 (omega arith) (omega arith)
      (omega arith) (omega arith)

-- A mouse that sends one packet with a turn of the wheel.
abbrev mouse : Mouse
mouse = record {
  has_scroll_wheel = true;
  cycle = 0;
  packet = λ i. 0;
  buffer = empty;
  machine = record machine {
    device = λ events port.
        if port == 0x64 then 0x21 else get_or (8 ∷ 1 ∷ 2 ∷ 255 ∷ []) (length events / 2) 0;
  };
}

abbrev turn : Packet
turn = record { first = 8; x = 1; y = 2; wheel = 255 }

abbrev turned : Mouse
turned =
    mouse_interrupt_handler
      (mouse_interrupt_handler (mouse_interrupt_handler (mouse_interrupt_handler mouse)))

turn-Interrupted : Interrupted mouse (8 ∷ 1 ∷ 2 ∷ 255 ∷ []) turned
unfolding is_ready next_byte mouse_interrupt_handler receive_byte inb
turn-Interrupted = byte 8 refl refl (byte 1 refl refl (byte 2 refl refl (byte 255 refl refl done)))

Interrupted-turns_example : (turned.buffer ≡ push_all (0x48 ∷ []) empty) × (turned.cycle ≡ 0)
Interrupted-turns_example =
    Interrupted-turns (turn ∷ []) mouse turned refl refl (refl, omega arith, tt) turn-Interrupted
