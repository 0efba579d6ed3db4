-- ===== src/Interrupts.antt =====
-- interrupt/idt.c, interrupt/interrupt.c and interrupt/pic.c: the descriptors of the interrupts,
-- their dispatch to the registered handlers, and the interrupt controllers. The stubs are assembly:
-- their addresses are parameters.
pub mod Gates
pub mod Acknowledge
pub mod Controllers
use kernel_from_scratch.Prelude.{
  ℕ, ◌+◌, ◌-◌, ◌*◌, ◌/◌, ◌%◌, ◌^◌, Bool, ◌||◌, Option, none, some, ltb, leb, if◌then◌else◌,
  for_loop, update,
}
use kernel_from_scratch.Machine.{Machine, outb, io_wait}
use kernel_from_scratch.Idt.{interrupt_flag, present, dpl0, interrupt_gate_32bit}
use kernel_from_scratch.Pic.{
  pic_offset, pic_port, master_command, master_data, slave_command, slave_data, icw1_bit, icw4,
  initialization, icw2, master_vector_offset, slave_vector_offset, icw3_bit,
  slave_connected_to_irq2, slave_connected_to_master_irq2, icw4_bit, mode_8086, imr_bit,
  disable_irq0, disable_irq1, disable_irq2, disable_irq3, disable_irq4, disable_irq5, disable_irq6,
  disable_irq7,
}

-- `struct interrupt_descriptor_table`, one entry of the table.
pub record Descriptor : Type 0 where
  pub base_low : ℕ
  pub selector : ℕ
  pub zero : ℕ
  pub flags : ℕ
  pub base_high : ℕ

pub record Pointer : Type 0 where
  pub limit : ℕ
  pub base : ℕ

-- The pointer that `lidt` loads, for a table of 256 entries of 8 bytes at address `idt`.
unfoldable pub register_interrupt_descriptor_table : ℕ → Pointer
register_interrupt_descriptor_table idt = record {
  limit = (256 * 8 - 1) % 2 ^ 16;
  base = idt % 2 ^ 32;
}

abbrev pub kernel_code_offset : ℕ
kernel_code_offset = 0x08

abbrev pub gate_flags : ℕ
gate_flags = interrupt_flag present + interrupt_flag dpl0 + interrupt_flag interrupt_gate_32bit

unfoldable pub set_interrupt_descriptor : ℕ → ℕ → (ℕ → Descriptor) → ℕ → Descriptor
set_interrupt_descriptor index handler idt = update idt index (record {
  base_low = handler % 2 ^ 16;
  selector = kernel_code_offset;
  zero = 0;
  flags = gate_flags;
  base_high = handler / 2 ^ 16 % 2 ^ 16;
})

abbrev pub exception_count : ℕ
exception_count = 20

abbrev pub pic_irq_count : ℕ
pic_irq_count = 16

unfoldable pub interrupt_init : (ℕ → ℕ) → (ℕ → ℕ) → (ℕ → Descriptor) → ℕ → Descriptor
interrupt_init exception_stub_table irq_stub_table idt =
    for_loop pic_irq_count 0
      (λ irq. set_interrupt_descriptor (pic_offset + irq) (irq_stub_table irq))
      (for_loop exception_count 0
        (λ vector. set_interrupt_descriptor vector (exception_stub_table vector)) idt)

-- What the stack holds when the dispatcher is called.
pub record InterruptFrame : Type 0 where
  pub edi : ℕ
  pub esi : ℕ
  pub ebp : ℕ
  pub esp : ℕ
  pub ebx : ℕ
  pub edx : ℕ
  pub ecx : ℕ
  pub eax : ℕ
  pub vector : ℕ
  pub error_code : ℕ
  pub eip : ℕ
  pub cs : ℕ
  pub eflags : ℕ

-- A handler works on the machine and on the rest of the kernel's state.
abbrev pub InterruptHandler {ℓ} : Type ℓ → Type ℓ
InterruptHandler S = InterruptFrame → S × Machine → S × Machine

abbrev pub Handlers {ℓ} : Type ℓ → Type ℓ
Handlers S = ℕ → Option (InterruptHandler S)

unfoldable pub interrupt_register {ℓ} :
    {S : Type ℓ} → ℕ → InterruptHandler S → Handlers S → Handlers S
interrupt_register vector handler handlers = update handlers (vector % 256) (some handler)

-- The first `if` of `interrupt_dispatch`.
unfoldable pub call_handler {ℓ} :
    {S : Type ℓ} → Option (InterruptHandler S) → InterruptFrame → S × Machine → S × Machine
call_handler none frame k = k
call_handler (some handler) frame k = handler frame k

abbrev pub pic_eoi : ℕ
pic_eoi = 0x20

-- The end of interrupt, from the second `if` on.
unfoldable pub acknowledge : ℕ → Machine → Machine
acknowledge vector m =
    if ltb vector pic_offset || leb (pic_offset + pic_irq_count) vector
    then m
    else (let m =
          if leb (icw2 slave_vector_offset) vector
          then outb (pic_port slave_command) pic_eoi m
          else m in
        outb (pic_port master_command) pic_eoi m)

unfoldable pub interrupt_dispatch {ℓ} :
    {S : Type ℓ} → Handlers S → InterruptFrame → S × Machine → S × Machine
interrupt_dispatch handlers frame k =
    let (s, m) = call_handler (handlers frame.vector) frame k in (s, acknowledge frame.vector m)

-- `outb` with the `io_wait` behind it.
unfoldable pub out_and_wait : ℕ → ℕ → Machine → Machine
out_and_wait port value m = io_wait (outb port value m)

-- The masks, bit by bit: a bit that is set disables the line.
abbrev pub master_mask : ℕ
master_mask =
    imr_bit disable_irq0
    + imr_bit disable_irq3
    + imr_bit disable_irq4
    + imr_bit disable_irq5
    + imr_bit disable_irq6
    + imr_bit disable_irq7

abbrev pub slave_mask : ℕ
slave_mask =
    imr_bit disable_irq0
    + imr_bit disable_irq1
    + imr_bit disable_irq2
    + imr_bit disable_irq3
    + imr_bit disable_irq5
    + imr_bit disable_irq6
    + imr_bit disable_irq7

unfoldable pub remap_pic : Machine → Machine
remap_pic m =
    let m = out_and_wait (pic_port master_command) (icw1_bit icw4 + icw1_bit initialization) m in
    let m = out_and_wait (pic_port slave_command) (icw1_bit icw4 + icw1_bit initialization) m in
    let m = out_and_wait (pic_port master_data) (icw2 master_vector_offset) m in
    let m = out_and_wait (pic_port slave_data) (icw2 slave_vector_offset) m in
    let m = out_and_wait (pic_port master_data) (icw3_bit slave_connected_to_irq2) m in
    let m = out_and_wait (pic_port slave_data) (icw3_bit slave_connected_to_master_irq2) m in
    let m = out_and_wait (pic_port master_data) (icw4_bit mode_8086) m in
    let m = out_and_wait (pic_port slave_data) (icw4_bit mode_8086) m in
    outb (pic_port slave_data) slave_mask (outb (pic_port master_data) master_mask m)
