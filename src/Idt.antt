-- ===== src/Idt.antt =====
-- inc/idt.h: the vectors of the interrupts, and the flags of a descriptor.
use kernel_from_scratch.Prelude.{ℕ, ◌*◌, ◌^◌}

-- The exceptions of the processor, and the two IRQs that have handlers.
pub data InterruptVectorIndex : Type 0 where
  division_by_zero debugger nmi breakpoint overflow bounds : InterruptVectorIndex
  invalid_opcode coprocessor_not_available double_fault : InterruptVectorIndex
  coprocessor_segment_overrun invalid_task_state_segment : InterruptVectorIndex
  segment_not_present stack_fault general_protection_fault : InterruptVectorIndex
  page_fault reserved math_fault alignment_check machine_check : InterruptVectorIndex
  simd_floating_point_exception keyboard mouse : InterruptVectorIndex

abbrev pub interrupt_vector : InterruptVectorIndex → ℕ
interrupt_vector division_by_zero = 0x00
interrupt_vector debugger = 0x01
interrupt_vector nmi = 0x02
interrupt_vector breakpoint = 0x03
interrupt_vector overflow = 0x04
interrupt_vector bounds = 0x05
interrupt_vector invalid_opcode = 0x06
interrupt_vector coprocessor_not_available = 0x07
interrupt_vector double_fault = 0x08
interrupt_vector coprocessor_segment_overrun = 0x09
interrupt_vector invalid_task_state_segment = 0x0A
interrupt_vector segment_not_present = 0x0B
interrupt_vector stack_fault = 0x0C
interrupt_vector general_protection_fault = 0x0D
interrupt_vector page_fault = 0x0E
interrupt_vector reserved = 0x0F
interrupt_vector math_fault = 0x10
interrupt_vector alignment_check = 0x11
interrupt_vector machine_check = 0x12
interrupt_vector simd_floating_point_exception = 0x13
interrupt_vector keyboard = 0x21
interrupt_vector mouse = 0x2C

pub data InterruptDescriptorFlag : Type 0 where
  task_gate interrupt_gate_16bit gate_16bit : InterruptDescriptorFlag
  interrupt_gate_32bit trap_gate_32bit : InterruptDescriptorFlag
  dpl0 dpl3 present : InterruptDescriptorFlag

abbrev pub interrupt_flag : InterruptDescriptorFlag → ℕ
interrupt_flag task_gate = 0x5
interrupt_flag interrupt_gate_16bit = 0x6
interrupt_flag gate_16bit = 0x7
interrupt_flag interrupt_gate_32bit = 0xE
interrupt_flag trap_gate_32bit = 0xF
interrupt_flag dpl0 = 0 * 2 ^ 5
interrupt_flag dpl3 = 3 * 2 ^ 5
interrupt_flag present = 2 ^ 7
