-- ===== src/Boot.antt =====
-- boot/main.c: what `kernel_main` sets up before its loop, and the two handlers that it registers;
-- sections/bss.c: `check_bss`.
pub mod Alive
pub mod Arrivals
pub mod Loop
pub mod Running
pub mod Endless
pub mod Keystroke
use kernel_from_scratch.Prelude.{ℕ, ◌+◌, Bool, true, List, [], ◌∷◌, length}
use kernel_from_scratch.Machine.{Machine, inb}
use kernel_from_scratch.Terminal.{Console}
use kernel_from_scratch.Terminal.Number.{terminal_putnbr_output}
use kernel_from_scratch.Terminal.Output.{
  terminal_begin_output, terminal_end_output, terminal_putc_output,
}
use kernel_from_scratch.Terminal.Screens.{terminal_init}
use kernel_from_scratch.KeyBuffer.{KeyBuffer, keyboard_push_scancode}
use kernel_from_scratch.Gdt.{Gdt, register_gdt}
use kernel_from_scratch.Interrupts.{
  Descriptor, Pointer, InterruptHandler, Handlers, interrupt_init, interrupt_register, remap_pic,
  register_interrupt_descriptor_table,
}
use kernel_from_scratch.Idt.{interrupt_vector, keyboard, mouse}
use kernel_from_scratch.Mouse.{Mouse, mouse_init, mouse_interrupt_handler}
use kernel_from_scratch.Multiboot.{MultibootInfo}
use kernel_from_scratch.Shell.{Kernel, shell_init}

-- The state of the interrupt handlers, but for the machine.
pub record Devices : Type 0 where
  pub has_scroll_wheel : Bool
  pub cycle : ℕ
  pub packet : ℕ → ℕ
  pub buffer : KeyBuffer

unfoldable pub keyboard_interrupt_handler : InterruptHandler Devices
keyboard_interrupt_handler frame (d, m) =
    let (scancode, m) = inb 0x60 m in
    (record d { buffer = keyboard_push_scancode scancode d.buffer }, m)

-- The handler of the mouse, on the same state.
abbrev pub mouse_handler : InterruptHandler Devices
mouse_handler frame (d, m) =
    let s = mouse_interrupt_handler (record {
      has_scroll_wheel = d.has_scroll_wheel;
      cycle = d.cycle;
      packet = d.packet;
      buffer = d.buffer;
      machine = m;
    }) in
    (
      record {
        has_scroll_wheel = s.has_scroll_wheel;
        cycle = s.cycle;
        packet = s.packet;
        buffer = s.buffer;
      },
      s.machine,
    )

-- All that `kernel_main` sets up.
pub record System : Type 0 where
  pub kernel : Kernel
  pub gdt : Gdt
  pub idt : ℕ → Descriptor
  pub idt_pointer : Pointer
  pub handlers : Handlers Devices
  pub devices : Devices

-- What the assembly code and the linker define: the bounds of the GDT, the address of the IDT, and
-- the tables of the interrupt stubs.
pub record Addresses : Type 0 where
  pub gdt_start : ℕ
  pub gdt_end : ℕ
  pub idt_address : ℕ
  pub exception_stub_table : ℕ → ℕ
  pub irq_stub_table : ℕ → ℕ

abbrev pub interrupt_vector_keyboard : ℕ
interrupt_vector_keyboard = interrupt_vector keyboard

abbrev pub interrupt_vector_mouse : ℕ
interrupt_vector_mouse = interrupt_vector mouse

-- A function of the machine, as a step of the whole system.
abbrev pub on_machine : (Machine → Machine) → Kernel → Kernel
on_machine f k = record k { terminal = record k.terminal { machine = f k.terminal.machine } }

-- `kernel_main` before the interrupts are enabled.
unfoldable pub kernel_main : Addresses → MultibootInfo → System → System
kernel_main a mbi s =
    let k = record s.kernel { shell = shell_init mbi s.kernel.shell } in
    let k = record k { terminal = terminal_init k.terminal } in
    let gdt = register_gdt a.gdt_start a.gdt_end s.gdt in
    let k = on_machine remap_pic k in
    let idt = interrupt_init a.exception_stub_table a.irq_stub_table s.idt in
    let handlers =
      interrupt_register interrupt_vector_keyboard keyboard_interrupt_handler s.handlers in
    let handlers = interrupt_register interrupt_vector_mouse mouse_handler handlers in
    let (wheel, m) = mouse_init s.devices.has_scroll_wheel k.terminal.machine in
    record {
      kernel = on_machine (λ _. m) k;
      gdt = gdt;
      idt = idt;
      idt_pointer = register_interrupt_descriptor_table a.idt_address;
      handlers = handlers;
      devices = record s.devices { has_scroll_wheel = wheel };
    }

-- The loop of `check_bss` over the bytes from `bss_start` to `bss_end`.
unfoldable pub put_bytes : List ℕ → Console → Console
put_bytes [] c = c
put_bytes (b ∷ bytes) c = put_bytes bytes (terminal_putnbr_output b c)

unfoldable pub check_bss : List ℕ → Console → Console
check_bss bytes c =
    let c = terminal_putnbr_output (length bytes) (terminal_begin_output c) in
    let c = put_bytes bytes (terminal_putc_output 10 c) in terminal_end_output true c
