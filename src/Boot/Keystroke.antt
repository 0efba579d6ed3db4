-- ===== src/Boot/Keystroke.antt =====
-- boot/main.c: what the interrupt of a key does while the main loop runs.
use kernel_from_scratch.Prelude.{ℕ, suc, ◌≡◌, refl, arith, some, List, ◌∷◌}
use kernel_from_scratch.Machine.{wrote, read, inb, outb}
use kernel_from_scratch.KeyBuffer.Queue.{Waits, enqueue, keyboard_push_scancode-Waits}
use kernel_from_scratch.Interrupts.{InterruptFrame, interrupt_dispatch, call_handler, acknowledge}
use kernel_from_scratch.Multiboot.{MultibootInfo}
use kernel_from_scratch.Shell.{Platform}
use kernel_from_scratch.Shell.Ends.{Serves}
use kernel_from_scratch.Boot.{
  System, Addresses, kernel_main, keyboard_interrupt_handler, interrupt_vector_keyboard,
}
use kernel_from_scratch.Boot.Loop.{State, start, take_interrupt, Reaches}
use kernel_from_scratch.Boot.Running.{Reaches-IsSound}
use kernel_from_scratch.Boot.Endless.{IsFresh, with_shell, kernel_main-IsSound}

-- The byte that the keyboard's data port gives next.
abbrev pub key_byte : System → ℕ
key_byte s = (inb 0x60 s.kernel.terminal.machine).0

-- A key of this system: its byte is put behind the queue, and the interrupt acknowledged.
abbrev pub TakesKey : System → System → Type 0
TakesKey s s' =
    ((q : List ℕ) → Waits s.devices.buffer q → Waits s'.devices.buffer (enqueue (key_byte s) q))
    × (s'.kernel.terminal.machine.trace
        ≡ wrote 0x20 0x20 ∷ read 0x60 (key_byte s) ∷ s.kernel.terminal.machine.trace)
    × (s'.kernel.terminal.screens ≡ s.kernel.terminal.screens)
    × (s'.kernel.shell ≡ s.kernel.shell)

keyboard-TakesKey :
    (frame : InterruptFrame) (s : System)
    → frame.vector ≡ interrupt_vector_keyboard
    → s.handlers interrupt_vector_keyboard ≡ some keyboard_interrupt_handler
    → TakesKey s (take_interrupt frame s)
unfolding take_interrupt interrupt_dispatch
keyboard-TakesKey frame s irq registered =
    rw (irq, registered)
      (unfold call_handler keyboard_interrupt_handler acknowledge outb inb in
        (
          λ q w. keyboard_push_scancode-Waits (key_byte s) s.devices.buffer q w (omega arith),
          refl,
          refl,
          refl,
        ))

-- In every state that the main loop reaches, the interrupt of IRQ 1 takes one byte from the
-- keyboard's data port and puts it behind the scancodes that wait, or drops it if 127 wait,
-- acknowledges the interrupt to the master controller and to it only, and leaves the screens and
-- the shell alone.
pub Reaches-TakesKey :
    (p : Platform) (depth : ℕ) (a : Addresses) (mbi : MultibootInfo) (s : System) (s' : State)
    (frame : InterruptFrame)
    → IsFresh s
    → Serves p (with_shell mbi s)
    → Reaches p (suc depth) (start (kernel_main a mbi s)) s'
    → frame.vector ≡ interrupt_vector_keyboard
    → TakesKey s'.system (take_interrupt frame s'.system)
Reaches-TakesKey p depth a mbi s s' frame fresh serves r irq =
    keyboard-TakesKey frame s'.system irq
      (Reaches-IsSound (kernel_main-IsSound p a mbi s fresh serves) r).registered
