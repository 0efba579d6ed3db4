-- ===== src/Boot/Alive.antt =====
-- boot/main.c: the state in which the main loop starts.
use kernel_from_scratch.Prelude.{ℕ, ◌≡◌, ◌≢◌, refl, arith, false, ◌==◌, some}
use kernel_from_scratch.Terminal.Screens.{terminal_init}
use kernel_from_scratch.Interrupts.{interrupt_register}
use kernel_from_scratch.Shell.{shell_init, add_shell_cmd}
use kernel_from_scratch.Multiboot.{MultibootInfo}
use kernel_from_scratch.Shell.Table.{shell_init-IsReady}
use kernel_from_scratch.Shell.Table.{IsReady}
use kernel_from_scratch.Terminal.Screens.Desk.{Mirrors, machine-Mirrors}
use kernel_from_scratch.Terminal.Screens.Mirror.{first_desk, terminal_init-Mirrors}
use kernel_from_scratch.Boot.{
  System, Addresses, kernel_main, keyboard_interrupt_handler, mouse_handler,
  interrupt_vector_keyboard, interrupt_vector_mouse,
}

-- From any state of the memory, `kernel_main` reaches its loop with the table of the shell set up
-- and no `read` waiting, the first screen shown with an empty line and the others not set up yet,
-- each of the ten in its own colors, and the vectors of IRQ 1 and IRQ 12, and no others, registered
-- anew, for the handlers of keyboard and mouse.
pub kernel_main-Mirrors :
    (a : Addresses) (mbi : MultibootInfo) (s : System)
    → let s' = kernel_main a mbi s in
      IsReady s'.kernel.shell
      × Mirrors s'.kernel.terminal first_desk
      × (s'.kernel.shell.read_pending ≡ false)
      × (s'.handlers interrupt_vector_keyboard ≡ some keyboard_interrupt_handler)
      × (s'.handlers interrupt_vector_mouse ≡ some mouse_handler)
      × ((vector : ℕ)
          → vector ≢ interrupt_vector_keyboard
          → vector ≢ interrupt_vector_mouse
          → s'.handlers vector ≡ s.handlers vector)
unfolding kernel_main interrupt_register
kernel_main-Mirrors a mbi s = (
  shell_init-IsReady mbi s.kernel.shell,
  machine-Mirrors (terminal_init s.kernel.terminal) _ first_desk
      (terminal_init-Mirrors s.kernel.terminal).0,
  (unfold shell_init add_shell_cmd in refl),
  refl,
  refl,
  λ vector nk nm.
      let other_mouse : (vector == interrupt_vector_mouse) ≡ false = ground arith in
      let other_keyboard : (vector == interrupt_vector_keyboard) ≡ false = ground arith in
      rw (other_mouse, other_keyboard) refl,
)
