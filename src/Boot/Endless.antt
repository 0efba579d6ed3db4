-- ===== src/Boot/Endless.antt =====
-- boot/main.c: the main loop from `kernel_main` on goes on for ever, and handles every scancode.
use mathlib.Core.Path.{subst}
use kernel_from_scratch.Prelude.{
  ℕ, suc, ◌≤◌, ◌≡◌, ◌≢◌, refl, sym, ◌∙◌, arith, true, ◌==◌, inl, inr, none, some, [], if_elim,
}
use kernel_from_scratch.Terminal.Screens.{terminal_init}
use kernel_from_scratch.Terminal.Screens.Desk.{machine-Mirrors}
use kernel_from_scratch.Terminal.Screens.Mirror.{first_desk, terminal_init-Mirrors}
use kernel_from_scratch.KeyBuffer.{KeyBuffer, keyboard_has_input, scancode_at_tail, advance_tail}
use kernel_from_scratch.KeyBuffer.Queue.{Waits, scancode_at_tail-cons}
use kernel_from_scratch.Interrupts.{interrupt_register}
use kernel_from_scratch.Multiboot.{MultibootInfo}
use kernel_from_scratch.Mouse.Hardware.{mouse_init-device, remap_pic-device}
use kernel_from_scratch.Shell.{Kernel, Platform, shell_init, done}
use kernel_from_scratch.Shell.Table.{shell_init-IsReady}
use kernel_from_scratch.Shell.Ends.{Ends, Serves, same-Serves}
use kernel_from_scratch.Boot.{
  System, Addresses, kernel_main, interrupt_vector_keyboard, interrupt_vector_mouse,
}
use kernel_from_scratch.Boot.Loop.{
  Phase, at_test, fetched, taken, leaving, masked, asleep, State, step_from, step, turns, start,
  Reaches,
}
use kernel_from_scratch.Boot.Arrivals.{Queued, IsKnown}
use kernel_from_scratch.Boot.Running.{IsSound, step-IsSound, Reaches-IsSound}

-- What the loader leaves in the sections of zeros: no handlers, and an empty key buffer.
abbrev pub IsFresh : System → Type 0
IsFresh s = ((vector : ℕ) → s.handlers vector ≡ none) × Waits s.devices.buffer []

-- The memory behind `shell_init`, in which the platform is to serve the commands.
abbrev pub with_shell : MultibootInfo → System → Kernel
with_shell mbi s = record s.kernel { shell = shell_init mbi s.kernel.shell }

-- All that `kernel_main` does leaves the hardware alone.
kernel_main-device :
    (a : Addresses) (mbi : MultibootInfo) (s : System)
    → (kernel_main a mbi s).kernel.terminal.machine.device ≡ s.kernel.terminal.machine.device
unfolding kernel_main
kernel_main-device a mbi s =
    mouse_init-device s.devices.has_scroll_wheel _
    ∙ remap_pic-device (terminal_init s.kernel.terminal).machine
    ∙ (terminal_init-Mirrors s.kernel.terminal).1

pub kernel_main-IsSound :
    (p : Platform) (a : Addresses) (mbi : MultibootInfo) (s : System)
    → IsFresh s
    → Serves p (with_shell mbi s)
    → IsSound p (start (kernel_main a mbi s))
unfolding kernel_main
kernel_main-IsSound p a mbi s (no_handlers, empty) serves = record {
  ready = shell_init-IsReady mbi s.kernel.shell;
  desk = first_desk;
  mirrors =
      machine-Mirrors (terminal_init s.kernel.terminal) _ first_desk
        (terminal_init-Mirrors s.kernel.terminal).0;
  serves =
      same-Serves p (with_shell mbi s) (kernel_main a mbi s).kernel refl
        (kernel_main-device a mbi s) serves;
  known = λ vector.
      unfold interrupt_register in
      if_elim IsKnown (vector == interrupt_vector_mouse) (λ mouse. inr (inr refl))
        (λ e.
          if_elim IsKnown (vector == interrupt_vector_keyboard) (λ keyboard. inr (inl refl))
            (λ e. inl (no_handlers vector)));
  registered = unfold interrupt_register in refl;
  queued = ([], empty, tt);
  awake = tt;
}

-- From `kernel_main`, whatever interrupts come and whatever the scancodes are, the main loop is in
-- order at every step: the shell is ready, the ten screens show lines, each in its screen's colors,
-- a queue waits in the key buffer, and the processor does not sleep while a scancode waits. The
-- next step of the loop is then not stuck, and unless it halts the processor, it leaves the loop in
-- order. Before `kernel_main`, no handler is registered, the key buffer is empty, and the platform
-- serves the commands, with the loader's map and the hardware as they are then.
pub Reaches-Ends :
    (p : Platform) (depth : ℕ) (a : Addresses) (mbi : MultibootInfo) (s : System) (s' : State)
    → IsFresh s
    → Serves p (with_shell mbi s)
    → Reaches p (suc depth) (start (kernel_main a mbi s)) s'
    → IsSound p s' × Ends (IsSound p) (step p (suc depth) s')
Reaches-Ends p depth a mbi s s' fresh serves r =
    let sound = Reaches-IsSound (kernel_main-IsSound p a mbi s fresh serves) r in
    (sound, step-IsSound p depth s'.phase s'.system sound)

-- The first scancode that waits is taken out of the buffer.
abbrev pub takes_next : System → State
takes_next s = record {
  system = record s { devices = record s.devices { buffer = advance_tail s.devices.buffer } };
  phase = taken (scancode_at_tail s.devices.buffer);
}

fetched_next : (x : ℕ) (b : KeyBuffer) → Queued (some x) b → x ≡ scancode_at_tail b
fetched_next x b (q, w, (xs, e)) = sym (scancode_at_tail-cons b x xs (subst (Waits b) e w))

at_test-takes :
    (p : Platform) (depth : ℕ) (s : System)
    → keyboard_has_input s.devices.buffer ≡ true
    → turns p depth 2 (start s) ≡ done (takes_next s)
unfolding step_from
at_test-takes p depth s input = rw input refl

masked-takes :
    (p : Platform) (depth : ℕ) (s : System)
    → keyboard_has_input s.devices.buffer ≡ true
    → turns p depth 3 (record { system = s; phase = masked }) ≡ done (takes_next s)
unfolding step_from
masked-takes p depth s input = rw input (at_test-takes p depth s input)

phase-takes :
    (p : Platform) (depth : ℕ) (phase : Phase) (s : System)
    → IsSound p (record { system = s; phase = phase })
    → keyboard_has_input s.devices.buffer ≡ true
    → ((y : ℕ) → phase ≢ taken y)
    → (n : ℕ) × (n ≤ 4)
      × (turns p depth n (record { system = s; phase = phase }) ≡ done (takes_next s))
phase-takes p depth at_test s h input idle = (2, omega arith, at_test-takes p depth s input)
phase-takes p depth (fetched x) s h input idle = (
  1,
  omega arith,
  unfold step_from in
      subst (λ y. turns p depth 1 (record { system = s; phase = fetched y }) ≡ done (takes_next s))
        (sym (fetched_next x s.devices.buffer h.queued)) refl,
)
phase-takes p depth (taken y) s h input idle = absurd (idle y refl)
phase-takes p depth leaving s h input idle =
    (4, omega arith, unfold step_from in masked-takes p depth s input)
phase-takes p depth masked s h input idle = (3, omega arith, masked-takes p depth s input)
phase-takes p depth asleep s h input idle = absurd (ground (arith, h.awake))

-- In every state that the main loop reaches, if a scancode waits and none is just being handled, the
-- loop takes the first one that waits out of the buffer within four steps, unless an interrupt
-- comes between: it does not sleep.
pub Reaches-takes_next :
    (p : Platform) (depth : ℕ) (a : Addresses) (mbi : MultibootInfo) (s : System) (s' : State)
    → IsFresh s
    → Serves p (with_shell mbi s)
    → Reaches p (suc depth) (start (kernel_main a mbi s)) s'
    → keyboard_has_input s'.system.devices.buffer ≡ true
    → ((y : ℕ) → s'.phase ≢ taken y)
    → (n : ℕ) × (n ≤ 4) × (turns p depth n s' ≡ done (takes_next s'.system))
Reaches-takes_next p depth a mbi s s' fresh serves r input idle =
    phase-takes p depth s'.phase s'.system
      (Reaches-IsSound (kernel_main-IsSound p a mbi s fresh serves) r) input idle
