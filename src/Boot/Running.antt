-- ===== src/Boot/Running.antt =====
-- boot/main.c: what holds at every step of the main loop, whatever interrupts come.
use mathlib.Core.Path.{subst}
use kernel_from_scratch.Prelude.{ℕ, suc, ◌≡◌, refl, true, false, Option, none, some, if_elim}
use kernel_from_scratch.Terminal.Screens.Desk.{Desk, Mirrors, machine-Mirrors}
use kernel_from_scratch.KeyBuffer.{KeyBuffer, keyboard_has_input, scancode_at_tail, advance_tail}
use kernel_from_scratch.KeyBuffer.Queue.{Waits, advance_tail-Waits}
use kernel_from_scratch.KeyBuffer.Interleaving.{fetch-Fetched}
use kernel_from_scratch.Interrupts.{InterruptFrame, interrupt_dispatch}
use kernel_from_scratch.Shell.{Kernel, Platform, Run, stuck, halted, done, ◌>>=◌, is_reading}
use kernel_from_scratch.Shell.Table.{IsReady}
use kernel_from_scratch.Shell.Ends.{EndsOr-weaken, Ends, Serves, same-Serves}
use kernel_from_scratch.Keyboard.{handle_scancode}
use kernel_from_scratch.Keyboard.Typing.{desk_by}
use kernel_from_scratch.MainLoop.{press_scancode}
use kernel_from_scratch.MainLoop.Keys.{Follows, press_scancode-Follows}
use kernel_from_scratch.Boot.{
  System, on_machine, keyboard_interrupt_handler, interrupt_vector_keyboard,
}
use kernel_from_scratch.Boot.Loop.{
  Phase, at_test, fetched, taken, leaving, masked, asleep, State, step_from, woken, take_interrupt,
  Moves, steps, interrupted, Reaches, here, next,
}
use kernel_from_scratch.Boot.Arrivals.{Queued, IsKnown, interrupt_dispatch-Kept}

-- What the main loop has read and not yet taken out of the buffer.
abbrev read_ahead : Phase → Option ℕ
read_ahead (fetched scancode) = some scancode
read_ahead _ = none

-- The processor sleeps only while no scancode waits.
abbrev SleepsEmpty : Phase → KeyBuffer → Type 0
SleepsEmpty asleep b = keyboard_has_input b ≡ false
SleepsEmpty _ b = Unit

-- The shell is ready, the screens show the lines of a desk, the platform serves the commands, the
-- handlers are those of the program, a queue waits in the key buffer, and the processor does not
-- sleep while a scancode waits.
pub record IsSound (p : Platform) (s : State) : Type 0 where
  pub ready : IsReady s.system.kernel.shell
  pub desk : Desk
  pub mirrors : Mirrors s.system.kernel.terminal desk
  pub serves : Serves p s.system.kernel
  pub known : (vector : ℕ) → IsKnown (s.system.handlers vector)
  pub registered : s.system.handlers interrupt_vector_keyboard ≡ some keyboard_interrupt_handler
  pub queued : Queued (read_ahead s.phase) s.system.devices.buffer
  pub awake : SleepsEmpty s.phase s.system.devices.buffer

-- The queue of an interrupted state waits for the loop where it goes on.
woken-Queued :
    (phase : Phase) (b : KeyBuffer)
    → Queued (read_ahead phase) b
    → Queued (read_ahead (woken phase)) b
woken-Queued at_test b h = h
woken-Queued (fetched x) b h = h
woken-Queued (taken x) b h = h
woken-Queued leaving b h = h
woken-Queued masked b h = h
woken-Queued asleep b h = h

woken-SleepsEmpty : (phase : Phase) (b : KeyBuffer) → SleepsEmpty (woken phase) b
woken-SleepsEmpty at_test b = tt
woken-SleepsEmpty (fetched x) b = tt
woken-SleepsEmpty (taken x) b = tt
woken-SleepsEmpty leaving b = tt
woken-SleepsEmpty masked b = tt
woken-SleepsEmpty asleep b = tt

interrupt-IsSound :
    (p : Platform) (frame : InterruptFrame) (s : State)
    → IsSound p s
    → IsSound p (record { system = take_interrupt frame s.system; phase = woken s.phase })
unfolding take_interrupt
interrupt-IsSound p frame s h =
    let k = s.system.kernel in
    let m = (interrupt_dispatch s.system.handlers frame (s.system.devices, k.terminal.machine)).1 in
    let (same, queued) =
      interrupt_dispatch-Kept s.system.handlers frame (read_ahead s.phase) s.system.devices
        k.terminal.machine (h.known frame.vector) h.queued in
    record {
      ready = h.ready;
      desk = h.desk;
      mirrors = machine-Mirrors k.terminal m h.desk h.mirrors;
      serves = same-Serves p k (on_machine (λ _. m) k) refl same h.serves;
      known = h.known;
      registered = h.registered;
      queued = woken-Queued s.phase _ queued;
      awake = woken-SleepsEmpty s.phase _;
    }

-- Another phase of the same system.
at_phase :
    (p : Platform) (s : State) (phase : Phase)
    → IsSound p s
    → Queued (read_ahead phase) s.system.devices.buffer
    → SleepsEmpty phase s.system.devices.buffer
    → IsSound p (record { system = s.system; phase = phase })
at_phase p s phase h queued awake = record {
  ready = h.ready;
  desk = h.desk;
  mirrors = h.mirrors;
  serves = h.serves;
  known = h.known;
  registered = h.registered;
  queued = queued;
  awake = awake;
}

fetch-Queued :
    (b : KeyBuffer)
    → keyboard_has_input b ≡ true
    → Queued none b
    → Queued (some (scancode_at_tail b)) b
fetch-Queued b input (q, w, f) = (q, w, fetch-Fetched b q w input)

take-Queued : (x : ℕ) (b : KeyBuffer) → Queued (some x) b → Queued none (advance_tail b)
take-Queued x b (q, w, (xs, e)) = (xs, advance_tail-Waits b x xs (subst (Waits b) e w), tt)

-- Handling a scancode that was taken.
taken-IsSound :
    (p : Platform) (depth x : ℕ) (s : System)
    → IsSound p (record { system = s; phase = taken x })
    → Ends (IsSound p) (step_from p (suc depth) (taken x) s)
unfolding step_from
taken-IsSound p depth x s h =
    let d = desk_by (handle_scancode (is_reading s.kernel) x s.kernel.keyboard).1 h.desk in
    handled d (press_scancode p (suc depth) x s.kernel) (
      EndsOr-weaken _ _ (Follows s.kernel d) _ (λ halts. tt)
        (press_scancode-Follows p depth x s.kernel h.desk h.mirrors h.ready h.serves))
  where
    handled :
        (d : Desk) (r : Run Kernel)
        → Ends (Follows s.kernel d) r
        → Ends
            (IsSound p)
            (do k ← r; done (record { system = record s { kernel = k }; phase = at_test }))
    handled d stuck n = n
    handled d (halted k) n = tt
    handled d (done k) (ready, mirrors, map, device) = record {
      ready = ready;
      desk = d;
      mirrors = mirrors;
      serves = same-Serves p s.kernel k map device h.serves;
      known = h.known;
      registered = h.registered;
      queued = h.queued;
      awake = tt;
    }

pub step-IsSound :
    (p : Platform) (depth : ℕ) (phase : Phase) (s : System)
    → IsSound p (record { system = s; phase = phase })
    → Ends (IsSound p) (step_from p (suc depth) phase s)
unfolding step_from
step-IsSound p depth at_test s h =
    if_elim (Ends (IsSound p)) (keyboard_has_input s.devices.buffer)
      (λ input. at_phase p _ _ h (fetch-Queued s.devices.buffer input h.queued) tt)
      (λ e. at_phase p _ leaving h h.queued tt)
step-IsSound p depth (fetched x) s h = record {
  ready = h.ready;
  desk = h.desk;
  mirrors = h.mirrors;
  serves = h.serves;
  known = h.known;
  registered = h.registered;
  queued = take-Queued x s.devices.buffer h.queued;
  awake = tt;
}
step-IsSound p depth (taken x) s h = taken-IsSound p depth x s h
step-IsSound p depth leaving s h = at_phase p _ masked h h.queued tt
step-IsSound p depth masked s h =
    if_elim (Ends (IsSound p)) (keyboard_has_input s.devices.buffer)
      (λ input. at_phase p _ at_test h h.queued tt) (λ e. at_phase p _ asleep h h.queued e)
step-IsSound p depth asleep s h = h

Moves-IsSound :
    {p : Platform} {depth : ℕ} {s s' : State}
    → Moves p (suc depth) s s'
    → IsSound p s
    → IsSound p s'
Moves-IsSound {p} {depth} {s} (steps e) h =
    subst (Ends (IsSound p)) e (step-IsSound p depth s.phase s.system h)
Moves-IsSound {p} {s = s} (interrupted frame enabled) h = interrupt-IsSound p frame s h

pub Reaches-IsSound :
    {p : Platform} {depth : ℕ} {s s' : State}
    → IsSound p s
    → Reaches p (suc depth) s s'
    → IsSound p s'
Reaches-IsSound h here = h
Reaches-IsSound h (next r m) = Moves-IsSound m (Reaches-IsSound h r)
