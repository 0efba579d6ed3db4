-- ===== src/Boot/Loop.antt =====
-- boot/main.c: the loop of `kernel_main`, with that of `keyboard_handle_input` in it, and the
-- interrupts that come between its steps. A step ends where an interrupt may change what the next
-- one reads: behind each access to the key buffer, and behind `cli` and `sti`. An interrupt handler
-- runs to its end, and one that comes while a scancode is handled is taken behind it. `sti` lets no
-- interrupt come before `hlt`.
use kernel_from_scratch.Prelude.{ℕ, zero, suc, ◌≡◌, if◌then◌else◌}
use kernel_from_scratch.KeyBuffer.{keyboard_has_input, scancode_at_tail, advance_tail}
use kernel_from_scratch.Interrupts.{InterruptFrame, interrupt_dispatch}
use kernel_from_scratch.Shell.{Platform, Run, done, ◌>>=◌}
use kernel_from_scratch.MainLoop.{press_scancode}
use kernel_from_scratch.Boot.{System, on_machine}

-- Where the processor is: at the test of the loop of `keyboard_handle_input`, behind the statement
-- that reads a scancode, behind the one that moves the tail, behind the loop, behind `cli`, or in
-- `hlt`.
pub data Phase : Type 0 where
  at_test leaving masked asleep : Phase
  fetched taken : ℕ → Phase

pub record State : Type 0 where
  pub system : System
  pub phase : Phase

-- The next step of the loop. In `hlt` there is none but an interrupt.
unfoldable pub step_from : Platform → ℕ → Phase → System → Run State
step_from p depth at_test s =
    if keyboard_has_input s.devices.buffer
    then done (record { system = s; phase = fetched (scancode_at_tail s.devices.buffer) })
    else done (record { system = s; phase = leaving })
step_from p depth (fetched scancode) s =
    let devices = record s.devices { buffer = advance_tail s.devices.buffer } in
    done (record { system = record s { devices = devices }; phase = taken scancode })
step_from p depth (taken scancode) s = do
  k ← press_scancode p depth scancode s.kernel
  done (record { system = record s { kernel = k }; phase = at_test })
step_from p depth leaving s = done (record { system = s; phase = masked })
step_from p depth masked s =
    if keyboard_has_input s.devices.buffer
    then done (record { system = s; phase = at_test })
    else done (record { system = s; phase = asleep })
step_from p depth asleep s = done (record { system = s; phase = asleep })

abbrev pub step : Platform → ℕ → State → Run State
step p depth s = step_from p depth s.phase s.system

-- The loop behind `n` steps with no interrupt between them.
abbrev pub turns : Platform → ℕ → ℕ → State → Run State
turns p depth zero s = done s
turns p depth (suc n) s = do s ← step p depth s; turns p depth n s

-- The state in which the loop starts.
abbrev pub start : System → State
start s = record { system = s; phase = at_test }

-- Interrupts are enabled but behind `cli`.
abbrev pub IsOpen : Phase → Type 0
IsOpen masked = ⊥
IsOpen _ = Unit

-- Behind `hlt` the loop goes on.
abbrev pub woken : Phase → Phase
woken asleep = at_test
woken phase = phase

-- An interrupt, on the whole state.
unfoldable pub take_interrupt : InterruptFrame → System → System
take_interrupt frame s =
    let (devices, m) = interrupt_dispatch s.handlers frame (s.devices, s.kernel.terminal.machine) in
    record s { devices = devices; kernel = on_machine (λ _. m) s.kernel }

pub data Moves (p : Platform) (depth : ℕ) : State → State → Type 0 where
  steps : {s s' : State} → step p depth s ≡ done s' → Moves p depth s s'
  interrupted :
      {s : State} (frame : InterruptFrame)
      → IsOpen s.phase
      → Moves p depth s (record { system = take_interrupt frame s.system; phase = woken s.phase })

pub data Reaches (p : Platform) (depth : ℕ) (s : State) : State → Type 0 where
  here : Reaches p depth s s
  next : {t u : State} → Reaches p depth s t → Moves p depth t u → Reaches p depth s u
