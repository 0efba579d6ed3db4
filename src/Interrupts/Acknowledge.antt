-- ===== src/Interrupts/Acknowledge.antt =====
-- interrupt.c: what `interrupt_dispatch` calls and acknowledges.
use kernel_from_scratch.Prelude.{
  ℕ, ◌%◌, ◌<◌, ◌≡◌, refl, arith, ◌&&◌, ltb, leb, ◌==◌, if◌then◌else◌, List, [], ◌∷◌, ◌++◌,
  Bool-cases, inl, inr,
}
use kernel_from_scratch.Machine.{Machine, Event, wrote, outb}
use kernel_from_scratch.Interrupts.{
  InterruptFrame, InterruptHandler, Handlers, interrupt_dispatch, interrupt_register, acknowledge,
  call_handler,
}

-- The ends of interrupt that a vector asks for, the latest first: none for an exception or a
-- software interrupt, one to the master for IRQ 0 to 7, one to each controller for IRQ 8 to 15.
abbrev pub ends_of_interrupt : ℕ → List Event
ends_of_interrupt vector =
    if leb 32 vector && ltb vector 40
    then wrote 0x20 0x20 ∷ []
    else if leb 40 vector && ltb vector 48
    then wrote 0x20 0x20 ∷ wrote 0xA0 0x20 ∷ []
    else []

acknowledge_lem :
    (vector : ℕ) (m : Machine) → (acknowledge vector m).trace ≡ ends_of_interrupt vector ++ m.trace
unfolding acknowledge outb
acknowledge_lem vector m = ground arith

-- Behind the registration of a handler for a vector below 256, a dispatch of that vector runs the
-- handler once, and then acknowledges the interrupt to those controllers, and only those, that it
-- came through; a dispatch of any other vector does what it did before.
pub interrupt_dispatch-register {ℓ} :
    {S : Type ℓ} (registered : ℕ) (frame : InterruptFrame) (handler : InterruptHandler S)
    (handlers : Handlers S) (k : S × Machine)
    → registered < 256
    → let r = interrupt_dispatch (interrupt_register registered handler handlers) frame k in
      let called =
        if frame.vector == registered
        then handler frame k
        else call_handler (handlers frame.vector) frame k in
      (r.0 ≡ called.0) × (r.1.trace ≡ ends_of_interrupt frame.vector ++ called.1.trace)
unfolding interrupt_dispatch interrupt_register call_handler
interrupt_dispatch-register registered frame handler handlers k h =
    let byte : registered % 256 ≡ registered = omega arith in
    rw byte (elim (Bool-cases (frame.vector == registered)) [
      | inl e ↦ rw e (refl, acknowledge_lem frame.vector (handler frame k).1)
      | inr e ↦
          rw e (refl, acknowledge_lem frame.vector (call_handler (handlers frame.vector) frame k).1)
    ])
