-- ===== src/Boot/Arrivals.antt =====
-- boot/main.c: what the interrupt handlers of the program keep, whichever interrupt comes.
use mathlib.Core.Path.{subst}
use kernel_from_scratch.Prelude.{
  ℕ, ◌+◌, ◌%◌, ◌<◌, ◌≡◌, ◌⊎◌, inl, inr, refl, sym, ◌∙◌, arith, not, ◌&&◌, ◌||◌, ltb, leb, ◌==◌,
  if_elim, Option, none, some, List, update, lt8, is_negative8,
}
use kernel_from_scratch.Machine.{Machine, Event, inb, outb}
use kernel_from_scratch.KeyBuffer.{KeyBuffer, keyboard_push_scancode}
use kernel_from_scratch.KeyBuffer.Queue.{Waits, enqueue, keyboard_push_scancode-Waits}
use kernel_from_scratch.KeyBuffer.Interleaving.{Fetched, Fetched-enqueue}
use kernel_from_scratch.Interrupts.{
  InterruptFrame, InterruptHandler, Handlers, interrupt_dispatch, call_handler, acknowledge,
  pic_irq_count,
}
use kernel_from_scratch.Pic.{pic_offset}
use kernel_from_scratch.Mouse.{
  Mouse, has_bit, packet_size, push_wheel, receive_byte, mouse_interrupt_handler,
}
use kernel_from_scratch.Boot.{Devices, keyboard_interrupt_handler, mouse_handler}

-- A queue waits in the buffer, and its front is what the main loop has read.
abbrev pub Queued : Option ℕ → KeyBuffer → Type 0
Queued o b = (q : List ℕ) × Waits b q × Fetched o q

push-Queued :
    (scancode : ℕ) (o : Option ℕ) (b : KeyBuffer)
    → scancode < 256
    → Queued o b
    → Queued o (keyboard_push_scancode scancode b)
push-Queued scancode o b byte (q, w, f) = (
  enqueue scancode q,
  keyboard_push_scancode-Waits scancode b q w byte,
  Fetched-enqueue o scancode q f,
)

push_wheel-Queued :
    (wheel : ℕ) (o : Option ℕ) (b : KeyBuffer) → Queued o b → Queued o (push_wheel wheel b)
unfolding push_wheel
push_wheel-Queued wheel o b h =
    if_elim (Queued o) (is_negative8 wheel) (λ up. push-Queued 0x48 o b (omega arith) h)
      (λ e.
        if_elim (Queued o) (lt8 0 wheel) (λ down. push-Queued 0x50 o b (omega arith) h) (λ none. h))

-- What an interrupt handler keeps.
abbrev pub Kept : (List Event → ℕ → ℕ) → Option ℕ → Devices × Machine → Type 0
Kept device o k = (k.1.device ≡ device) × Queued o k.0.buffer

keyboard_interrupt_handler-Kept :
    (frame : InterruptFrame) (o : Option ℕ) (d : Devices) (m : Machine)
    → Queued o d.buffer
    → Kept m.device o (keyboard_interrupt_handler frame (d, m))
unfolding keyboard_interrupt_handler inb
keyboard_interrupt_handler-Kept frame o d m h =
    (refl, push-Queued (inb 0x60 m).0 o d.buffer (omega arith) h)

record KeptByMouse (device : List Event → ℕ → ℕ) (o : Option ℕ) (s : Mouse) : Type 0 where
  same : s.machine.device ≡ device
  queued : Queued o s.buffer

receive_byte-Kept :
    (value : ℕ) (device : List Event → ℕ → ℕ) (o : Option ℕ) (s : Mouse)
    → KeptByMouse device o s
    → KeptByMouse device o (receive_byte value s)
unfolding receive_byte
receive_byte-Kept value device o s h =
    let packet = update s.packet s.cycle value in
    if_elim (KeptByMouse device o) ((s.cycle == 0) && not (has_bit 3 (packet 0)))
      (λ unsynchronised. record { same = h.same; queued = h.queued })
      (λ e.
        if_elim (KeptByMouse device o) (ltb ((s.cycle + 1) % 256) (packet_size s.has_scroll_wheel))
          (λ more. record { same = h.same; queued = h.queued })
          (λ e.
            if_elim (KeptByMouse device o) s.has_scroll_wheel
              (λ wheel. record {
                same = h.same;
                queued = push_wheel-Queued (packet 3) o s.buffer h.queued;
              })
              (λ none. record { same = h.same; queued = h.queued })))

mouse_interrupt_handler-Kept :
    (o : Option ℕ) (s : Mouse)
    → Queued o s.buffer
    → KeptByMouse s.machine.device o (mouse_interrupt_handler s)
unfolding mouse_interrupt_handler inb
mouse_interrupt_handler-Kept o s h =
    let (status, m) = inb 0x64 s.machine in
    let (value, m) = inb 0x60 m in
    if_elim (KeptByMouse s.machine.device o) (not (has_bit 0 status) || not (has_bit 5 status))
      (λ none. record { same = refl; queued = h })
      (λ e.
        receive_byte-Kept value s.machine.device o (record s { machine = m })
          (record { same = refl; queued = h }))

-- A vector has no handler, or the one of the keyboard or of the mouse.
abbrev pub IsKnown : Option (InterruptHandler Devices) → Type 0
IsKnown o = (o ≡ none) ⊎ ((o ≡ some keyboard_interrupt_handler) ⊎ (o ≡ some mouse_handler))

call_handler-Kept :
    (handler : Option (InterruptHandler Devices)) (frame : InterruptFrame) (o : Option ℕ)
    (d : Devices) (m : Machine)
    → IsKnown handler
    → Queued o d.buffer
    → Kept m.device o (call_handler handler frame (d, m))
call_handler-Kept handler frame o d m (inl e) h =
    subst (λ f. Kept m.device o (call_handler f frame (d, m))) (sym e)
      (unfold call_handler in (refl, h))
call_handler-Kept handler frame o d m (inr (inl e)) h =
    subst (λ f. Kept m.device o (call_handler f frame (d, m))) (sym e)
      (unfold call_handler in keyboard_interrupt_handler-Kept frame o d m h)
call_handler-Kept handler frame o d m (inr (inr e)) h =
    subst (λ f. Kept m.device o (call_handler f frame (d, m))) (sym e)
      (let kept =
          mouse_interrupt_handler-Kept o
            (record {
              has_scroll_wheel = d.has_scroll_wheel;
              cycle = d.cycle;
              packet = d.packet;
              buffer = d.buffer;
              machine = m;
            })
            h in
        unfold call_handler in (kept.same, kept.queued))

acknowledge-device : (vector : ℕ) (m : Machine) → (acknowledge vector m).device ≡ m.device
unfolding acknowledge outb
acknowledge-device vector m =
    if_elim (λ (n : Machine). n.device ≡ m.device)
      (ltb vector pic_offset || leb (pic_offset + pic_irq_count) vector) (λ exception. refl)
      (λ irq.
        if_elim (λ (n : Machine). n.device ≡ m.device) (leb (pic_offset + 8) vector) (λ slave. refl)
          (λ master. refl))

-- Every interrupt keeps the hardware, and a queue in the key buffer.
pub interrupt_dispatch-Kept :
    (handlers : Handlers Devices) (frame : InterruptFrame) (o : Option ℕ) (d : Devices)
    (m : Machine)
    → IsKnown (handlers frame.vector)
    → Queued o d.buffer
    → Kept m.device o (interrupt_dispatch handlers frame (d, m))
unfolding interrupt_dispatch
interrupt_dispatch-Kept handlers frame o d m known h =
    let (same, queued) = call_handler-Kept (handlers frame.vector) frame o d m known h in
    (acknowledge-device frame.vector _ ∙ same, queued)
