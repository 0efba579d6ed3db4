-- ===== src/Interrupts/Gates.antt =====
-- idt.c and interrupt.c: where the gates of the table lead.
use kernel_from_scratch.Prelude.{
  ℕ, ◌+◌, ◌-◌, ◌*◌, ◌/◌, ◌%◌, ◌^◌, ◌<◌, ◌≡◌, refl, ◌∙◌, arith, ◌&&◌, ltb, leb, if◌then◌else◌,
  Option, none, some, Bool-cases, inl, inr, false, for_loop, for_loop_inv,
}
use kernel_from_scratch.Interrupts.{
  Descriptor, set_interrupt_descriptor, interrupt_init, gate_flags, kernel_code_offset,
}

-- The address that the processor calls through a gate.
abbrev pub offset_of : Descriptor → ℕ
offset_of d = d.base_low + d.base_high * 2 ^ 16

-- A present 32-bit interrupt gate of ring 0 to an address in the kernel's code segment.
pub record LeadsTo (d : Descriptor) (address : ℕ) : Type 0 where
  pub offset : offset_of d ≡ address
  pub selector : d.selector ≡ kernel_code_offset
  pub present : d.flags / 2 ^ 7 ≡ 1
  pub privilege : d.flags / 2 ^ 5 % 2 ^ 2 ≡ 0
  pub kind : d.flags % 2 ^ 4 ≡ 14

-- The descriptor that `set_interrupt_descriptor` writes.
abbrev gate : ℕ → Descriptor
gate handler = record {
  base_low = handler % 2 ^ 16;
  selector = kernel_code_offset;
  zero = 0;
  flags = gate_flags;
  base_high = handler / 2 ^ 16 % 2 ^ 16;
}

gate-LeadsTo : (handler : ℕ) → handler < 2 ^ 32 → LeadsTo (gate handler) handler
gate-LeadsTo handler h = record {
  offset = omega arith;
  selector = refl;
  present = refl;
  privilege = refl;
  kind = refl;
}

set_range :
    (table index : ℕ → ℕ) (start n : ℕ) (idt : ℕ → Descriptor) (v : ℕ)
    → ((i : ℕ) → index i ≡ start + i)
    → for_loop n 0 (λ i. set_interrupt_descriptor (index i) (table i)) idt v
      ≡ (if leb start v && ltb v (start + n) then gate (table (v - start)) else idt v)
unfolding set_interrupt_descriptor
set_range table index start n idt v at =
    for_loop_inv
      (λ k t. t v ≡ (if leb start v && ltb v (start + k) then gate (table (v - start)) else idt v))
      _ n 0 n idt (omega arith) (λ k t lo hi e. ground (arith, e, at k)) (ground arith)

-- The stub that a vector leads to behind `interrupt_init`, if it has one.
abbrev pub stub_of : (ℕ → ℕ) → (ℕ → ℕ) → ℕ → Option ℕ
stub_of exception_stub_table irq_stub_table vector =
    if ltb vector 20
    then some (exception_stub_table vector)
    else if leb 32 vector && ltb vector 48
    then some (irq_stub_table (vector - 32))
    else none

-- The gate leads to the stub; without one the descriptor is the old one.
abbrev pub LeadsToStub : Option ℕ → Descriptor → Descriptor → Type 0
LeadsToStub (some address) old d = LeadsTo d address
LeadsToStub none old d = d ≡ old

-- Behind `interrupt_init` each of the vectors 0 to 19 leads to its exception stub and each of the
-- vectors 32 to 47 to the stub of its IRQ, through a present 32-bit interrupt gate of ring 0, and
-- every other descriptor is as before; the stubs have 32-bit addresses.
pub interrupt_init-LeadsToStub :
    (exception_stub_table irq_stub_table : ℕ → ℕ) (idt : ℕ → Descriptor) (vector : ℕ)
    → ((i : ℕ) → exception_stub_table i < 2 ^ 32)
    → ((i : ℕ) → irq_stub_table i < 2 ^ 32)
    → LeadsToStub
        (stub_of exception_stub_table irq_stub_table vector)
        (idt vector)
        (interrupt_init exception_stub_table irq_stub_table idt vector)
unfolding interrupt_init
interrupt_init-LeadsToStub exceptions irqs idt v h k =
    let first = for_loop 20 0 (λ vector. set_interrupt_descriptor vector (exceptions vector)) idt in
    let irq = set_range irqs (λ i. 32 + i) 32 16 first v (λ i. refl) in
    let exception = set_range exceptions (λ i. i) 0 20 idt v (λ i. omega arith) in
    let vector : v - 0 ≡ v = omega arith in
    let exception' : first v ≡ (if ltb v 20 then gate (exceptions v) else idt v) =
      exception ∙ rw vector (ground arith) in
    rw (irq, exception')
      (elim (Bool-cases (ltb v 20)) [
        | inl low ↦
            let no_irq : (leb 32 v && ltb v 48) ≡ false = ground arith in
            rw (low, no_irq) (gate-LeadsTo (exceptions v) (h v))
        | inr high ↦ elim (Bool-cases (leb 32 v && ltb v 48)) [
          | inl is_irq ↦ rw (high, is_irq) (gate-LeadsTo (irqs (v - 32)) (k (v - 32)))
          | inr other ↦ rw (high, other) refl
        ]
      ])
