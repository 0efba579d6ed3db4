-- ===== src/Interrupts/Controllers.antt =====
-- pic.c: what the two interrupt controllers, 8259A chips, make of the bytes that `remap_pic` writes to
-- them. The chip is described as its data sheet does: which word a byte is depends on the words that
-- came before it.
use kernel_from_scratch.Prelude.{
  ℕ, ◌+◌, ◌-◌, ◌*◌, ◌/◌, ◌%◌, ◌^◌, ◌||◌, ◌&&◌, not, ltb, ◌==◌, if◌then◌else◌, List, [], ◌∷◌, Bool,
  true, false, Option, none, some,
}
use kernel_from_scratch.Machine.{Machine, Event, wrote, read}

-- The word that the data port takes next: one of the initialization, or the mask.
pub data Word : Type 0 where
  icw2_next icw3_next icw4_next mask_next : Word

pub record Controller : Type 0 where
  pub next_word : Word
  pub is_single : Bool
  pub has_icw4 : Bool
  pub is_8086 : Bool
  pub offset : ℕ
  pub cascade : ℕ
  pub mask : ℕ

abbrev bit : ℕ → ℕ → Bool
bit i word = word / 2 ^ i % 2 == 1

-- A byte at the command port: the first word of an initialization, which clears the mask, or an
-- operation on the interrupts in service.
abbrev command : ℕ → Controller → Controller
command v c =
    if bit 4 v
    then record c {
      next_word = icw2_next;
      is_single = bit 1 v;
      has_icw4 = bit 0 v;
      is_8086 = false;
      mask = 0;
    }
    else c

abbrev behind_icw3 : Controller → Word
behind_icw3 c = if c.has_icw4 then icw4_next else mask_next

abbrev data_word : Word → ℕ → Controller → Controller
data_word icw2_next v c = record c {
  offset = v / 8 * 8;
  next_word = if c.is_single then behind_icw3 c else icw3_next;
}
data_word icw3_next v c = record c { cascade = v; next_word = behind_icw3 c }
data_word icw4_next v c = record c { is_8086 = bit 0 v; next_word = mask_next }
data_word mask_next v c = record c { mask = v }

abbrev listen : ℕ → Event → Controller → Controller
listen port (wrote p v) c =
    if p == port then command v c else if p == port + 1 then data_word c.next_word v c else c
listen port (read p v) c = c

-- A controller with its command port, behind the events. The latest one stands first.
abbrev pub programmed : ℕ → Controller → List Event → Controller
programmed port c [] = c
programmed port c (event ∷ events) = listen port event (programmed port c events)

abbrev is_initialized : Controller → Bool
is_initialized c = c.is_8086 && elim c.next_word [
  | mask_next ↦ true
  | icw2_next ↦ false
  | icw3_next ↦ false
  | icw4_next ↦ false
]

abbrev lets_through : ℕ → Controller → Bool
lets_through input c = is_initialized c && not (bit input c.mask)

-- The vector of an IRQ, if its controller lets it through. An IRQ of the slave has to pass the
-- master as well, at its input 2, which has to be one that a slave is connected to; such an input
-- has no vector of the master's.
abbrev pub vector_of : ℕ → Controller → Controller → Option ℕ
vector_of irq master slave =
    if ltb irq 8
    then (if lets_through irq master && not (bit irq master.cascade)
        then some (master.offset + irq)
        else none)
    else (if lets_through 2 master && bit 2 master.cascade && lets_through (irq - 8) slave
        then some (slave.offset + (irq - 8))
        else none)

abbrev same_vector : Option ℕ → Option ℕ → Bool
same_vector none none = true
same_vector (some v) (some w) = v == w
same_vector _ _ = false

-- The vectors that the two interrupts are to have.
abbrev pub wanted_vector : ℕ → Option ℕ
wanted_vector irq = if (irq == 1) || (irq == 12) then some (0x20 + irq) else none
