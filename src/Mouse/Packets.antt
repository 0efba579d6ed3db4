-- ===== src/Mouse/Packets.antt =====
-- mouse.c: the packets that the interrupt handler puts together from single bytes.
use mathlib.Core.Path.{ap₂}
use kernel_from_scratch.Prelude.{
  ℕ, ◌<◌, ◌≡◌, refl, ap, ◌∙◌, arith, Bool, true, false, not, ◌&&◌, ◌||◌, ltb, leb, if◌then◌else◌,
  List, [], ◌∷◌, update,
}
use kernel_from_scratch.Machine.{Machine, inb}
use kernel_from_scratch.KeyBuffer.{KeyBuffer, keyboard_push_scancode}
use kernel_from_scratch.Mouse.{Mouse, has_bit, push_wheel, receive_byte, mouse_interrupt_handler}

-- A packet of a mouse with a wheel.
pub record Packet : Type 0 where
  pub first : ℕ
  pub x : ℕ
  pub y : ℕ
  pub wheel : ℕ

abbrev pub bytes_of : List Packet → List ℕ
bytes_of [] = []
bytes_of (p ∷ ps) = p.first ∷ p.x ∷ p.y ∷ p.wheel ∷ bytes_of ps

-- Bit 3 of the first byte is always set, and the last one is a byte.
abbrev pub InSync : List Packet → Type 0
InSync [] = Unit
InSync (p ∷ ps) = (has_bit 3 p.first ≡ true) × (p.wheel < 256) × InSync ps

-- The scancodes for the turns of the wheel: 0x48 for a negative one, 0x50 for a positive one.
abbrev pub turns : List Packet → List ℕ
turns [] = []
turns (p ∷ ps) =
    if leb 128 p.wheel && ltb p.wheel 256
    then 0x48 ∷ turns ps
    else if ltb 0 p.wheel && ltb p.wheel 128
    then 0x50 ∷ turns ps
    else turns ps

abbrev pub push_all : List ℕ → KeyBuffer → KeyBuffer
push_all [] b = b
push_all (x ∷ xs) b = push_all xs (keyboard_push_scancode x b)

-- Whether the controller has a byte of the mouse, and that byte.
unfoldable pub is_ready : Mouse → Bool
is_ready s = let status = (inb 0x64 s.machine).0 in has_bit 0 status && has_bit 5 status

unfoldable pub next_byte : Mouse → ℕ
next_byte s = (inb 0x60 (inb 0x64 s.machine).1).0

-- A run of interrupts, some without a byte of the mouse, with the bytes that are there.
pub data Interrupted : Mouse → List ℕ → Mouse → Type 0 where
  done : {s : Mouse} → Interrupted s [] s
  byte :
      {s s' : Mouse} {bytes : List ℕ} (x : ℕ)
      → is_ready s ≡ true
      → next_byte s ≡ x
      → Interrupted (mouse_interrupt_handler s) bytes s'
      → Interrupted s (x ∷ bytes) s'
  spurious :
      {s s' : Mouse} {bytes : List ℕ}
      → is_ready s ≡ false
      → Interrupted (mouse_interrupt_handler s) bytes s'
      → Interrupted s bytes s'

abbrev receive_all : List ℕ → Mouse → Mouse
receive_all [] s = s
receive_all (x ∷ bytes) s = receive_all bytes (receive_byte x s)

abbrev on : Machine → Mouse → Mouse
on m s = record s { machine = m }

receive_byte-on :
    (x : ℕ) (m : Machine) (s : Mouse) → receive_byte x (on m s) ≡ on m (receive_byte x s)
unfolding receive_byte
receive_byte-on x m s = ground arith

receive_all-on :
    (bytes : List ℕ) (m : Machine) (s : Mouse)
    → receive_all bytes (on m s) ≡ on m (receive_all bytes s)
receive_all-on [] m s = refl
receive_all-on (x ∷ bytes) m s =
    ap (receive_all bytes) (receive_byte-on x m s) ∙ receive_all-on bytes m (receive_byte x s)

handler_ready :
    (s : Mouse)
    → is_ready s ≡ true
    → (m : Machine) × (mouse_interrupt_handler s ≡ on m (receive_byte (next_byte s) s))
unfolding mouse_interrupt_handler is_ready next_byte
handler_ready s r =
    let status = (inb 0x64 s.machine).0 in
    let test : (not (has_bit 0 status) || not (has_bit 5 status)) ≡ false = ground (arith, r) in
    let m = (inb 0x60 (inb 0x64 s.machine).1).1 in (m, rw test (receive_byte-on (next_byte s) m s))

handler_spurious :
    (s : Mouse) → is_ready s ≡ false → (m : Machine) × (mouse_interrupt_handler s ≡ on m s)
unfolding mouse_interrupt_handler is_ready
handler_spurious s r = ((inb 0x64 s.machine).1, ground arith)

-- Up to the machine, the interrupts receive the bytes one after the other.
Interrupted-receive_all :
    {s s' : Mouse} {bytes : List ℕ}
    → Interrupted s bytes s'
    → s' ≡ on s'.machine (receive_all bytes s)
Interrupted-receive_all done = refl
Interrupted-receive_all {s} {s'} (byte {bytes = later} x r v t) =
    let (m, e) = handler_ready s r in
    Interrupted-receive_all t
    ∙ ap (λ u. on s'.machine (receive_all later u)) (e ∙ ap (λ v. on m (receive_byte v s)) v)
    ∙ ap (on s'.machine) (receive_all-on later m (receive_byte x s))
Interrupted-receive_all {s} {s'} {bytes} (spurious r t) =
    let (m, e) = handler_spurious s r in
    Interrupted-receive_all t
    ∙ ap (λ u. on s'.machine (receive_all bytes u)) e
    ∙ ap (on s'.machine) (receive_all-on bytes m s)

abbrev synced : (ℕ → ℕ) → KeyBuffer → Machine → Mouse
synced packet b m = record {
  has_scroll_wheel = true;
  cycle = 0;
  packet = packet;
  buffer = b;
  machine = m;
}

receive_packet :
    (p : Packet) (packet : ℕ → ℕ) (b : KeyBuffer) (m : Machine)
    → has_bit 3 p.first ≡ true
    → (packet' : ℕ → ℕ) × (receive_all (p.first ∷ p.x ∷ p.y ∷ p.wheel ∷ []) (synced packet b m)
        ≡ synced packet' (push_wheel p.wheel b) m)
unfolding receive_byte
receive_packet p packet b m h =
    (update (update (update (update packet 0 p.first) 1 p.x) 2 p.y) 3 p.wheel, rw h refl)

push_wheel-turns :
    (p : Packet) (ps : List Packet) (b : KeyBuffer)
    → p.wheel < 256
    → push_all (turns ps) (push_wheel p.wheel b) ≡ push_all (turns (p ∷ ps)) b
unfolding push_wheel
push_wheel-turns p ps b h = ground arith

receive_packets :
    (ps : List Packet) (packet : ℕ → ℕ) (b : KeyBuffer) (m : Machine)
    → InSync ps
    → (packet' : ℕ → ℕ) × (receive_all (bytes_of ps) (synced packet b m)
        ≡ synced packet' (push_all (turns ps) b) m)
receive_packets [] packet b m h = (packet, refl)
receive_packets (p ∷ ps) packet b m h =
    let (packet1, e) = receive_packet p packet b m h.0 in
    let (packet2, f) = receive_packets ps packet1 (push_wheel p.wheel b) m h.2 in
    (
      packet2,
      ap (receive_all (bytes_of ps)) e
          ∙ f
          ∙ ap (λ k. synced packet2 k m) (push_wheel-turns p ps b h.1),
    )

-- Whatever interrupts without a byte of the mouse come between them, the bytes of whole packets of
-- a mouse with a wheel, from the start of a packet on, push the scancodes for the turns of the wheel
-- in order, and leave the handler at the start of a packet.
pub Interrupted-turns :
    (ps : List Packet) (s s' : Mouse)
    → s.has_scroll_wheel ≡ true
    → s.cycle ≡ 0
    → InSync ps
    → Interrupted s (bytes_of ps) s'
    → (s'.buffer ≡ push_all (turns ps) s.buffer) × (s'.cycle ≡ 0)
Interrupted-turns ps s s' wheel start h t =
    let (packet, e) = receive_packets ps s.packet s.buffer s.machine h in
    let here : s ≡ synced s.packet s.buffer s.machine =
      ap₂ (λ w k. record s { has_scroll_wheel = w; cycle = k }) wheel start in
    let all =
      Interrupted-receive_all t
      ∙ ap (λ u. on s'.machine (receive_all (bytes_of ps) u)) here
      ∙ ap (on s'.machine) e in
    (ap (λ (u : Mouse). u.buffer) all, ap (λ (u : Mouse). u.cycle) all)
