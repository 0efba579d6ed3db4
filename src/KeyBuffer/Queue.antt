-- ===== src/KeyBuffer/Queue.antt =====
-- keyboard.c: the ring buffer against a queue of at most 127 scancodes.
use kernel_from_scratch.Prelude.{
  ℕ, suc, ◌+◌, ◌%◌, ◌^◌, ◌<◌, ◌≡◌, arith, true, false, List, [], ◌∷◌, ◌++◌, length, length-append,
  get_or, get_or-append, ltb, ◌==◌, if◌then◌else◌, Bool-cases, inl, inr,
}
use kernel_from_scratch.KeyBuffer.{
  KeyBuffer, key_buffer_size, keyboard_push_scancode, keyboard_has_input, scancode_at_tail,
  advance_tail,
}

-- The waiting scancodes stand in the cells from the tail on, around the end of the array.
pub record Waits (b : KeyBuffer) (q : List ℕ) : Type 0 where
  pub tail : b.key_buffer_tail < key_buffer_size
  pub head : (b.key_buffer_tail + length q) % key_buffer_size ≡ b.key_buffer_head
  pub bound : length q < key_buffer_size
  pub cells :
      (i : ℕ)
      → i < length q
      → b.key_buffer ((b.key_buffer_tail + i) % key_buffer_size) ≡ get_or q i 0

-- A scancode that comes when 127 wait is dropped.
abbrev pub enqueue : ℕ → List ℕ → List ℕ
enqueue scancode q = if ltb (length q) 127 then q ++ scancode ∷ [] else q

push_room :
    (scancode : ℕ) (b : KeyBuffer) (q : List ℕ)
    → Waits b q
    → scancode < 256
    → length q < 127
    → Waits (keyboard_push_scancode scancode b) (q ++ scancode ∷ [])
unfolding keyboard_push_scancode
push_room scancode b q w byte room =
    let test : ((b.key_buffer_head + 1) % 2 ^ 32 % 128 == b.key_buffer_tail) ≡ false =
      ground (arith, w.head, w.tail) in
    let size : length (q ++ scancode ∷ []) ≡ length q + 1 =
      omega (arith, length-append q (scancode ∷ [])) in
    rw test (record {
      tail = w.tail;
      head = omega (arith, w.head);
      bound = omega arith;
      cells =
          λ i lt. ground (arith, w.head, w.tail, w.cells i, get_or-append q (scancode ∷ []) i 0);
    })

-- On a buffer in which the scancodes of a queue wait, `keyboard_push_scancode` puts a byte behind
-- them, and drops it if 127 wait.
pub keyboard_push_scancode-Waits :
    (scancode : ℕ) (b : KeyBuffer) (q : List ℕ)
    → Waits b q
    → scancode < 256
    → Waits (keyboard_push_scancode scancode b) (enqueue scancode q)
unfolding keyboard_push_scancode
keyboard_push_scancode-Waits scancode b q w byte = elim (Bool-cases (ltb (length q) 127)) [
  | inl room ↦ rw room (push_room scancode b q w byte (ground arith))
  | inr full ↦
      let test : ((b.key_buffer_head + 1) % 2 ^ 32 % 128 == b.key_buffer_tail) ≡ true =
        ground (arith, w.head, w.tail, w.bound) in
      rw (full, test) w
]

pub keyboard_has_input-nil : (b : KeyBuffer) → Waits b [] → keyboard_has_input b ≡ false
unfolding keyboard_has_input
keyboard_has_input-nil b w = ground (arith, w.head, w.tail)

pub keyboard_has_input-cons :
    (b : KeyBuffer) (x : ℕ) (q : List ℕ) → Waits b (x ∷ q) → keyboard_has_input b ≡ true
unfolding keyboard_has_input
keyboard_has_input-cons b x q w = ground (arith, w.head, w.tail, w.bound)

pub scancode_at_tail-cons :
    (b : KeyBuffer) (x : ℕ) (q : List ℕ) → Waits b (x ∷ q) → scancode_at_tail b ≡ x
unfolding scancode_at_tail
scancode_at_tail-cons b x q w =
    let here : (b.key_buffer_tail + 0) % 128 ≡ b.key_buffer_tail = omega (arith, w.tail) in
    rw (← here) (w.cells 0 (omega arith))

pub advance_tail-Waits :
    (b : KeyBuffer) (x : ℕ) (q : List ℕ) → Waits b (x ∷ q) → Waits (advance_tail b) q
unfolding advance_tail
advance_tail-Waits b x q w = record {
  tail = omega arith;
  head = omega (arith, w.head, w.tail);
  bound = omega (arith, w.bound);
  cells = λ i lt.
      let next : ((b.key_buffer_tail + 1) % 2 ^ 32 % 128 + i) % 128
          ≡ (b.key_buffer_tail + suc i) % 128 =
        omega (arith, w.tail) in
      rw next (w.cells (suc i) (omega arith));
}
