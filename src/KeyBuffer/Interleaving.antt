-- ===== src/KeyBuffer/Interleaving.antt =====
-- keyboard.c: interrupts come between any two statements of the main loop. An interrupt handler
-- itself runs to its end. Between reading a scancode and moving the tail, the main loop keeps the
-- scancode in a local variable.
use mathlib.Core.Path.{subst}
use mathlib.Core.List.{append-nil, append_assoc}
use kernel_from_scratch.Prelude.{
  ℕ, ◌+◌, ◌≤◌, ◌<◌, ◌≡◌, sym, ap, ◌∙◌, arith, true, List, [], ◌∷◌, ◌++◌, Option, none, some, length,
  length-append, ltb, Bool-cases, inl, inr,
}
use kernel_from_scratch.KeyBuffer.{
  KeyBuffer, keyboard_push_scancode, keyboard_has_input, scancode_at_tail, advance_tail,
}
use kernel_from_scratch.KeyBuffer.Queue.{
  Waits, enqueue, keyboard_push_scancode-Waits, keyboard_has_input-nil, scancode_at_tail-cons,
  advance_tail-Waits,
}

pub record Kernel : Type 0 where
  pub buffer : KeyBuffer
  pub scancode : Option ℕ

-- A run of the kernel, with the scancodes that the interrupts push and those that the main loop
-- goes on to handle.
pub data Runs : Kernel → List ℕ → List ℕ → Kernel → Type 0 where
  stop : {k : Kernel} → Runs k [] [] k
  interrupt :
      {k k' : Kernel} {pushed handled : List ℕ} (x : ℕ)
      → x < 256
      → Runs (record k { buffer = keyboard_push_scancode x k.buffer }) pushed handled k'
      → Runs k (x ∷ pushed) handled k'
  fetch :
      {k k' : Kernel} {pushed handled : List ℕ}
      → k.scancode ≡ none
      → keyboard_has_input k.buffer ≡ true
      → Runs (record k { scancode = some (scancode_at_tail k.buffer) }) pushed handled k'
      → Runs k pushed handled k'
  advance :
      {k k' : Kernel} {pushed handled : List ℕ} (x : ℕ)
      → k.scancode ≡ some x
      → Runs (record { buffer = advance_tail k.buffer; scancode = none }) pushed handled k'
      → Runs k pushed (x ∷ handled) k'

-- A run of the queue: scancodes come in at its end, and leave at its front.
pub data Serves : List ℕ → List ℕ → List ℕ → List ℕ → Type 0 where
  rest : {q : List ℕ} → Serves q [] [] q
  comes :
      {q q' pushed handled : List ℕ} (x : ℕ)
      → Serves (enqueue x q) pushed handled q'
      → Serves q (x ∷ pushed) handled q'
  leaves :
      {q q' pushed handled : List ℕ} (x : ℕ)
      → Serves q pushed handled q'
      → Serves (x ∷ q) pushed (x ∷ handled) q'

-- What the main loop has read is the front of the queue.
abbrev pub Fetched : Option ℕ → List ℕ → Type 0
Fetched none q = Unit
Fetched (some x) q = (xs : List ℕ) × (q ≡ x ∷ xs)

abbrev pub Serving : Kernel → List ℕ → Type 0
Serving k q = Waits k.buffer q × Fetched k.scancode q

pub Fetched-enqueue : (o : Option ℕ) (x : ℕ) (q : List ℕ) → Fetched o q → Fetched o (enqueue x q)
Fetched-enqueue none x q f = tt
Fetched-enqueue (some y) x q (xs, e) = elim (Bool-cases (ltb (length q) 127)) [
  | inl room ↦ rw room (xs ++ x ∷ [], ap (λ l. l ++ x ∷ []) e)
  | inr full ↦ rw full (xs, e)
]

pub fetch-Fetched :
    (b : KeyBuffer) (q : List ℕ)
    → Waits b q
    → keyboard_has_input b ≡ true
    → Fetched (some (scancode_at_tail b)) q
fetch-Fetched b [] w h = absurd (ground (arith, keyboard_has_input-nil b w, h))
fetch-Fetched b (x ∷ xs) w h = (xs, ap (λ y. y ∷ xs) (sym (scancode_at_tail-cons b x xs w)))

-- Whatever the interleaving of interrupts and main loop, the ring buffer serves as a queue of at
-- most 127 scancodes: what the main loop handles is what leaves the queue at its front, in order,
-- and a scancode is dropped only if 127 wait.
pub Runs-Serves :
    {k k' : Kernel} {pushed handled : List ℕ} (q : List ℕ)
    → Serving k q
    → Runs k pushed handled k'
    → (q' : List ℕ) × Serves q pushed handled q' × Serving k' q'
Runs-Serves q s stop = (q, rest, s)
Runs-Serves {k} q (w, f) (interrupt x byte r) =
    let (q', t, s') =
      Runs-Serves (enqueue x q)
        (keyboard_push_scancode-Waits x k.buffer q w byte, Fetched-enqueue k.scancode x q f) r in
    (q', comes x t, s')
Runs-Serves {k} q (w, f) (fetch idle input r) =
    Runs-Serves q (w, fetch-Fetched k.buffer q w input) r
Runs-Serves {k} {pushed = pushed} q (w, f) (advance {handled = later} x got r) =
    let (xs, e) = subst (λ o. Fetched o q) got f in
    let w' = advance_tail-Waits k.buffer x xs (subst (Waits k.buffer) e w) in
    let (q', t, s') = Runs-Serves xs (w', tt) r in
    (q', subst (λ l. Serves l pushed (x ∷ later) q') (sym e) (leaves x t), s')

Serves-order :
    {q q' pushed handled : List ℕ}
    → length q + length pushed ≤ 127
    → Serves q pushed handled q'
    → q ++ pushed ≡ handled ++ q'
Serves-order {q} h rest = append-nil q
Serves-order {q} {q'} h (comes {pushed = later} x t) =
    let room : ltb (length q) 127 ≡ true = ground arith in
    let added : enqueue x q ≡ q ++ x ∷ [] = rw room in
    let size : length (enqueue x q) ≡ length q + 1 =
      ap length added ∙ omega (arith, length-append q (x ∷ [])) in
    sym (append_assoc q (x ∷ []) later)
    ∙ ap (λ l. l ++ later) (sym added)
    ∙ Serves-order (omega arith) t
Serves-order h (leaves x t) = ap (x ∷◌) (Serves-order (omega arith) t)

-- While the waiting scancodes and those that come are 127 at most, none is lost, doubled or moved:
-- those that are handled, with those that then wait behind them, are those that waited, with those
-- that came behind them.
pub Runs-order :
    {k k' : Kernel} {pushed handled : List ℕ} (q : List ℕ)
    → Serving k q
    → Runs k pushed handled k'
    → length q + length pushed ≤ 127
    → (q' : List ℕ) × (q ++ pushed ≡ handled ++ q') × Serving k' q'
Runs-order q s r h = let (q', t, s') = Runs-Serves q s r in (q', Serves-order h t, s')
