-- ===== src/Memory/Moves.antt =====
-- mem.c: `memset` and `memmove` against what they leave at each address.
use kernel_from_scratch.Prelude.{
  ℕ, zero, suc, ◌+◌, ◌-◌, ◌%◌, ◌^◌, ◌≤◌, ◌<◌, ◌≡◌, arith, ◌&&◌, ltb, leb, if◌then◌else◌, for_loop,
  for_loop_inv, add32, Bool,
}
use kernel_from_scratch.Memory.{Bytes, store, memset, memmove, move_down}

-- The addresses of the `n` bytes from `dest` on.
abbrev pub in_range : ℕ → ℕ → ℕ → Bool
in_range dest n p = leb dest p && ltb p (dest + n)

-- `memset` writes the value to the `n` bytes from `dest` on, and to no other address, where those
-- bytes end within the 32-bit addresses.
pub memset_lem :
    (dest value n : ℕ) (m : Bytes) (p : ℕ)
    → dest + n ≤ 2 ^ 32
    → memset dest value n m p ≡ (if in_range dest n p then value % 256 else m p)
unfolding memset
memset_lem dest value n m p h =
    for_loop_inv (λ i t. t p ≡ (if in_range dest i p then value % 256 else m p)) _ n 0 n m
      (omega arith) (λ i t lo hi e. ground arith) (ground arith)

move_up :
    (d s n : ℕ) (m : Bytes) (p : ℕ)
    → d < s
    → s + n ≤ 2 ^ 32
    → for_loop n 0 (λ i t. store d i (t (add32 s i)) t) m p
      ≡ (if in_range d n p then m (p - d + s) else m p)
move_up d s n m p lt h =
    let written =
      for_loop_inv (λ i t. (q : ℕ) → t q ≡ (if in_range d i q then m (q - d + s) else m q))
        (λ i t. store d i (t (add32 s i)) t) n 0 n m (omega arith)
        (λ i t lo hi e q.
          let source : add32 s i ≡ s + i = omega arith in
          rw source (ground (arith, e q, e (s + i))))
        (λ q. ground arith) in
    written p

move_down_lem :
    (d s n : ℕ) (m : Bytes) (p : ℕ)
    → s < d
    → d + n ≤ 2 ^ 32
    → move_down d s n m p ≡ (if in_range d n p then m (p - d + s) else m p)
unfolding move_down
move_down_lem d s zero m p lt h = ground arith
move_down_lem d s (suc i) m p lt h =
    ground (arith, move_down_lem d s i (store d i (m (add32 s i)) m) p lt (omega arith))

-- `memmove` leaves in the `n` bytes from `dest` on what stood in those from `src` on before the
-- call, also where the two overlap, and changes no other address, where both end within the 32-bit
-- addresses.
pub memmove_lem :
    (dest src n : ℕ) (m : Bytes) (p : ℕ)
    → dest + n ≤ 2 ^ 32
    → src + n ≤ 2 ^ 32
    → memmove dest src n m p ≡ (if in_range dest n p then m (p - dest + src) else m p)
unfolding memmove
memmove_lem dest src n m p h k =
    ground (arith, move_up dest src n m p, move_down_lem dest src n m p)
