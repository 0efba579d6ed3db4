-- ===== src/Memory/Copy.antt =====
-- string.c: the bytes that `strncpy` writes.
use kernel_from_scratch.Prelude.{
  ℕ, zero, suc, ◌+◌, ◌-◌, ◌^◌, ◌≤◌, ◌<◌, ◌≡◌, ◌⊎◌, ap, ◌∙◌, arith, ◌==◌, if◌then◌else◌, false,
  add32, List, [], ◌∷◌, length, get_or, get_or-cons, for_loop_inv, update,
}
use kernel_from_scratch.Memory.{Bytes, strncpy, copy_from, pad}
use kernel_from_scratch.Memory.Moves.{in_range}
use kernel_from_scratch.Memory.Text.{CString, CString-fits}

pad_lem :
    (d i n : ℕ) (m : Bytes) (p : ℕ)
    → d + i + n ≤ 2 ^ 32
    → pad d i n m p ≡ (if in_range (d + i) n p then 0 else m p)
unfolding pad
pad_lem d i n m p h =
    for_loop_inv (λ k t. t p ≡ (if in_range (d + i) (k - i) p then 0 else m p)) _ n i (i + n) m
      (omega arith) (λ k t lo hi e. ground arith) (ground arith)
    ∙ ground arith

-- A text stays where another address is written.
CString-store :
    (a v : ℕ) (m : Bytes) (s : ℕ) (xs : List ℕ)
    → (a < s) ⊎ (s + length xs < a)
    → a < 2 ^ 32
    → CString m s xs
    → CString (λ p. if p == a then v else m p) s xs
CString-store a v m s [] o small c = (c.0, ground (arith, c.1))
CString-store a v m s (x ∷ xs) o small c =
    (ground (arith, c.0), c.1, c.2, CString-store a v m (s + 1) xs (ground arith) small c.3)

copy_from_lem :
    (n i d s : ℕ) (m : Bytes) (xs : List ℕ) (p : ℕ)
    → CString m (s + i) xs
    → (d + i + n ≤ s + i) ⊎ (s + i + length xs < d + i)
    → d + i + n ≤ 2 ^ 32
    → copy_from d s i n m p ≡ (if in_range (d + i) n p then get_or xs (p - (d + i)) 0 else m p)
unfolding copy_from
copy_from_lem zero i d s m xs p c o h = ground (arith, pad_lem d i 0 m p (omega arith))
copy_from_lem (suc n) i d s m [] p c o h =
    let here : add32 s i ≡ s + i = omega (arith, c.0) in rw (here, c.1) (pad_lem d i (suc n) m p h)
copy_from_lem (suc n) i d s m (x ∷ xs) p c o h =
    let fits = CString-fits m (s + i) (x ∷ xs) c in
    let here : add32 s i ≡ s + i = omega arith in
    let there : add32 d i ≡ d + i = omega arith in
    let test : (x == 0) ≡ false = ground (arith, c.1) in
    let place : s + i + 1 ≡ s + (i + 1) = omega arith in
    let c' = CString-store (d + i) x m (s + i + 1) xs (ground arith) (omega arith) c.3 in
    let later =
      copy_from_lem n (i + 1) d s (update m (d + i) x) xs p (rw (← place) c') (ground arith)
        (omega arith) in
    let index : p - (d + (i + 1)) ≡ p - (d + i) - 1 = omega arith in
    rw (here, there, c.0, test)
      (ground (arith, later, get_or-cons x xs (p - (d + i)) 0, ap (λ k. get_or xs k 0) index))

-- `strncpy` leaves the characters of the text at the destination, the first `length` of them if it
-- has more, pads them with NULs to `length` bytes, and changes no other address; the bytes of text
-- and destination must not overlap, and the destination must end within the 32-bit addresses.
pub strncpy_lem :
    (destination source length' : ℕ) (m : Bytes) (xs : List ℕ) (p : ℕ)
    → CString m source xs
    → (destination + length' ≤ source) ⊎ (source + length xs < destination)
    → destination + length' ≤ 2 ^ 32
    → strncpy destination source length' m p
      ≡ (if in_range destination length' p then get_or xs (p - destination) 0 else m p)
unfolding strncpy
strncpy_lem destination source length' m xs p c o h =
    let d0 : destination + 0 ≡ destination = omega arith in
    let s0 : source + 0 ≡ source = omega arith in
    let first =
      copy_from_lem length' 0 destination source m xs p (rw s0 c) (ground arith) (omega arith) in
    first ∙ rw d0
