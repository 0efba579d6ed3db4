-- ===== src/Memory.antt =====
-- helper/mem.c and helper/string.c: bytes at 32-bit addresses. The loops of string.c that run to a
-- NUL have fuel, and give `none` where it runs out.
pub mod Moves
pub mod Compare
pub mod Text
pub mod Copy
use kernel_from_scratch.Prelude.{
  ℕ, zero, suc, ◌+◌, ◌-◌, ◌*◌, ◌%◌, ◌^◌, Bool, not, ◌&&◌, Option, none, some, ltb, ◌==◌,
  if◌then◌else◌, for_loop, update, add32, sub32,
}

abbrev pub Bytes : Type 0
Bytes = ℕ → ℕ

-- A number in memory, the low byte first.
abbrev pub load32 : Bytes → ℕ → ℕ
load32 m p =
    m p % 256
    + m (add32 p 1) % 256 * 2 ^ 8
    + m (add32 p 2) % 256 * 2 ^ 16
    + m (add32 p 3) % 256 * 2 ^ 24

abbrev pub load64 : Bytes → ℕ → ℕ
load64 m p = load32 m p + load32 m (add32 p 4) * 2 ^ 32

-- `ptr[i] = v` on an array of bytes.
abbrev pub store : ℕ → ℕ → ℕ → Bytes → Bytes
store ptr i v m = update m (add32 ptr i) v

unfoldable pub memset : ℕ → ℕ → ℕ → Bytes → Bytes
memset dest value n m = for_loop n 0 (λ i. store dest i (value % 256)) m

-- The loop of `memmove` that counts down.
unfoldable pub move_down : ℕ → ℕ → ℕ → Bytes → Bytes
move_down d s zero m = m
move_down d s (suc i) m = move_down d s i (store d i (m (add32 s i)) m)

unfoldable pub memmove : ℕ → ℕ → ℕ → Bytes → Bytes
memmove dest src n m =
    if ltb dest src
    then for_loop n 0 (λ i m. store dest i (m (add32 src i)) m) m
    else if ltb src dest
    then move_down dest src n m
    else m

unfoldable pub memcpy : ℕ → ℕ → ℕ → Bytes → Bytes
memcpy = memmove

-- The loop of `memcmp` from `i` on, with `n` bytes left. The result is an `int` by its bit pattern.
unfoldable pub compare_from : ℕ → ℕ → ℕ → ℕ → Bytes → ℕ
compare_from zero i s1 s2 m = 0
compare_from (suc n) i s1 s2 m =
    let p1 = m (add32 s1 i) in
    let p2 = m (add32 s2 i) in
    let later = compare_from n (i + 1) s1 s2 m in if p1 == p2 then later else sub32 p1 p2

unfoldable pub memcmp : ℕ → ℕ → ℕ → Bytes → ℕ
memcmp s1 s2 n m = compare_from n 0 s1 s2 m

-- The loop of `strlen`, at a length that was counted so far.
unfoldable pub strlen_from : ℕ → ℕ → ℕ → Bytes → Option ℕ
strlen_from zero length str m = none
strlen_from (suc fuel) length str m =
    let later = strlen_from fuel (add32 length 1) str m in
    if m (add32 str length) == 0 then some length else later

unfoldable pub strlen : ℕ → ℕ → Bytes → Option ℕ
strlen fuel str m = strlen_from fuel 0 str m

unfoldable pub strcmp : ℕ → ℕ → ℕ → Bytes → Option ℕ
strcmp zero str1 str2 m = none
strcmp (suc fuel) str1 str2 m =
    let later = strcmp fuel (add32 str1 1) (add32 str2 1) m in
    if not (m str1 == 0) && (m str1 == m str2) then later else some (sub32 (m str1) (m str2))

-- The second loop of `strncpy`, from `i` on with `n` bytes left.
unfoldable pub pad : ℕ → ℕ → ℕ → Bytes → Bytes
pad destination i n m = for_loop n i (λ i. store destination i 0) m

-- The first loop, which goes on to the second one.
unfoldable pub copy_from : ℕ → ℕ → ℕ → ℕ → Bytes → Bytes
copy_from destination source i zero m = pad destination i 0 m
copy_from destination source i (suc n) m =
    let c = m (add32 source i) in
    let later = copy_from destination source (i + 1) n (store destination i c m) in
    if c == 0 then pad destination i (suc n) m else later

unfoldable pub strncpy : ℕ → ℕ → ℕ → Bytes → Bytes
strncpy destination source length m = copy_from destination source 0 length m
