-- ===== src/Tests/MemoryTests.antt =====
-- Instances of the theorems about mem.c, string.c and char.c: the texts `ab` at address 100 and
-- `ac` at address 200.
use kernel_from_scratch.Prelude.{ℕ, ◌<◌, ◌≡◌, refl, arith, codes, ◌==◌, if◌then◌else◌}
use kernel_from_scratch.Memory.{Bytes, memmove, strcmp}
use kernel_from_scratch.Memory.Moves.{memmove_lem}
use kernel_from_scratch.Memory.Text.{CString, Decides, strcmp-Decides}

abbrev memory : Bytes
memory p =
    if (p == 100)
    then 97
    else if p == 101
    then 98
    else if p == 200
    then 97
    else if p == 201
    then 99
    else 0

memory-bytes : (p : ℕ) → memory p < 256
memory-bytes p = ground arith

ab-CString : CString memory 100 (codes "ab")
ab-CString = (
  refl,
  λ e. omega arith,
  omega arith,
  (refl, λ e. omega arith, omega arith, (omega arith, refl)),
)

ac-CString : CString memory 200 (codes "ac")
ac-CString = (
  refl,
  λ e. omega arith,
  omega arith,
  (refl, λ e. omega arith, omega arith, (omega arith, refl)),
)

memmove_lem_example : memmove 101 100 2 memory 102 ≡ 98
memmove_lem_example = memmove_lem 101 100 2 memory 102 (omega arith) (omega arith)

strcmp-Decides_example : Decides (strcmp 3 100 200 memory) (codes "ab") (codes "ac")
strcmp-Decides_example =
    strcmp-Decides 3 100 200 memory (codes "ab") (codes "ac") ab-CString ac-CString (omega arith)
