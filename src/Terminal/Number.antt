-- ===== src/Terminal/Number.antt =====
-- terminal.c: `terminal_putnbr_output`. An `int32_t` is its bit pattern, and sums that overflow wrap
-- around.
pub mod Decimal
use kernel_from_scratch.Prelude.{
  ℕ, zero, suc, ◌+◌, ◌-◌, ◌*◌, ◌/◌, ◌%◌, ◌^◌, Bool, ◌==◌, ltb, leb, ◌&&◌, if◌then◌else◌, sub32,
  is_negative32, List, [], ◌∷◌,
}
use kernel_from_scratch.Terminal.{Console}
use kernel_from_scratch.Terminal.Put.{putc}

-- `b % 10` and `b / 10` on `int32_t`, which round to 0.
abbrev pub remainder10 : ℕ → ℕ
remainder10 b = if is_negative32 b then sub32 0 ((2 ^ 32 - b) % 10) else b % 10

abbrev pub quotient10 : ℕ → ℕ
quotient10 b = if is_negative32 b then sub32 0 ((2 ^ 32 - b) / 10) else b / 10

-- The `while` loop, with fuel: the digits in reverse, and how many there are.
unfoldable pub reverse_digits : ℕ → ℕ → ℕ → ℕ → ℕ × ℕ
reverse_digits zero number reversed count = (reversed, count)
reverse_digits (suc fuel) number reversed count =
    let later =
      reverse_digits fuel (quotient10 number) ((reversed * 10 + remainder10 number) % 2 ^ 32)
        (count + 1) in
    if ltb 0 number && ltb number (2 ^ 31) then later else (reversed, count)

-- The `for` loop.
unfoldable pub put_digits : ℕ → ℕ → Console → Console
put_digits zero reversed c = c
put_digits (suc count) reversed c =
    put_digits count (quotient10 reversed) (putc ((48 + remainder10 reversed) % 256) c)

-- The two loops; ten rounds are enough for the digits of an `int32_t`.
unfoldable pub put_magnitude : ℕ → Console → Console
put_magnitude number c =
    let (reversed, count) = reverse_digits 10 number 0 0 in put_digits count reversed c

unfoldable pub terminal_putnbr_output : ℕ → Console → Console
terminal_putnbr_output number c =
    if number == 0
    then putc 48 c
    else if is_negative32 number
    then put_magnitude (sub32 0 number) (putc 45 c)
    else put_magnitude number c
