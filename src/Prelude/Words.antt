-- ===== src/Prelude/Words.antt =====
-- Machine integers by their bit patterns: an `int8_t` is a number below 2 ^ 8, a `uint32_t` one
-- below 2 ^ 32.
use Prim.Native.Nat.{ℕ, ◌+◌, ◌-◌, ◌%◌, ◌^◌}
use mathlib.Core.Bool.{Bool}
use kernel_from_scratch.Prelude.Tests.{ltb, leb, if◌then◌else◌}

-- The `int8_t` -1, and the largest one.
abbrev pub minus_one8 : ℕ
minus_one8 = 255

abbrev pub int8_max : ℕ
int8_max = 127

-- `b < 0` and `a < b` on `int8_t`.
abbrev pub is_negative8 : ℕ → Bool
is_negative8 b = leb 128 b

abbrev pub lt8 : ℕ → ℕ → Bool
lt8 a b = ltb ((a + 128) % 256) ((b + 128) % 256)

-- An `int8_t` promoted to 32 bits: the sign is kept.
abbrev pub extend8 : ℕ → ℕ
extend8 b = if leb 128 b then 2 ^ 32 - 256 + b else b

abbrev pub add32 : ℕ → ℕ → ℕ
add32 a b = (a + b) % 2 ^ 32

abbrev pub sub32 : ℕ → ℕ → ℕ
sub32 a b = (a + 2 ^ 32 - b) % 2 ^ 32

-- `b < 0` on `int32_t`.
abbrev pub is_negative32 : ℕ → Bool
is_negative32 b = leb (2 ^ 31) b
