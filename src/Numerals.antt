-- ===== src/Numerals.antt =====
-- Numerals: the digits of a number in base 10 and 16, as printf and the terminal print them.
use kernel_from_scratch.Prelude.{
  ℕ, zero, suc, ◌+◌, ◌-◌, ◌*◌, ◌/◌, ◌%◌, ◌^◌, ◌<◌, ◌≤◌, ◌≡◌, refl, ◌∙◌, arith, true, false, ◌==◌,
  leb, if◌then◌else◌, List, [], ◌∷◌, ◌++◌, length, length-append, get_or, codes, all_below-at,
  Bool-cases, inl, inr,
}

-- The decimal digits of a number, the first of them in front, none for 0.
unfoldable pub decimal : ℕ → ℕ → List ℕ
decimal zero n = []
decimal (suc fuel) n = if n == 0 then [] else decimal fuel (n / 10) ++ (48 + n % 10) ∷ []

pub decimal-suc :
    (fuel n : ℕ)
    → (n == 0) ≡ false
    → decimal (suc fuel) n ≡ decimal fuel (n / 10) ++ (48 + n % 10) ∷ []
unfolding decimal
decimal-suc fuel n e = rw e

pub decimal-zero : (fuel : ℕ) → decimal fuel 0 ≡ []
unfolding decimal
decimal-zero zero = refl
decimal-zero (suc fuel) = refl

-- The text of a number that is not negative.
abbrev pub number_text : ℕ → List ℕ
number_text n = if n == 0 then 48 ∷ [] else decimal 10 n

abbrev pub hex_digit : ℕ → ℕ
hex_digit d = get_or (codes "0123456789abcdef") d 0

unfoldable pub hexadecimal : ℕ → ℕ → List ℕ
hexadecimal zero n = []
hexadecimal (suc fuel) n =
    if n == 0 then [] else hexadecimal fuel (n / 2 ^ 4) ++ hex_digit (n % 2 ^ 4) ∷ []

pub hexadecimal-suc :
    (fuel n : ℕ)
    → (n == 0) ≡ false
    → hexadecimal (suc fuel) n ≡ hexadecimal fuel (n / 2 ^ 4) ++ hex_digit (n % 2 ^ 4) ∷ []
unfolding hexadecimal
hexadecimal-suc fuel n e = rw e

pub hexadecimal-zero : (fuel : ℕ) → hexadecimal fuel 0 ≡ []
unfolding hexadecimal
hexadecimal-zero zero = refl
hexadecimal-zero (suc fuel) = refl

abbrev pub hex_text : ℕ → List ℕ
hex_text n = if n == 0 then 48 ∷ [] else hexadecimal 16 n

abbrev pub pow : ℕ → ℕ
pow zero = 1
pow (suc g) = pow g * 10

pub pow_bound : (g : ℕ) → g < 10 → leb (pow g) (10 ^ 9) ≡ true
pow_bound g h = all_below-at 10 g (λ g. leb (pow g) (10 ^ 9)) refl h

-- The number that decimal digits stand for, behind those of `n`.
abbrev pub value : List ℕ → ℕ → ℕ
value [] n = n
value (d ∷ ds) n = value ds (n * 10 + (d - 48))

value-append : (ds es : List ℕ) (n : ℕ) → value (ds ++ es) n ≡ value es (value ds n)
value-append [] es n = refl
value-append (d ∷ ds) es n = value-append ds es (n * 10 + (d - 48))

pub value-decimal : (fuel n : ℕ) → n < pow fuel → value (decimal fuel n) 0 ≡ n
unfolding decimal
value-decimal zero n h = omega arith
value-decimal (suc fuel) n h = elim (Bool-cases (n == 0)) [
  | inl e ↦ rw e (ground arith)
  | inr e ↦
      let last : value (decimal fuel (n / 10)) 0 * 10 + (48 + n % 10 - 48) ≡ n =
        omega (arith, value-decimal fuel (n / 10) (omega arith)) in
      rw e (value-append (decimal fuel (n / 10)) ((48 + n % 10) ∷ []) 0 ∙ last)
]

pub length-decimal : (fuel n : ℕ) → length (decimal fuel n) ≤ fuel
unfolding decimal
length-decimal zero n = omega arith
length-decimal (suc fuel) n = ground (
  arith,
  length-decimal fuel (n / 10),
  length-append (decimal fuel (n / 10)) ((48 + n % 10) ∷ []),
)

pub length-hexadecimal : (fuel n : ℕ) → length (hexadecimal fuel n) ≤ fuel
unfolding hexadecimal
length-hexadecimal zero n = omega arith
length-hexadecimal (suc fuel) n = ground (
  arith,
  length-hexadecimal fuel (n / 2 ^ 4),
  length-append (hexadecimal fuel (n / 2 ^ 4)) (hex_digit (n % 2 ^ 4) ∷ []),
)
