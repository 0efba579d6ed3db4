-- ===== src/Printk/Bounds.antt =====
-- printk.c: the arrays that the digits are written into.
use kernel_from_scratch.Prelude.{
  ℕ, zero, suc, ◌+◌, ◌*◌, ◌/◌, ◌%◌, ◌^◌, ◌<◌, ◌≤◌, arith, ◌==◌, ltb, List, [], ◌∷◌, length, if_elim,
}
use kernel_from_scratch.Numerals.{pow, hex_digit}
use kernel_from_scratch.Printk.{digits_do, digits_while, hex_while}

abbrev pow16 : ℕ → ℕ
pow16 zero = 1
pow16 (suc j) = pow16 j * 16

digits_while-fits :
    (fuel j n : ℕ) (ds : List ℕ) → n < pow j → length (digits_while fuel n ds) ≤ j + length ds
unfolding digits_while
digits_while-fits zero j n ds h = omega arith
digits_while-fits (suc fuel) zero n ds h =
    if_elim (λ (xs : List ℕ). length xs ≤ 0 + length ds) (ltb 0 n) (λ e. absurd (ground arith))
      (λ e. omega arith)
digits_while-fits (suc fuel) (suc j) n ds h =
    if_elim (λ (xs : List ℕ). length xs ≤ suc j + length ds) (ltb 0 n)
      (λ e.
        omega (arith, digits_while-fits fuel j (n / 10) ((48 + n % 10) ∷ ds) (omega (arith, h))))
      (λ e. omega arith)

digits_do-fits :
    (fuel j n : ℕ) (ds : List ℕ)
    → n < pow (suc j)
    → length (digits_do fuel n ds) ≤ suc j + length ds
unfolding digits_do
digits_do-fits zero j n ds h = omega arith
digits_do-fits (suc fuel) zero n ds h =
    if_elim (λ (xs : List ℕ). length xs ≤ 1 + length ds) (ltb 0 (n / 10))
      (λ e. absurd (ground (arith, h))) (λ e. omega arith)
digits_do-fits (suc fuel) (suc j) n ds h =
    if_elim (λ (xs : List ℕ). length xs ≤ suc (suc j) + length ds) (ltb 0 (n / 10))
      (λ e. omega (arith, digits_do-fits fuel j (n / 10) ((48 + n % 10) ∷ ds) (omega (arith, h))))
      (λ e. omega arith)

hex_while-fits :
    (fuel j n : ℕ) (ds : List ℕ) → n < pow16 j → length (hex_while fuel n ds) ≤ j + length ds
unfolding hex_while
hex_while-fits zero j n ds h = omega arith
hex_while-fits (suc fuel) zero n ds h =
    if_elim (λ (xs : List ℕ). length xs ≤ 0 + length ds) (n == 0) (λ e. omega arith)
      (λ e. absurd (ground (arith, h)))
hex_while-fits (suc fuel) (suc j) n ds h =
    if_elim (λ (xs : List ℕ). length xs ≤ suc j + length ds) (n == 0) (λ e. omega arith)
      (λ e.
        omega (
          arith,
          hex_while-fits fuel j (n / 2 ^ 4) (hex_digit (n % 2 ^ 4) ∷ ds) (omega (arith, h)),
        ))

-- However many rounds they turn, the loops of `putunbr` and `putnbr` on a number below 2 ^ 32 write
-- at most ten digits into their array of 20, and the loop of `puthex` on a number below 2 ^ 64 at
-- most 16 into its array of 16.
pub digits-bound :
    (fuel n w : ℕ)
    → n < 2 ^ 32
    → w < 2 ^ 64
    → (length (digits_do fuel n []) ≤ 10)
      × (length (digits_while fuel n []) ≤ 10)
      × (length (hex_while fuel w []) ≤ 16)
digits-bound fuel n w h k = (
  digits_do-fits fuel 9 n [] (omega (arith, h)),
  digits_while-fits fuel 10 n [] (omega (arith, h)),
  hex_while-fits fuel 16 w [] (omega (arith, k)),
)
