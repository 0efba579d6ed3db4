-- ===== src/Printk/Counted.antt =====
-- printk.c: what the functions below `printk` print, and that they count it.
use mathlib.Core.Path.{ap₂}
use mathlib.Core.List.{append_assoc}
use kernel_from_scratch.Prelude.{
  ℕ, zero, suc, ◌+◌, ◌-◌, ◌/◌, ◌%◌, ◌^◌, ◌<◌, ◌≤◌, ◌≡◌, refl, sym, ap, ◌∙◌, arith, true, false,
  ◌==◌, ltb, List, [], ◌∷◌, ◌++◌, length, length-append, replicate, add32, Bool-cases, inl, inr,
}
use kernel_from_scratch.Numerals.{decimal, decimal-suc, decimal-zero}
use kernel_from_scratch.Terminal.{Console}
use kernel_from_scratch.Terminal.Put.{putc, put_chars}
use kernel_from_scratch.Terminal.Sequence.{put_chars-append}
use kernel_from_scratch.Terminal.Output.{terminal_putc_output}
use kernel_from_scratch.Printk.{
  putpadding, putpadding_loop, digits_do, digits_while, put_array, add_count,
}

-- What prints a text from `c` on, and counts it behind `n`.
abbrev pub says : ℕ → List ℕ → Console → ℕ × Console
says n t c = (n + length t, put_chars t c)

pub put_array-says : (ds : List ℕ) (n : ℕ) (c : Console) → put_array ds n c ≡ says n ds c
unfolding put_array put_chars terminal_putc_output
put_array-says [] n c = ap (λ k. (k, c)) (omega arith)
put_array-says (d ∷ ds) n c =
    let sum : n + 1 + length ds ≡ n + suc (length ds) = omega arith in
    put_array-says ds (n + 1) (putc d c) ∙ ap (λ k. (k, put_chars ds (putc d c))) sum

pub says-after :
    (n : ℕ) (s t : List ℕ) (c : Console)
    → add_count (n + length s) (says 0 t (put_chars s c)) ≡ says n (s ++ t) c
says-after n s t c =
    let sum : n + length s + (0 + length t) ≡ n + length (s ++ t) =
      omega (arith, length-append s t) in
    ap₂ (λ k d. (k, d)) sum (sym (put_chars-append s t c))

putpadding_loop-says :
    (fuel len width pad n : ℕ) (c : Console)
    → width ≤ len + n + fuel
    → len + n < 2 ^ 32
    → width < 2 ^ 32
    → putpadding_loop fuel len width pad n c ≡ says n (replicate (width - (len + n)) pad) c
unfolding putpadding_loop put_chars terminal_putc_output
putpadding_loop-says zero len width pad n c h k l =
    let none_left : width - (len + n) ≡ 0 = omega arith in
    rw none_left (ap (λ k. (k, c)) (omega arith))
putpadding_loop-says (suc fuel) len width pad n c h k l =
    let same : add32 len n ≡ len + n = omega arith in
    elim (Bool-cases (ltb (len + n) width)) [
      | inl more ↦
          let next : add32 n 1 ≡ n + 1 = ground arith in
          let left : width - (len + n) ≡ suc (width - (len + (n + 1))) = ground arith in
          let sum : n + 1 + length (replicate (width - (len + (n + 1))) pad)
              ≡ n + suc (length (replicate (width - (len + (n + 1))) pad)) =
            omega arith in
          rw (same, more, next, left)
            (putpadding_loop-says fuel len width pad (n + 1) (putc pad c) (omega arith)
                (ground arith) l
              ∙ ap (λ k. (k, put_chars (replicate (width - (len + (n + 1))) pad) (putc pad c))) sum)
      | inr over ↦
          let none_left : width - (len + n) ≡ 0 = ground arith in
          rw (same, over, none_left) (ap (λ k. (k, c)) (omega arith))
    ]

pub putpadding-says :
    (len width pad : ℕ) (c : Console)
    → len < 2 ^ 32
    → width < 2 ^ 32
    → putpadding len width pad c ≡ says 0 (replicate (width - len) pad) c
unfolding putpadding
putpadding-says len width pad c h k =
    let start : len + 0 ≡ len = omega arith in
    putpadding_loop-says width len width pad 0 c (omega arith) (omega arith) k
    ∙ ap (λ n. says 0 (replicate (width - n) pad) c) start

-- The digits, as the loops collect them.
pub digits_while-decimal :
    (fuel n : ℕ) (ds : List ℕ) → digits_while fuel n ds ≡ decimal fuel n ++ ds
unfolding digits_while decimal
digits_while-decimal zero n ds = refl
digits_while-decimal (suc fuel) n ds = elim (Bool-cases (n == 0)) [
  | inl e ↦ let test : ltb 0 n ≡ false = ground arith in rw (test, e)
  | inr e ↦
      let test : ltb 0 n ≡ true = ground arith in
      rw (test, e)
        (digits_while-decimal fuel (n / 10) ((48 + n % 10) ∷ ds)
          ∙ sym (append_assoc (decimal fuel (n / 10)) ((48 + n % 10) ∷ []) ds))
]

pub digits_do-decimal :
    (fuel n : ℕ) (ds : List ℕ) → 0 < n → digits_do fuel n ds ≡ decimal fuel n ++ ds
unfolding digits_do
digits_do-decimal zero n ds h = unfold decimal in refl
digits_do-decimal (suc fuel) n ds h =
    let some : (n == 0) ≡ false = ground arith in
    let d = 48 + n % 10 in
    let step = append_assoc (decimal fuel (n / 10)) (d ∷ []) ds in
    rw (decimal-suc fuel n some, step)
      (elim (Bool-cases (ltb 0 (n / 10))) [
        | inl more ↦ rw more (digits_do-decimal fuel (n / 10) (d ∷ ds) (ground arith))
        | inr last ↦
            let none_left : n / 10 ≡ 0 = ground arith in rw (last, none_left, decimal-zero fuel)
      ])
