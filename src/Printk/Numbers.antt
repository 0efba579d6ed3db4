-- ===== src/Printk/Numbers.antt =====
-- printk.c: the numbers that are printed, with their padding.
use mathlib.Core.Path.{ap₂}
use mathlib.Core.List.{append_assoc, append-nil}
use kernel_from_scratch.Prelude.{
  ℕ, zero, suc, ◌+◌, ◌-◌, ◌/◌, ◌%◌, ◌^◌, ◌<◌, ◌≤◌, ◌≡◌, refl, sym, ap, ◌∙◌, arith, true, false,
  ◌==◌, leb, List, [], ◌∷◌, ◌++◌, length, length-append, replicate, codes, is_negative32,
  Bool-cases, inl, inr, Option, none, some,
}
use kernel_from_scratch.Numerals.{
  decimal, decimal-suc, hexadecimal, hexadecimal-suc, number_text, hex_text, hex_digit,
  decimal-zero, hexadecimal-zero, length-decimal, length-hexadecimal,
}
use kernel_from_scratch.Terminal.{Console}
use kernel_from_scratch.Terminal.Put.{putc, put_chars}
use kernel_from_scratch.Terminal.Sequence.{put_chars-append, put_chars-cons, put_chars-one}
use kernel_from_scratch.Terminal.Output.{terminal_putc_output, terminal_puts_output}
use kernel_from_scratch.Printk.{
  putchar, putstr, putpadding, nbrlen, nbrlen_loop, hexlen, hexlen_loop, hex_while, put_written,
  digits_while, digits_do, put_array, putunbr, putnbr, puthex, putptr, magnitude, add_count,
  convert_signed, convert_unsigned, convert_hex,
}
use kernel_from_scratch.Printk.Counted.{
  says, says-after, put_array-says, putpadding-says, digits_while-decimal, digits_do-decimal,
}
use kernel_from_scratch.Printk.Text.{padded, signed, signed_padded, text_of, AllBytes}

hex_while-hexadecimal : (fuel n : ℕ) (ds : List ℕ) → hex_while fuel n ds ≡ hexadecimal fuel n ++ ds
unfolding hex_while hexadecimal
hex_while-hexadecimal zero n ds = refl
hex_while-hexadecimal (suc fuel) n ds = elim (Bool-cases (n == 0)) [
  | inl e ↦ rw e
  | inr e ↦ rw e (
      hex_while-hexadecimal fuel (n / 2 ^ 4) (hex_digit (n % 2 ^ 4) ∷ ds)
      ∙ sym (append_assoc (hexadecimal fuel (n / 2 ^ 4)) (hex_digit (n % 2 ^ 4) ∷ []) ds))
]

nbrlen_loop_lem : (fuel n len : ℕ) → nbrlen_loop fuel n len ≡ len + length (decimal fuel (n / 10))
unfolding nbrlen_loop decimal
nbrlen_loop_lem zero n len = omega arith
nbrlen_loop_lem (suc fuel) n len = elim (Bool-cases (leb 10 n)) [
  | inl more ↦
      let test : (n / 10 == 0) ≡ false = ground arith in
      let size = length-append (decimal fuel (n / 10 / 10)) ((48 + n / 10 % 10) ∷ []) in
      rw (more, test) (omega (arith, nbrlen_loop_lem fuel (n / 10) (len + 1), size))
  | inr last ↦ let test : (n / 10 == 0) ≡ true = ground arith in rw (last, test) (omega arith)
]

nbrlen-number_text : (n : ℕ) → nbrlen n ≡ length (number_text n)
unfolding nbrlen
nbrlen-number_text n = elim (Bool-cases (n == 0)) [
  | inl e ↦
      let none_left : n / 10 ≡ 0 = ground arith in
      rw e (
        omega (
          arith,
          nbrlen_loop_lem 9 n 1,
          ap (λ k. length (decimal 9 k)) none_left,
          ap length (decimal-zero 9),
        ))
  | inr e ↦
      let size = length-append (decimal 9 (n / 10)) ((48 + n % 10) ∷ []) in
      rw (e, decimal-suc 9 n e) (omega (arith, nbrlen_loop_lem 9 n 1, size))
]

hexlen_loop_lem :
    (fuel n len : ℕ) → hexlen_loop fuel n len ≡ len + length (hexadecimal fuel (n / 2 ^ 4))
unfolding hexlen_loop hexadecimal
hexlen_loop_lem zero n len = omega arith
hexlen_loop_lem (suc fuel) n len = elim (Bool-cases (n / 2 ^ 4 == 0)) [
  | inl last ↦ rw last (omega arith)
  | inr more ↦
      let size =
        length-append (hexadecimal fuel (n / 2 ^ 4 / 2 ^ 4)) (hex_digit (n / 2 ^ 4 % 2 ^ 4) ∷ []) in
      rw more (omega (arith, hexlen_loop_lem fuel (n / 2 ^ 4) (len + 1), size))
]

hexlen-hex_text : (n : ℕ) → hexlen n ≡ length (hex_text n)
unfolding hexlen
hexlen-hex_text n = elim (Bool-cases (n == 0)) [
  | inl e ↦
      let none_left : n / 2 ^ 4 ≡ 0 = ground arith in
      rw e (
        omega (
          arith,
          hexlen_loop_lem 15 n 1,
          ap (λ k. length (hexadecimal 15 k)) none_left,
          ap length (hexadecimal-zero 15),
        ))
  | inr e ↦
      let size = length-append (hexadecimal 15 (n / 2 ^ 4)) (hex_digit (n % 2 ^ 4) ∷ []) in
      rw (e, hexadecimal-suc 15 n e) (omega (arith, hexlen_loop_lem 15 n 1, size))
]

putunbr-says : (n : ℕ) (c : Console) → putunbr n c ≡ says 0 (number_text n) c
unfolding putunbr
putunbr-says n c =
    put_array-says _ 0 c
    ∙ ap (λ ds. says 0 ds c)
        (elim (Bool-cases (n == 0)) [
          | inl e ↦ let none_left : n ≡ 0 = ground arith in rw none_left (unfold digits_do in refl)
          | inr e ↦ rw e (digits_do-decimal 10 n [] (ground arith) ∙ append-nil (decimal 10 n))
        ])

puthex-says : (n : ℕ) (c : Console) → puthex n c ≡ says 0 (hex_text n) c
unfolding puthex terminal_putc_output
puthex-says n c = elim (Bool-cases (n == 0)) [
  | inl e ↦ rw e (ap (λ d. (1, d)) (sym (put_chars-one 48 c)))
  | inr e ↦ rw e (
      put_array-says _ 0 c
      ∙ ap (λ ds. says 0 ds c) (hex_while-hexadecimal 16 n [] ∙ append-nil (hexadecimal 16 n)))
]

digits_while-number_text :
    (n k : ℕ) (c : Console)
    → (n == 0) ≡ false
    → put_array (digits_while 10 n []) k c ≡ says k (number_text n) c
digits_while-number_text n k c e = rw e (
    put_array-says _ k c
    ∙ ap (λ ds. says k ds c) (digits_while-decimal 10 n [] ∙ append-nil (decimal 10 n)))

magnitude_lem : (w : ℕ) → is_negative32 w ≡ true → w < 2 ^ 32 → magnitude w ≡ 2 ^ 32 - w
unfolding magnitude
magnitude_lem w e h = ground arith

putnbr-says : (w : ℕ) (c : Console) → w < 2 ^ 32 → putnbr w c ≡ says 0 (signed w) c
unfolding putnbr terminal_putc_output
putnbr-says w c h = elim (Bool-cases (w == 0)) [
  | inl e ↦
      let none_left : w ≡ 0 = ground arith in
      rw none_left (ap (λ d. (1, d)) (sym (put_chars-one 48 c)))
  | inr e ↦ elim (Bool-cases (is_negative32 w)) [
    | inl minus ↦
        let some : (2 ^ 32 - w == 0) ≡ false = ground arith in
        let digits = number_text (2 ^ 32 - w) in
        let sum : 1 + length digits ≡ 0 + suc (length digits) = omega arith in
        rw (e, minus, magnitude_lem w minus h)
          (digits_while-number_text (2 ^ 32 - w) 1 (putc 45 c) some
            ∙ ap₂ (λ k d. (k, d)) sum (sym (put_chars-cons 45 digits c)))
    | inr plus ↦ rw (e, plus) (digits_while-number_text w 0 c e ∙ rw e refl)
  ]
]

-- Padding, and what follows it.
padding-says :
    (len width pad : ℕ) (t : List ℕ) (f : Console → ℕ × Console) (c : Console)
    → len ≡ length t
    → length t < 2 ^ 32
    → width < 2 ^ 32
    → ((d : Console) → f d ≡ says 0 t d)
    → (let (k, d) = putpadding len width pad c in add_count k (f d)) ≡ says 0 (padded pad width t) c
padding-says len width pad t f c e small fits h =
    rw
      (
        e,
        putpadding-says (length t) width pad c small fits,
        h (put_chars (replicate (width - length t) pad) c),
      )
      (says-after 0 (replicate (width - length t) pad) t c)

length-number_text : (n : ℕ) → length (number_text n) ≤ 10
length-number_text n = ground (arith, length-decimal 10 n)

length-hex_text : (n : ℕ) → length (hex_text n) ≤ 16
length-hex_text n = ground (arith, length-hexadecimal 16 n)

pub convert_unsigned-says :
    (pad width w : ℕ) (c : Console)
    → width < 2 ^ 32
    → convert_unsigned pad width w c ≡ says 0 (padded pad width (number_text w)) c
unfolding convert_unsigned
convert_unsigned-says pad width w c h =
    padding-says (nbrlen w) width pad (number_text w) (putunbr w) c (nbrlen-number_text w)
      (omega (arith, length-number_text w)) h (putunbr-says w)

pub convert_hex-says :
    (pad width w : ℕ) (c : Console)
    → width < 2 ^ 32
    → convert_hex pad width w c ≡ says 0 (padded pad width (hex_text w)) c
unfolding convert_hex
convert_hex-says pad width w c h =
    padding-says (hexlen w) width pad (hex_text w) (puthex w) c (hexlen-hex_text w)
      (omega (arith, length-hex_text w)) h (puthex-says w)

-- The sign, and then the padding and the digits.
sign_first-says :
    (width w : ℕ) (c : Console)
    → width < 2 ^ 32
    → let digits = number_text w in
      (let (k, d) = putpadding (length digits + 1) width 48 (putc 45 c) in
        add_count (1 + k) (putunbr w d))
      ≡ says 0 (45 ∷ (replicate (width - (length digits + 1)) 48 ++ digits)) c
sign_first-says width w c h =
    let digits = number_text w in
    let zeros = replicate (width - (length digits + 1)) 48 in
    let d = put_chars zeros (putc 45 c) in
    let sum : 1 + (0 + length zeros) + (0 + length digits) ≡ 0 + suc (length (zeros ++ digits)) =
      omega (arith, length-append zeros digits) in
    rw
      (
        putpadding-says (length digits + 1) width 48 (putc 45 c)
            (omega (arith, length-number_text w)) h,
        putunbr-says w d,
      )
      (ap₂ (λ k e. (k, e)) sum
        (sym (put_chars-cons 45 (zeros ++ digits) c ∙ put_chars-append zeros digits (putc 45 c))))

pub convert_signed-says :
    (pad width w : ℕ) (c : Console)
    → width < 2 ^ 32
    → w < 2 ^ 32
    → convert_signed pad width w c ≡ says 0 (signed_padded pad width w) c
unfolding convert_signed putchar terminal_putc_output
convert_signed-says pad width w c h small = elim (Bool-cases (is_negative32 w)) [
  | inl minus ↦
      let size = nbrlen-number_text (2 ^ 32 - w) in
      elim (Bool-cases (pad == 48)) [
        | inl zero_pad ↦
            let zero : pad ≡ 48 = ground arith in
            rw (minus, zero_pad, magnitude_lem w minus small, size, zero)
              (sign_first-says width (2 ^ 32 - w) c h)
        | inr space_pad ↦
            let text : signed w ≡ 45 ∷ number_text (2 ^ 32 - w) = rw minus in
            rw (minus, space_pad, magnitude_lem w minus small)
              (padding-says (nbrlen (2 ^ 32 - w) + 1) width pad (45 ∷ number_text (2 ^ 32 - w))
                (putnbr w) c (omega (arith, size)) (omega (arith, length-number_text (2 ^ 32 - w)))
                h (λ d. putnbr-says w d small ∙ ap (λ t. says 0 t d) text))
      ]
  | inr plus ↦
      let text : signed w ≡ number_text w = rw plus in
      rw plus (
        padding-says (nbrlen w + 0) width pad (number_text w) (putnbr w) c
          (omega (arith, nbrlen-number_text w)) (omega (arith, length-number_text w)) h
          (λ d. putnbr-says w d small ∙ ap (λ t. says 0 t d) text))
]

pub putstr-says :
    (s : Option (List ℕ)) (c : Console)
    → length (text_of s) < 2 ^ 32
    → putstr s c ≡ says 0 (text_of s) c
unfolding putstr terminal_puts_output
putstr-says none c h = refl
putstr-says (some t) c h = ap (λ k. (k, put_chars t c)) (omega arith)

pub putchar-says : (ch : ℕ) (c : Console) → putchar ch c ≡ says 0 (ch % 256 ∷ []) c
unfolding putchar terminal_putc_output
putchar-says ch c = ap (λ d. (1, d)) (sym (put_chars-one (ch % 256) c))

pub putptr-says :
    (w : ℕ) (c : Console) → putptr w c ≡ says 0 (codes "0x" ++ padded 48 8 (hex_text w)) c
unfolding putptr
putptr-says w c =
    let digits : List ℕ = hex_text w in
    let zeros : List ℕ = replicate (8 - length digits) 48 in
    let d = put_chars (codes "0x") c in
    let sum : 0 + 2 + (0 + length zeros) + (0 + length digits)
        ≡ 0 + suc (suc (length (zeros ++ digits))) =
      omega (arith, length-append zeros digits) in
    rw
      (
        putstr-says (some (codes "0x")) c (omega arith),
        hexlen-hex_text w,
        putpadding-says (length digits) 8 48 d (omega (arith, length-hex_text w)) (omega arith),
        puthex-says w (put_chars zeros d),
      )
      (ap₂ (λ k e. (k, e)) sum
        (sym (put_chars-append (codes "0x") (zeros ++ digits) c ∙ put_chars-append zeros digits d)))

-- What is printed back of an unknown conversion.
pub put_written-says : (s : List ℕ) (c : Console) → AllBytes s → put_written s c ≡ says 0 s c
unfolding put_written putchar terminal_putc_output put_chars
put_written-says [] c h = refl
put_written-says (ch ∷ s) c h =
    let byte : ch % 256 ≡ ch = omega (arith, h.0) in
    let sum : 1 + (0 + length s) ≡ 0 + suc (length s) = omega arith in
    rw (byte, put_written-says s (putc ch c) h.1) (ap (λ k. (k, put_chars s (putc ch c))) sum)
