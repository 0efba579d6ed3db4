-- ===== src/Terminal/Number/Decimal.antt =====
-- terminal.c: the digits that `terminal_putnbr_output` prints.
use mathlib.Core.Path.{subst₂}
use mathlib.Core.List.{append_assoc, append-nil}
use kernel_from_scratch.Prelude.{
  ℕ, zero, suc, ◌+◌, ◌*◌, ◌/◌, ◌%◌, ◌^◌, ◌<◌, ◌≤◌, ◌≡◌, refl, sym, ap, ◌∙◌, arith, Bool, true,
  false, ◌==◌, ltb, leb, ◌&&◌, if◌then◌else◌, sub32, List, [], ◌∷◌, ◌++◌, Bool-cases, inl, inr, not,
}
use kernel_from_scratch.Numerals.{decimal, decimal-suc, number_text, pow, pow_bound}
use kernel_from_scratch.Terminal.{Console}
use kernel_from_scratch.Terminal.Put.{putc, put_chars}
use kernel_from_scratch.Terminal.Sequence.{put_chars-nil, put_chars-cons}
use kernel_from_scratch.Terminal.Number.{
  reverse_digits, put_digits, put_magnitude, terminal_putnbr_output,
}

-- The last `k` digits, the last of them in front.
abbrev low_digits : ℕ → ℕ → List ℕ
low_digits zero r = []
low_digits (suc k) r = (48 + r % 10) ∷ low_digits k (r / 10)

put_digits-low_digits :
    (k r : ℕ) (c : Console) → r < 10 ^ 9 → put_digits k r c ≡ put_chars (low_digits k r) c
unfolding put_digits put_chars
put_digits-low_digits zero r c h = refl
put_digits-low_digits (suc k) r c h =
    let positive : leb (2 ^ 31) r ≡ false = ground arith in
    let char : (48 + r % 10) % 256 ≡ 48 + r % 10 = omega arith in
    rw (positive, char) (put_digits-low_digits k (r / 10) (putc (48 + r % 10) c) (omega arith))

-- What the digits in reverse are printed as.
abbrev Reversed : ℕ × ℕ → List ℕ → Type 0
Reversed r text = (r.0 < 10 ^ 9) × (low_digits r.1 r.0 ≡ text)

reverse_digits-suc :
    (fuel n r count : ℕ)
    → 0 < n
    → n < 10 ^ 9
    → r < 10 ^ 8
    → reverse_digits (suc fuel) n r count
      ≡ reverse_digits fuel (n / 10) (r * 10 + n % 10) (suc count)
unfolding reverse_digits
reverse_digits-suc fuel n r count lo hi small =
    let test : (ltb 0 n && ltb n (2 ^ 31)) ≡ true = ground arith in
    let positive : leb (2 ^ 31) n ≡ false = ground arith in
    let sum : (r * 10 + n % 10) % 2 ^ 32 ≡ r * 10 + n % 10 = omega arith in
    let next : count + 1 ≡ suc count = omega arith in rw (test, positive, sum, next)

low_digits-suc :
    (count r d : ℕ) → d < 10 → low_digits (suc count) (r * 10 + d) ≡ (48 + d) ∷ low_digits count r
low_digits-suc count r d h =
    let last : (r * 10 + d) % 10 ≡ d = omega arith in
    let others : (r * 10 + d) / 10 ≡ r = omega arith in rw (last, others)

reverse_digits-Reversed :
    (fuel g n r count : ℕ)
    → n < pow fuel
    → r < pow g
    → fuel + g ≤ 9
    → Reversed (reverse_digits (suc fuel) n r count) (decimal (suc fuel) n ++ low_digits count r)
unfolding reverse_digits decimal
reverse_digits-Reversed zero g n r count h k b =
    let none : n ≡ 0 = omega arith in rw none (ground (arith, pow_bound g (omega arith)), refl)
reverse_digits-Reversed (suc fuel) g n r count h k b = elim (Bool-cases (n == 0)) [
  | inl e ↦
      let none : n ≡ 0 = ground arith in rw none (ground (arith, pow_bound g (omega arith)), refl)
  | inr e ↦
      let n_small = pow_bound (suc fuel) (omega arith) in
      let r_small = pow_bound (suc g) (omega arith) in
      let d = n % 10 in
      let later =
        reverse_digits-Reversed fuel (suc g) (n / 10) (r * 10 + d) (suc count) (omega arith)
          (omega arith) (omega arith) in
      let text : decimal (suc fuel) (n / 10) ++ low_digits (suc count) (r * 10 + d)
          ≡ decimal (suc (suc fuel)) n ++ low_digits count r =
        ap (λ l. decimal (suc fuel) (n / 10) ++ l) (low_digits-suc count r d (omega arith))
        ∙ sym (append_assoc (decimal (suc fuel) (n / 10)) ((48 + d) ∷ []) (low_digits count r))
        ∙ ap (λ l. l ++ low_digits count r) (sym (decimal-suc (suc fuel) n e)) in
      subst₂ Reversed
        (sym (
          reverse_digits-suc (suc fuel) n r count (ground arith) (ground (arith, n_small))
            (ground (arith, r_small))))
        text later
]

put_magnitude-decimal :
    (n : ℕ) (c : Console) → n < 10 ^ 9 → put_magnitude n c ≡ put_chars (decimal 10 n) c
unfolding put_magnitude
put_magnitude-decimal n c h =
    let r = reverse_digits 10 n 0 0 in
    let (small, text) = reverse_digits-Reversed 9 0 n 0 0 h (omega arith) (omega arith) in
    put_digits-low_digits r.1 r.0 c small
    ∙ ap (λ l. put_chars l c) (text ∙ append-nil (decimal 10 n))

-- A number of up to nine digits is printed as its decimal digits, a negative one behind a minus
-- sign.
pub terminal_putnbr_output-number_text :
    (negative : Bool) (n : ℕ) (c : Console)
    → n < 10 ^ 9
    → terminal_putnbr_output (if negative then sub32 0 n else n) c
      ≡ put_chars (if negative && not (n == 0) then 45 ∷ number_text n else number_text n) c
unfolding terminal_putnbr_output
terminal_putnbr_output-number_text false n c h = elim (Bool-cases (n == 0)) [
  | inl e ↦ rw e (sym (put_chars-cons 48 [] c ∙ put_chars-nil _))
  | inr e ↦
      let positive : leb (2 ^ 31) n ≡ false = ground arith in
      rw (e, positive) (put_magnitude-decimal n c h)
]
terminal_putnbr_output-number_text true n c h = elim (Bool-cases (n == 0)) [
  | inl e ↦
      let none : sub32 0 n ≡ n = ground arith in
      rw (none, e) (sym (put_chars-cons 48 [] c ∙ put_chars-nil _))
  | inr e ↦
      let some : (sub32 0 n == 0) ≡ false = ground arith in
      let minus : leb (2 ^ 31) (sub32 0 n) ≡ true = ground arith in
      let back : sub32 0 (sub32 0 n) ≡ n = ground arith in
      rw (some, minus, back, e)
        (put_magnitude-decimal n (putc 45 c) h ∙ sym (put_chars-cons 45 (decimal 10 n) c))
]
