-- ===== src/Memory/Text.antt =====
-- string.c: `strlen` and `strcmp` on texts that end with a NUL.
use kernel_from_scratch.Prelude.{
  ℕ, zero, suc, ◌+◌, ◌^◌, ◌<◌, ◌≡◌, ◌≢◌, ◌↔◌, refl, ap, ◌∙◌, arith, ◌==◌, false, Bool-cases, inl,
  inr, add32, sub32, List, [], ◌∷◌, length, drop, get_or, Option, some,
}
use kernel_from_scratch.Memory.{Bytes, strlen, strlen_from, strcmp}

-- The characters of `xs`, none of them NUL, stand from address `p` on, a NUL behind them, all below
-- 2 ^ 32.
abbrev pub CString : Bytes → ℕ → List ℕ → Type 0
CString m p [] = (p < 2 ^ 32) × (m p ≡ 0)
CString m p (x ∷ xs) = (m p ≡ x) × (x ≢ 0) × (x < 256) × CString m (p + 1) xs

pub CString-fits : (m : Bytes) (p : ℕ) (xs : List ℕ) → CString m p xs → p + length xs < 2 ^ 32
CString-fits m p [] c = omega (arith, c.0)
CString-fits m p (x ∷ xs) c = omega (arith, CString-fits m (p + 1) xs c.3)

strlen_from_lem :
    (fuel n str : ℕ) (m : Bytes) (xs : List ℕ)
    → CString m (str + n) xs
    → length xs < fuel
    → strlen_from fuel n str m ≡ some (n + length xs)
unfolding strlen_from
strlen_from_lem zero n str m xs c h = absurd (omega arith)
strlen_from_lem (suc fuel) n str m [] c h =
    let here : add32 str n ≡ str + n = omega (arith, c.0) in
    let same : n + 0 ≡ n = omega arith in rw (here, c.1, same) refl
strlen_from_lem (suc fuel) n str m (x ∷ xs) c h =
    let fits = CString-fits m (str + n) (x ∷ xs) c in
    let here : add32 str n ≡ str + n = omega arith in
    let test : (x == 0) ≡ false = ground (arith, c.1) in
    let next : add32 n 1 ≡ n + 1 = omega arith in
    let place : str + n + 1 ≡ str + (n + 1) = omega arith in
    let sum : n + 1 + length xs ≡ n + suc (length xs) = omega arith in
    rw (here, c.0, test, next)
      (strlen_from_lem fuel (n + 1) str m xs (rw (← place) c.3) (omega arith) ∙ ap some sum)

-- `strlen` returns the number of characters before the NUL, with one round of its loop more than
-- that.
pub strlen_lem :
    (fuel str : ℕ) (m : Bytes) (xs : List ℕ)
    → CString m str xs
    → length xs < fuel
    → strlen fuel str m ≡ some (length xs)
unfolding strlen
strlen_lem fuel str m xs c h =
    let start : str + 0 ≡ str = omega arith in
    let sum : 0 + length xs ≡ length xs = omega arith in
    strlen_from_lem fuel 0 str m xs (rw start c) h ∙ ap some sum

-- What a result of `strcmp` says of the two texts.
abbrev pub Decides : Option ℕ → List ℕ → List ℕ → Type 0
Decides o xs ys = (r : ℕ) × (o ≡ some r) × ((r ≡ 0) ↔ (xs ≡ ys))

Decides-cons :
    (o : Option ℕ) (x : ℕ) (xs ys : List ℕ) → Decides o xs ys → Decides o (x ∷ xs) (x ∷ ys)
Decides-cons o x xs ys (r, e, (f, g)) = (r, e, (λ z. ap (x ∷◌) (f z), λ z. g (ap (drop 1) z)))

-- `strcmp` ends on any two texts, within one round of its loop more than the first one has
-- characters, and its result is 0 exactly if they are the same text.
pub strcmp-Decides :
    (fuel str1 str2 : ℕ) (m : Bytes) (xs ys : List ℕ)
    → CString m str1 xs
    → CString m str2 ys
    → length xs < fuel
    → Decides (strcmp fuel str1 str2 m) xs ys
unfolding strcmp
strcmp-Decides zero str1 str2 m xs ys c d h = absurd (omega arith)
strcmp-Decides (suc fuel) str1 str2 m [] [] c d h = rw (c.1, d.1) (0, refl, (λ z. refl, λ z. refl))
strcmp-Decides (suc fuel) str1 str2 m [] (y ∷ ys) c d h =
    rw (c.1, d.0)
      (
        sub32 0 y,
        refl,
        (λ z. absurd (omega (arith, d.1, d.2)), λ z. absurd (omega (arith, ap length z))),
      )
strcmp-Decides (suc fuel) str1 str2 m (x ∷ xs) [] c d h =
    let test : (x == 0) ≡ false = ground (arith, c.1) in
    rw (c.0, d.1, test)
      (
        sub32 x 0,
        refl,
        (λ z. absurd (omega (arith, c.1, c.2)), λ z. absurd (omega (arith, ap length z))),
      )
strcmp-Decides (suc fuel) str1 str2 m (x ∷ xs) (y ∷ ys) c d h =
    let test : (x == 0) ≡ false = ground (arith, c.1) in
    let fits1 = CString-fits m str1 (x ∷ xs) c in
    let fits2 = CString-fits m str2 (y ∷ ys) d in
    let next1 : add32 str1 1 ≡ str1 + 1 = omega arith in
    let next2 : add32 str2 1 ≡ str2 + 1 = omega arith in
    elim (Bool-cases (x == y)) [
      | inl e ↦
          let same : x ≡ y = ground arith in
          rw (c.0, d.0, test, e, next1, next2, ← same)
            (Decides-cons _ x xs ys
              (strcmp-Decides fuel (str1 + 1) (str2 + 1) m xs ys c.3 d.3 (omega arith)))
      | inr e ↦
          rw (c.0, d.0, test, e)
            (
              sub32 x y,
              refl,
              (
                λ z. absurd (ground (arith, c.2, d.2)),
                λ z. absurd (ground (arith, ap (λ l. get_or l 0 0) z)),
              ),
            )
    ]
