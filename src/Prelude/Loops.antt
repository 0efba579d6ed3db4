-- ===== src/Prelude/Loops.antt =====
-- Counted loops and stores.
use Prim.Native.Nat.{ℕ, zero, suc, ◌+◌, ◌≤◌, ◌<◌}
use mathlib.Core.Path.{◌≡◌}
use mathlib.Core.Bool.{Bool, true, not, ◌&&◌}
use native.Mathlib.Omega.{arith}
use kernel_from_scratch.Prelude.Tests.{◌==◌, if◌then◌else◌}

-- `for (k = i; k < i + n; k++) s = body k s;`
pub for_loop {ℓ} : {S : Type ℓ} → ℕ → ℕ → (ℕ → S → S) → S → S
for_loop zero i body s = s
for_loop (suc n) i body s = for_loop n (i + 1) body (body i s)

-- What holds before a loop and is kept by each of its rounds holds behind it.
pub for_loop_inv {ℓ κ} :
    {S : Type ℓ} (P : ℕ → S → Type κ) (body : ℕ → S → S) (n i j : ℕ) (s : S)
    → i + n ≡ j
    → ((k : ℕ) (t : S) → i ≤ k → k < j → P k t → P (k + 1) (body k t))
    → P i s
    → P j (for_loop n i body s)
unfolding for_loop
for_loop_inv P body zero i j s e keep h = let same : i ≡ j = omega arith in rw (← same) h
for_loop_inv P body (suc n) i j s e keep h =
    for_loop_inv P body n (i + 1) j (body i s) (omega arith) (λ k t a b. keep k t (omega arith) b)
      (keep i s (omega arith) (omega arith) h)

-- A store with one address written.
abbrev pub update {ℓ} : {A : Type ℓ} → (ℕ → A) → ℕ → A → ℕ → A
update f k v p = if p == k then v else f p

-- A test on each number below a bound.
abbrev pub all_below : ℕ → (ℕ → Bool) → Bool
all_below zero test = true
all_below (suc n) test = test n && all_below n test

pub all_below-at : (n k : ℕ) (test : ℕ → Bool) → all_below n test ≡ true → k < n → test k ≡ true
all_below-at zero k test all h = absurd (omega arith)
all_below-at (suc n) k test all h = ground (arith, all_below-at n k test)

-- Equality of two answers, as a test.
abbrev pub agree : Bool → Bool → Bool
agree a b = if a then b else not b

pub agree→≡ : (a b : Bool) → agree a b ≡ true → a ≡ b
agree→≡ a b h = ground arith
