-- ===== src/Memory/Compare.antt =====
-- mem.c: `memcmp` and the equality of two ranges of bytes.
use native.Mathlib.Decide.{dec_le}
use kernel_from_scratch.Prelude.{
  ℕ, zero, suc, ◌+◌, ◌≤◌, ◌<◌, ◌≡◌, ◌↔◌, refl, arith, ◌==◌, Bool-cases, inl, inr, add32,
}
use kernel_from_scratch.Memory.{Bytes, memcmp, compare_from}

-- The same bytes from `i` on.
abbrev pub Same : Bytes → ℕ → ℕ → ℕ → ℕ → Type 0
Same m s1 s2 i n = (k : ℕ) → i ≤ k → k < i + n → m (add32 s1 k) ≡ m (add32 s2 k)

compare_from-Same :
    (n i s1 s2 : ℕ) (m : Bytes)
    → ((p : ℕ) → m p < 256)
    → (compare_from n i s1 s2 m ≡ 0) ↔ Same m s1 s2 i n
unfolding compare_from
compare_from-Same zero i s1 s2 m byte = (λ z k lo hi. absurd (omega arith), λ z. refl)
compare_from-Same (suc n) i s1 s2 m byte =
    let (f, g) = compare_from-Same n (i + 1) s1 s2 m byte in
    elim (Bool-cases (m (add32 s1 i) == m (add32 s2 i))) [
      | inl e ↦ rw e (
        λ z k lo hi. elim (dec_le k i) [
          | yes before ↦ let here : k ≡ i = omega arith in rw here (ground arith)
          | no other ↦ f z k (omega arith) (omega arith)
        ],
        λ same. g (λ k lo hi. same k (omega arith) (omega arith)),
      )
      | inr e ↦ rw e (
        λ z. absurd (ground (arith, byte (add32 s1 i), byte (add32 s2 i))),
        λ same. absurd (ground (arith, same i (omega arith) (omega arith))),
      )
    ]

-- `memcmp` on bytes returns 0 exactly if the `n` bytes at both addresses are the same.
pub memcmp-Same :
    (s1 s2 n : ℕ) (m : Bytes) → ((p : ℕ) → m p < 256) → (memcmp s1 s2 n m ≡ 0) ↔ Same m s1 s2 0 n
unfolding memcmp
memcmp-Same s1 s2 n m byte = compare_from-Same n 0 s1 s2 m byte
