-- ===== src/StackDump/Same.antt =====
-- stack.c: calls that print the same, one by one.
use kernel_from_scratch.Prelude.{
  ℕ, zero, suc, ◌+◌, ◌<◌, ◌≡◌, refl, ap, ◌∙◌, arith, Bool, true, false, ◌&&◌, if◌then◌else◌, Option,
  none, some, ◌>>=◌,
}
use kernel_from_scratch.Terminal.{Console}
use kernel_from_scratch.StackDump.{for_print}

pub then_same :
    (r s : Option Console) (f g : Console → Option Console)
    → r ≡ s
    → ((c : Console) → f c ≡ g c)
    → (do c ← r; f c) ≡ (do c ← s; g c)
then_same r s f g e h = ap (λ r. r >>= f) e ∙ behind s
  where
    behind : (s : Option Console) → (do c ← s; f c) ≡ (do c ← s; g c)
    behind none = refl
    behind (some c) = h c

pub first_same :
    (r f g : Console → Option Console)
    → ((c : Console) → f c ≡ g c)
    → (c : Console) → (do c ← r c; f c) ≡ (do c ← r c; g c)
first_same r f g h c = then_same (r c) (r c) f g refl h

pub either_same :
    (b : Bool) (x y z : Option Console)
    → (b ≡ true → x ≡ y)
    → (if b then x else z) ≡ (if b then y else z)
either_same true x y z h = h refl
either_same false x y z h = refl

pub cases_same :
    (b : Bool) (x y z : Option Console)
    → (b ≡ true → x ≡ y)
    → (elim b [ true ↦ x | false ↦ z ]) ≡ (elim b [ true ↦ y | false ↦ z ])
cases_same true x y z h = h refl
cases_same false x y z h = refl

pub for_print_same :
    (n i : ℕ) (f g : ℕ → Console → Option Console) (c : Console)
    → ((k : ℕ) → k < i + n → (c : Console) → f k c ≡ g k c)
    → for_print n i f c ≡ for_print n i g c
unfolding for_print
for_print_same zero i f g c h = refl
for_print_same (suc n) i f g c h =
    then_same (f i c) (g i c) (for_print n (i + 1) f) (for_print n (i + 1) g) (h i (omega arith) c)
      (λ c. for_print_same n (i + 1) f g c (λ k l. h k (omega (arith, l))))

pub and_left : (a b : Bool) → (a && b) ≡ true → a ≡ true
and_left a b h = ground arith
