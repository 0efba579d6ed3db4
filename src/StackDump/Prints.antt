-- ===== src/StackDump/Prints.antt =====
-- stack.c: what prints one text on any screen.
use kernel_from_scratch.Prelude.{
  ℕ, zero, suc, ◌+◌, ◌<◌, ◌≡◌, refl, sym, ap, arith, Bool, true, false, if◌then◌else◌, Option, some,
  List, [], ◌∷◌, ◌++◌, codes, ◌>>=◌,
}
use kernel_from_scratch.Terminal.{Console}
use kernel_from_scratch.Terminal.Put.{put_chars}
use kernel_from_scratch.Terminal.Sequence.{put_chars-append, put_chars-nil}
use kernel_from_scratch.Printk.{Args, word, print}
use kernel_from_scratch.Printk.Writes.{
  IsWritten, all_plain, print-IsWritten, writes_nil, writes_plain, writes_c,
}
use kernel_from_scratch.StackDump.{print_if, for_print}

-- What prints one text, on any screen.
abbrev pub IsOutput : (Console → Option Console) → Type 0
IsOutput f = (t : List ℕ) × ((c : Console) → f c ≡ some (put_chars t c))

pub prints_nothing : IsOutput (λ c. some c)
prints_nothing = ([], λ c. ap some (sym (put_chars-nil c)))

pub prints_then :
    (f g : Console → Option Console) → IsOutput f → IsOutput g → IsOutput (λ c. do c ← f c; g c)
prints_then f g (t, p) (u, q) =
    (t ++ u, λ c. rw (p c, q (put_chars t c)) (ap some (sym (put_chars-append t u c))))

pub prints_either :
    (b : Bool) (f g : Console → Option Console)
    → IsOutput f
    → IsOutput g
    → IsOutput (λ c. if b then f c else g c)
prints_either true f g p q = p
prints_either false f g p q = q

pub prints_if : (b : Bool) (f : Console → Option Console) → IsOutput f → IsOutput (print_if b f)
prints_if b f p = prints_either b f (λ c. some c) p prints_nothing

pub prints_format :
    (format : List ℕ) (args : Args) (t : List ℕ)
    → IsWritten format args t
    → IsOutput (print format args)
prints_format format args t w = (t, λ c. print-IsWritten format args t c w)

pub prints_plain : (s : List ℕ) → all_plain s ≡ true → IsOutput (print (s ++ []) [])
prints_plain s h =
    prints_format (s ++ []) [] (s ++ []) (writes_plain s [] [] [] h (writes_nil [] tt))

-- The two cases of a loop with fuel.
pub prints_cases :
    (b : Bool) (f g : Console → Option Console)
    → (b ≡ true → IsOutput f)
    → (b ≡ false → IsOutput g)
    → IsOutput (λ c. elim b [ true ↦ f c | false ↦ g c ])
prints_cases true f g p q = p refl
prints_cases false f g p q = q refl

pub prints_for :
    (n i : ℕ) (body : ℕ → Console → Option Console)
    → ((k : ℕ) → IsOutput (body k))
    → IsOutput (for_print n i body)
unfolding for_print
prints_for zero i body h = prints_nothing
prints_for (suc n) i body h =
    prints_then (body i) (for_print n (i + 1) body) (h i) (prints_for n (i + 1) body h)

pub prints_char : (b : ℕ) → b < 256 → IsOutput (print (codes "%c") (word b ∷ []))
prints_char b h = prints_format _ _ _ (writes_c b [] [] [] (omega (arith, h)) (writes_nil [] tt))
