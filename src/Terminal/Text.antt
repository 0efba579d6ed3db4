-- ===== src/Terminal/Text.antt =====
-- terminal.c: the text that stands in the cells of a screen, and how the input functions read it.
use mathlib.Core.Path.{ap₂}
use kernel_from_scratch.Prelude.{
  ℕ, zero, suc, ◌+◌, ◌%◌, ◌^◌, ◌≤◌, ◌<◌, ◌≡◌, ◌≢◌, refl, arith, List, [], ◌∷◌, ◌++◌, length,
  length-take, length-drop, get_or-take, get_or-drop, take, drop, get_or, map,
}
use kernel_from_scratch.Terminal.{Cell, Screen, cell_at}
use kernel_from_scratch.Terminal.Put.{newline}
use kernel_from_scratch.Terminal.Input.{read_cells}
use kernel_from_scratch.Terminal.Advance.{glyph}
use kernel_from_scratch.Terminal.Print.{NoNewline}

-- The cells from position `p` on hold the characters of `xs`.
abbrev pub TextAt : Screen → ℕ → List ℕ → Type 0
TextAt s p xs = (i : ℕ) → i < length xs → (cell_at s (p + i)).character ≡ get_or xs i 0

-- Bytes without a newline: what a line of input is made of.
abbrev pub IsText : List ℕ → Type 0
IsText [] = Unit
IsText (ch ∷ chs) = (ch < 256) × (ch ≢ newline) × IsText chs

pub IsText-NoNewline : (xs : List ℕ) → IsText xs → NoNewline xs
IsText-NoNewline [] h = tt
IsText-NoNewline (x ∷ xs) h = (h.1, IsText-NoNewline xs h.2)

pub IsText-append : (xs ys : List ℕ) → IsText xs → IsText ys → IsText (xs ++ ys)
IsText-append [] ys h k = k
IsText-append (x ∷ xs) ys h k = (h.0, h.1, IsText-append xs ys h.2 k)

-- The cells that are printed for a text hold that text.
pub character-glyph :
    (s : Screen) (xs : List ℕ) (i : ℕ) (d : Cell)
    → IsText xs
    → i < length xs
    → (get_or (map (glyph s) xs) i d).character ≡ get_or xs i 0
character-glyph s [] i d t h = absurd (omega arith)
character-glyph s (x ∷ xs) zero d t h = omega arith
character-glyph s (x ∷ xs) (suc i) d t h = character-glyph s xs i d t.2 (omega arith)

TextAt-tail : (s : Screen) (p x : ℕ) (xs : List ℕ) → TextAt s p (x ∷ xs) → TextAt s (p + 1) xs
TextAt-tail s p x xs t i h =
    let next : p + 1 + i ≡ p + suc i = omega arith in rw next (t (suc i) (omega arith))

pub read_cells-TextAt :
    (s : Screen) (p : ℕ) (xs : List ℕ)
    → p + length xs ≤ 2 ^ 32
    → TextAt s p xs
    → read_cells s (length xs) p ≡ xs
unfolding read_cells
read_cells-TextAt s p [] h t = refl
read_cells-TextAt s p (x ∷ xs) h t =
    let here : p % 2 ^ 32 ≡ p + 0 = omega arith in
    ap₂ ◌∷◌ (rw here (t 0 (omega arith)))
      (read_cells-TextAt s (p + 1) xs (omega arith) (TextAt-tail s p x xs t))

pub TextAt-take :
    (s : Screen) (p n : ℕ) (xs : List ℕ) → n ≤ length xs → TextAt s p xs → TextAt s p (take n xs)
TextAt-take s p n xs h t i lt =
    let short : i < n = omega (arith, length-take n xs) in
    rw (get_or-take n xs i 0 short) (t i (omega arith))

pub TextAt-drop :
    (s : Screen) (p n : ℕ) (xs : List ℕ)
    → n ≤ length xs
    → TextAt s p xs
    → TextAt s (p + n) (drop n xs)
TextAt-drop s p n xs h t i lt =
    let next : p + n + i ≡ p + (n + i) = omega arith in
    rw (get_or-drop n xs i 0, next) (t (n + i) (omega (arith, length-drop n xs)))

pub IsText-take : (n : ℕ) (xs : List ℕ) → IsText xs → IsText (take n xs)
IsText-take zero xs h = tt
IsText-take (suc n) [] h = tt
IsText-take (suc n) (x ∷ xs) h = (h.0, h.1, IsText-take n xs h.2)

pub IsText-drop : (n : ℕ) (xs : List ℕ) → IsText xs → IsText (drop n xs)
IsText-drop zero xs h = h
IsText-drop (suc n) [] h = tt
IsText-drop (suc n) (x ∷ xs) h = IsText-drop n xs h.2
