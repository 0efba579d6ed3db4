-- ===== src/Printk/Correct.antt =====
-- printk.c: `printk` against the text of its format.
use mathlib.Core.Path.{ap₂}
use kernel_from_scratch.Prelude.{
  ℕ, zero, suc, ◌+◌, ◌%◌, ◌^◌, ◌<◌, ◌≤◌, ◌≡◌, ◌≢◌, refl, sym, ap, ◌∙◌, arith, Bool, true, false,
  ◌==◌, if◌then◌else◌, List, [], ◌∷◌, ◌++◌, length, length-append, Bool-cases, inl, inr, Option,
  none, some, ◌>>=◌,
}
use kernel_from_scratch.Chars.{isdigit}
use kernel_from_scratch.Terminal.{Console}
use kernel_from_scratch.Terminal.Put.{put_chars}
use kernel_from_scratch.Terminal.Sequence.{put_chars-append, put_chars-nil}
use kernel_from_scratch.Numerals.{hex_text}
use kernel_from_scratch.Printk.{
  Args, word, long_word, text, take_word, take_long, convert, printk, printk_loop, putchar,
}
use kernel_from_scratch.Printk.Text.{
  Conv, conv_c, conv_s, conv_d, conv_i, conv_u, conv_percent, conv_x, conv_p, conv_char, Flags,
  Piece, plain, directive, unknown, flags_format, piece_format, pieces_format, width_of, pad_of,
  padded, conv_text, piece_text, pieces_text, IsFlags, IsPiece, AllPieces, AllArgs,
}
use kernel_from_scratch.Printk.Numbers.{putchar-says}
use kernel_from_scratch.Printk.Format.{Ends, read_directive-format}
use kernel_from_scratch.Printk.Directives.{
  read_as, printed_as, convert-conv_text, convert-unknown, flags_format-AllBytes,
}

conv_char-Ends : (k : Conv) → Ends (conv_char k)
unfolding isdigit
conv_char-Ends conv_c = (refl, omega arith, omega arith)
conv_char-Ends conv_s = (refl, omega arith, omega arith)
conv_char-Ends conv_d = (refl, omega arith, omega arith)
conv_char-Ends conv_i = (refl, omega arith, omega arith)
conv_char-Ends conv_u = (refl, omega arith, omega arith)
conv_char-Ends conv_percent = (refl, omega arith, omega arith)
conv_char-Ends conv_x = (refl, omega arith, omega arith)
conv_char-Ends conv_p = (refl, omega arith, omega arith)

-- What the loop goes on with behind a piece.
abbrev go_on : ℕ → List ℕ → ℕ → Console → Option (List ℕ × Args) → Option (ℕ × Console)
go_on fuel s count c none = none
go_on fuel s count c (some (t, args)) =
    printk_loop fuel s args ((count + length t) % 2 ^ 64) (put_chars t c)

-- A turn of the loop at a `%`.
turn-convert :
    (fuel : ℕ) (f : Flags) (ch : ℕ) (s : List ℕ) (args : Args) (count : ℕ) (c : Console)
    (r : Option (List ℕ × Args))
    → IsFlags f
    → Ends ch
    → convert (read_as f ch s) args c ≡ printed_as r c
    → printk_loop (suc fuel) (37 ∷ flags_format f (ch ∷ s)) args count c ≡ go_on fuel s count c r
unfolding printk_loop
turn-convert fuel f ch s args count c none i e h = rw (read_directive-format f ch s i e, h) refl
turn-convert fuel f ch s args count c (some (t, left)) i e h =
    rw (read_directive-format f ch s i e, h)
      (ap (λ n. printk_loop fuel s left ((count + n) % 2 ^ 64) (put_chars t c)) (omega arith))

no_digit-ne : (ch : ℕ) → isdigit ch ≡ false → ch ≢ 48
unfolding isdigit
no_digit-ne ch h e = ground arith

turn-piece_text :
    (fuel : ℕ) (p : Piece) (s : List ℕ) (args : Args) (count : ℕ) (c : Console)
    → IsPiece p
    → AllArgs args
    → printk_loop (suc fuel) (piece_format p s) args count c
      ≡ go_on fuel s count c (piece_text p args)
turn-piece_text fuel (plain ch) s args count c i a =
    let other : (ch == 37) ≡ false = ground (arith, i.0) in
    let byte : ch % 256 ≡ ch = omega (arith, i.1) in
    let printed : (putchar ch c).1 ≡ put_chars (ch ∷ []) c =
      ap (λ r. r.1) (putchar-says ch c) ∙ ap (λ b. put_chars (b ∷ []) c) byte in
    unfold printk_loop in rw (other, printk_loop) (rw printed refl)
turn-piece_text fuel (directive f k) s args count c i a =
    turn-convert fuel f (conv_char k) s args count c (conv_text f k args) i (conv_char-Ends k)
      (convert-conv_text f k s args c i a)
turn-piece_text fuel (unknown f ch) s args count c (i, other, no_digit, no_l, byte) a =
    let zero : ch ≢ 48 = no_digit-ne ch no_digit in
    turn-convert fuel f ch s args count c (piece_text (unknown f ch) args) i (no_digit, no_l, zero)
      (convert-unknown f ch s args c other
        (omega arith, flags_format-AllBytes f (ch ∷ []) i (byte, tt)))

-- The arguments that are left are arguments.
abbrev ArgsLeft : Option (List ℕ × Args) → Type 0
ArgsLeft none = Unit
ArgsLeft (some (t, args)) = AllArgs args

piece_text-ArgsLeft : (p : Piece) (args : Args) → AllArgs args → ArgsLeft (piece_text p args)
piece_text-ArgsLeft (plain ch) args a = a
piece_text-ArgsLeft (directive f k) args a = left k args a
  where
    long :
        (args : Args)
        → AllArgs args
        → ArgsLeft (do
          (w, args) ← take_long args
          some (padded (pad_of f) (width_of f) (hex_text w), args))
    long (long_word w ∷ args) a = a.1
    long _ a = tt

    short :
        (args : Args)
        → AllArgs args
        → ArgsLeft (do
          (w, args) ← take_word args
          some (padded (pad_of f) (width_of f) (hex_text w), args))
    short (word w ∷ args) a = a.1
    short (long_word w ∷ args) a = (omega (arith, a.0), a.1)
    short _ a = tt

    left : (k : Conv) (args : Args) → AllArgs args → ArgsLeft (conv_text f k args)
    left conv_c (word w ∷ args) a = a.1
    left conv_c (long_word w ∷ args) a = (omega (arith, a.0), a.1)
    left conv_c _ a = tt
    left conv_s (text s ∷ args) a = a.1
    left conv_s _ a = tt
    left conv_d (word w ∷ args) a = a.1
    left conv_d (long_word w ∷ args) a = (omega (arith, a.0), a.1)
    left conv_d _ a = tt
    left conv_i (word w ∷ args) a = a.1
    left conv_i (long_word w ∷ args) a = (omega (arith, a.0), a.1)
    left conv_i _ a = tt
    left conv_u (word w ∷ args) a = a.1
    left conv_u (long_word w ∷ args) a = (omega (arith, a.0), a.1)
    left conv_u _ a = tt
    left conv_percent args a = a
    left conv_x args a = elim (Bool-cases f.is_long) [
      | inl e ↦ rw e (long args a)
      | inr e ↦ rw e (short args a)
    ]
    left conv_p (word w ∷ args) a = a.1
    left conv_p (long_word w ∷ args) a = (omega (arith, a.0), a.1)
    left conv_p _ a = tt
piece_text-ArgsLeft (unknown f ch) args a = a

length-flags_format : (f : Flags) (s : List ℕ) → length s ≤ length (flags_format f s)
length-flags_format f s = in_front f.padded_by_zero _ (behind f.digits f.is_long)
  where
    behind : (ds : List ℕ) (l : Bool) → length s ≤ length (ds ++ (if l then 108 ∷ 108 ∷ s else s))
    behind ds true = omega (arith, length-append ds (108 ∷ 108 ∷ s))
    behind ds false = omega (arith, length-append ds s)

    in_front :
        (p : Bool) (t : List ℕ) → length s ≤ length t → length s ≤ length (if p then 48 ∷ t else t)
    in_front true t h = omega (arith, h)
    in_front false t h = h

shorter : (p : Piece) (s : List ℕ) → length s < length (piece_format p s)
shorter (plain ch) s = omega arith
shorter (directive f k) s = omega (arith, length-flags_format f (conv_char k ∷ s))
shorter (unknown f ch) s = omega (arith, length-flags_format f (ch ∷ s))

-- A text, put and counted.
abbrev counted : ℕ → Console → List ℕ → Option (ℕ × Console)
counted count c t = some ((count + length t) % 2 ^ 64, put_chars t c)

-- The text of the pieces behind one.
joined :
    (t : List ℕ) (r : Option (List ℕ)) (count : ℕ) (c : Console)
    → (do u ← r; counted ((count + length t) % 2 ^ 64) (put_chars t c) u)
      ≡ (do u ← (do u ← r; some (t ++ u)); counted count c u)
joined t none count c = refl
joined t (some u) count c =
    ap some (ap₂ (λ n d. (n, d)) (omega (arith, length-append t u)) (sym (put_chars-append t u c)))

-- The loop on `ps`, from any count and console.
abbrev IsText : ℕ → List Piece → Type 0
IsText fuel ps =
    (args : Args) (count : ℕ) (c : Console)
    → AllArgs args
    → count < 2 ^ 64
    → printk_loop fuel (pieces_format ps) args count c
      ≡ (do t ← pieces_text ps args; counted count c t)

behind_piece :
    (fuel : ℕ) (ps : List Piece) (count : ℕ) (c : Console) (r : Option (List ℕ × Args))
    → ArgsLeft r
    → IsText fuel ps
    → go_on fuel (pieces_format ps) count c r
      ≡ (do t ← (do (t, args) ← r; u ← pieces_text ps args; some (t ++ u)); counted count c t)
behind_piece fuel ps count c none left h = refl
behind_piece fuel ps count c (some (t, args)) left h =
    h args ((count + length t) % 2 ^ 64) (put_chars t c) left (omega arith)
    ∙ joined t (pieces_text ps args) count c

loop-IsText :
    (fuel : ℕ) (ps : List Piece) → length (pieces_format ps) < fuel → AllPieces ps → IsText fuel ps
unfolding pieces_text
loop-IsText zero ps h i args count c a k = absurd (omega (arith, h))
loop-IsText (suc fuel) [] h i args count c a k =
    unfold printk_loop in ap some (ap₂ (λ n d. (n, d)) (omega (arith, k)) (sym (put_chars-nil c)))
loop-IsText (suc fuel) (p ∷ ps) h i args count c a k =
    let fits : length (pieces_format ps) < fuel = omega (arith, h, shorter p (pieces_format ps)) in
    turn-piece_text fuel p (pieces_format ps) args count c i.0 a
    ∙ behind_piece fuel ps count c (piece_text p args) (piece_text-ArgsLeft p args a)
        (loop-IsText fuel ps fits i.1)

-- For every sequence of characters, directives and unknown directives, and every list of arguments
-- in the range of their types, the call of `printk` with the bytes of the sequence gives a result
-- exactly if the text of the sequence is defined, which is if the arguments that it takes are there
-- with the types that it takes them by. It then has put the characters of that text on the current
-- screen, one after the other, and has returned their number modulo 2 ^ 64.
pub printk-pieces_text :
    (ps : List Piece) (args : Args) (c : Console)
    → AllPieces ps
    → AllArgs args
    → printk (pieces_format ps) args c
      ≡ (do t ← pieces_text ps args; some (length t % 2 ^ 64, put_chars t c))
unfolding printk
printk-pieces_text ps args c i a =
    loop-IsText (length (pieces_format ps) + 1) ps (omega arith) i args 0 c a (omega arith)
    ∙ from_zero (pieces_text ps args)
  where
    from_zero :
        (r : Option (List ℕ))
        → (do t ← r; counted 0 c t) ≡ (do t ← r; some (length t % 2 ^ 64, put_chars t c))
    from_zero none = refl
    from_zero (some t) = ap (λ n. some (n % 2 ^ 64, put_chars t c)) (omega arith)
