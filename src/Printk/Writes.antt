-- ===== src/Printk/Writes.antt =====
-- printk.c: the text of a call of `printk`, put together from the parts of its format.
use kernel_from_scratch.Prelude.{
  ℕ, ◌+◌, ◌-◌, ◌/◌, ◌%◌, ◌^◌, ◌<◌, ◌≤◌, ◌≡◌, ◌≢◌, refl, ap, ◌∙◌, arith, Bool, true, false, not,
  ◌&&◌, ◌==◌, ltb, List, [], ◌∷◌, ◌++◌, length, Bool-cases, inl, inr, Option, some, is_negative32,
}
use kernel_from_scratch.Numerals.{hex_text, number_text}
use kernel_from_scratch.Terminal.{Console}
use kernel_from_scratch.Terminal.Put.{put_chars}
use kernel_from_scratch.Printk.{Args, word, long_word, text, print}
use kernel_from_scratch.Printk.Text.{
  conv_c, conv_s, conv_d, conv_x, Flags, Piece, plain, directive, piece_format, piece_text,
  pieces_format, padded, signed, signed_padded, pieces_text, IsFlags, IsPiece, AllPieces, IsArg,
  AllArgs, text_of, width_of,
}
use kernel_from_scratch.Printk.Correct.{printk-pieces_text}

abbrev bare : Flags
bare = record { padded_by_zero = false; digits = []; is_long = false }

bare-IsFlags : IsFlags bare
bare-IsFlags = record { digits = tt; no_flag = inr (omega arith); small = omega arith }

-- A format, its arguments, and the text that it prints for them.
pub record IsWritten (format : List ℕ) (args : Args) (t : List ℕ) : Type 0 where
  pub pieces : List Piece
  pub same : pieces_format pieces ≡ format
  pub all_pieces : AllPieces pieces
  pub all_args : AllArgs args
  pub printed : pieces_text pieces args ≡ some t

pub print-IsWritten :
    (format : List ℕ) (args : Args) (t : List ℕ) (c : Console)
    → IsWritten format args t
    → print format args c ≡ some (put_chars t c)
print-IsWritten format args t c w =
    rw (← w.same, printk-pieces_text w.pieces args c w.all_pieces w.all_args, w.printed) refl

pub writes_nil : (args : Args) → AllArgs args → IsWritten [] args []
unfolding pieces_text
writes_nil args a = record {
  pieces = [];
  same = refl;
  all_pieces = tt;
  all_args = a;
  printed = refl;
}

-- One piece in front.
writes_piece :
    (p : Piece) (front : List ℕ → List ℕ) (format : List ℕ) (args args2 : Args) (s t : List ℕ)
    → ((u : List ℕ) → piece_format p u ≡ front u)
    → IsPiece p
    → AllArgs args2
    → piece_text p args2 ≡ some (s, args)
    → IsWritten format args t
    → IsWritten (front format) args2 (s ++ t)
unfolding pieces_text
writes_piece p front format args args2 s t e i a q w = record {
  pieces = p ∷ w.pieces;
  same = e (pieces_format w.pieces) ∙ ap front w.same;
  all_pieces = (i, w.all_pieces);
  all_args = a;
  printed = rw (q, w.printed) refl;
}

-- Characters that stand for themselves.
abbrev pub all_plain : List ℕ → Bool
all_plain [] = true
all_plain (ch ∷ s) = not (ch == 37) && ltb ch 256 && all_plain s

pub writes_plain :
    (s format : List ℕ) (args : Args) (t : List ℕ)
    → all_plain s ≡ true
    → IsWritten format args t
    → IsWritten (s ++ format) args (s ++ t)
writes_plain [] format args t h w = w
writes_plain (ch ∷ s) format args t h w =
    let other : ch ≢ 37 = ground arith in
    let byte : ch < 256 = ground arith in
    let later : all_plain s ≡ true = ground arith in
    writes_piece (plain ch) (ch ∷◌) (s ++ format) args args (ch ∷ []) (s ++ t) (λ u. refl)
      (other, byte) w.all_args refl (writes_plain s format args t later w)

padded_zero : (pad : ℕ) (t : List ℕ) → padded pad 0 t ≡ t
padded_zero pad t = let none_left : 0 - length t ≡ 0 = omega arith in rw none_left refl

signed_padded_zero : (w : ℕ) → signed_padded 32 0 w ≡ signed w
signed_padded_zero w = elim (Bool-cases (is_negative32 w)) [
  | inl minus ↦ rw minus (padded_zero 32 (45 ∷ number_text (2 ^ 32 - w)))
  | inr plus ↦ rw plus (padded_zero 32 (number_text w))
]

-- `%d`
pub writes_d :
    (w : ℕ) (format : List ℕ) (args : Args) (t : List ℕ)
    → w < 2 ^ 32
    → IsWritten format args t
    → IsWritten (37 ∷ 100 ∷ format) (word w ∷ args) (signed w ++ t)
writes_d w format args t h r =
    writes_piece (directive bare conv_d) (λ u. 37 ∷ 100 ∷ u) format args (word w ∷ args) (signed w)
      t (λ u. refl) bare-IsFlags (h, r.all_args) (ap (λ v. some (v, args)) (signed_padded_zero w)) r

-- `%d` of 64 bits: the low word, and the high one is left.
pub writes_d_long :
    (w : ℕ) (format : List ℕ) (args : Args) (t : List ℕ)
    → w < 2 ^ 64
    → IsWritten format (word (w / 2 ^ 32) ∷ args) t
    → IsWritten (37 ∷ 100 ∷ format) (long_word w ∷ args) (signed (w % 2 ^ 32) ++ t)
writes_d_long w format args t h r =
    writes_piece (directive bare conv_d) (λ u. 37 ∷ 100 ∷ u) format (word (w / 2 ^ 32) ∷ args)
      (long_word w ∷ args) (signed (w % 2 ^ 32)) t (λ u. refl) bare-IsFlags (h, r.all_args.1)
      (ap (λ v. some (v, word (w / 2 ^ 32) ∷ args)) (signed_padded_zero (w % 2 ^ 32))) r

-- `%s`
pub writes_s :
    (x : Option (List ℕ)) (format : List ℕ) (args : Args) (t : List ℕ)
    → IsArg (text x)
    → IsWritten format args t
    → IsWritten (37 ∷ 115 ∷ format) (text x ∷ args) (text_of x ++ t)
writes_s x format args t h r =
    writes_piece (directive bare conv_s) (λ u. 37 ∷ 115 ∷ u) format args (text x ∷ args) (text_of x)
      t (λ u. refl) bare-IsFlags (h, r.all_args) refl r

-- `%c`
pub writes_c :
    (w : ℕ) (format : List ℕ) (args : Args) (t : List ℕ)
    → w < 2 ^ 32
    → IsWritten format args t
    → IsWritten (37 ∷ 99 ∷ format) (word w ∷ args) (w % 256 ∷ t)
writes_c w format args t h r =
    writes_piece (directive bare conv_c) (λ u. 37 ∷ 99 ∷ u) format args (word w ∷ args)
      (w % 256 ∷ []) t (λ u. refl) bare-IsFlags (h, r.all_args) refl r

-- `%x`
pub writes_x :
    (w : ℕ) (format : List ℕ) (args : Args) (t : List ℕ)
    → w < 2 ^ 32
    → IsWritten format args t
    → IsWritten (37 ∷ 120 ∷ format) (word w ∷ args) (hex_text w ++ t)
writes_x w format args t h r =
    writes_piece (directive bare conv_x) (λ u. 37 ∷ 120 ∷ u) format args (word w ∷ args)
      (hex_text w) t (λ u. refl) bare-IsFlags (h, r.all_args)
      (ap (λ v. some (v, args)) (padded_zero 32 (hex_text w))) r

-- `%llx`
pub writes_llx :
    (w : ℕ) (format : List ℕ) (args : Args) (t : List ℕ)
    → w < 2 ^ 64
    → IsWritten format args t
    → IsWritten (37 ∷ 108 ∷ 108 ∷ 120 ∷ format) (long_word w ∷ args) (hex_text w ++ t)
writes_llx w format args t h r =
    let long : Flags = record { padded_by_zero = false; digits = []; is_long = true } in
    let long_flags : IsFlags long = record {
      digits = tt;
      no_flag = inr (omega arith);
      small = omega arith;
    } in
    writes_piece (directive long conv_x) (λ u. 37 ∷ 108 ∷ 108 ∷ 120 ∷ u) format args
      (long_word w ∷ args) (hex_text w) t (λ u. refl) long_flags (h, r.all_args)
      (ap (λ v. some (v, args)) (padded_zero 32 (hex_text w))) r

-- `%0nx` for a digit `n`
pub writes_0x :
    (n w : ℕ) (format : List ℕ) (args : Args) (t : List ℕ)
    → n ≤ 9
    → w < 2 ^ 32
    → IsWritten format args t
    → IsWritten (37 ∷ 48 ∷ (48 + n) ∷ 120 ∷ format) (word w ∷ args) (padded 48 n (hex_text w) ++ t)
writes_0x n w format args t k h r =
    let flags : Flags = record { padded_by_zero = true; digits = (48 + n) ∷ []; is_long = false } in
    let width : width_of flags ≡ n = omega arith in
    let is_flags : IsFlags flags = record {
      digits = (omega arith, omega (arith, k), tt);
      no_flag = inl refl;
      small = omega (arith, k);
    } in
    writes_piece (directive flags conv_x) (λ u. 37 ∷ 48 ∷ (48 + n) ∷ 120 ∷ u) format args
      (word w ∷ args) (padded 48 n (hex_text w)) t (λ u. refl) is_flags (h, r.all_args)
      (ap (λ m. some (padded 48 m (hex_text w), args)) width) r
