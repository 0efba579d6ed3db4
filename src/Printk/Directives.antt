-- ===== src/Printk/Directives.antt =====
-- printk.c: the `switch` of `printk` against the text of a directive.
use kernel_from_scratch.Prelude.{
  ℕ, ◌+◌, ◌/◌, ◌%◌, ◌^◌, ◌≡◌, refl, ap, arith, Bool, true, false, ◌||◌, ◌==◌, if◌then◌else◌, List,
  [], ◌∷◌, ◌++◌, length, Bool-cases, inl, inr, Option, none, some, ◌>>=◌,
}
use kernel_from_scratch.Terminal.{Console}
use kernel_from_scratch.Terminal.Put.{put_chars}
use kernel_from_scratch.Numerals.{hex_text}
use kernel_from_scratch.Printk.{
  convert_hex, Args, word, long_word, text, take_word, take_long, Directive, Converted, convert,
}
use kernel_from_scratch.Printk.Text.{
  Conv, conv_c, conv_s, conv_d, conv_i, conv_u, conv_percent, conv_x, conv_p, conv_char, Flags,
  unknown, flags_format, width_of, pad_of, padded, conv_text, piece_text, IsFlags, AllArgs,
  AllBytes, AllDigits, is_conversion,
}
use kernel_from_scratch.Printk.Counted.{says}
use kernel_from_scratch.Printk.Numbers.{
  convert_signed-says, convert_unsigned-says, convert_hex-says, putstr-says, putchar-says,
  putptr-says, put_written-says,
}

-- The directive that is read for the flags `f` and a conversion character.
abbrev pub read_as : Flags → ℕ → List ℕ → Directive
read_as f ch s = record {
  pad = pad_of f;
  width = width_of f;
  has_long_long = f.is_long;
  conversion = ch;
  written = 37 ∷ flags_format f (ch ∷ []);
  rest = s;
}

-- What prints a text, with the arguments that are left.
abbrev pub printed_as : Option (List ℕ × Args) → Console → Option Converted
printed_as none c = none
printed_as (some (t, args)) c = some (0 + length t, put_chars t c, args)

triple :
    (t : List ℕ) (args : Args) {r : ℕ × Console} (c : Console)
    → r ≡ says 0 t c
    → ◌≡◌ {A = Option Converted} (some (r.0, r.1, args)) (printed_as (some (t, args)) c)
triple t args c e = ap (λ (r : ℕ × Console). some (r.0, r.1, args)) e

pub convert-conv_text :
    (f : Flags) (k : Conv) (s : List ℕ) (args : Args) (c : Console)
    → IsFlags f
    → AllArgs args
    → convert (read_as f (conv_char k) s) args c ≡ printed_as (conv_text f k args) c
unfolding convert
convert-conv_text f conv_c s (word w ∷ args) c i a = triple _ args c (putchar-says w c)
convert-conv_text f conv_c s (long_word w ∷ args) c i a =
    triple _ (word (w / 2 ^ 32) ∷ args) c (putchar-says (w % 2 ^ 32) c)
convert-conv_text f conv_c s _ c i a = refl
convert-conv_text f conv_s s (text none ∷ args) c i a =
    triple _ args c (putstr-says none c (omega arith))
convert-conv_text f conv_s s (text (some t) ∷ args) c i a =
    triple _ args c (putstr-says (some t) c a.0)
convert-conv_text f conv_s s _ c i a = refl
convert-conv_text f conv_d s (word w ∷ args) c i a =
    triple _ args c (convert_signed-says (pad_of f) (width_of f) w c i.small a.0)
convert-conv_text f conv_d s (long_word w ∷ args) c i a =
    triple _ (word (w / 2 ^ 32) ∷ args) c
      (convert_signed-says (pad_of f) (width_of f) (w % 2 ^ 32) c i.small (omega arith))
convert-conv_text f conv_d s _ c i a = refl
convert-conv_text f conv_i s (word w ∷ args) c i a =
    triple _ args c (convert_signed-says (pad_of f) (width_of f) w c i.small a.0)
convert-conv_text f conv_i s (long_word w ∷ args) c i a =
    triple _ (word (w / 2 ^ 32) ∷ args) c
      (convert_signed-says (pad_of f) (width_of f) (w % 2 ^ 32) c i.small (omega arith))
convert-conv_text f conv_i s _ c i a = refl
convert-conv_text f conv_u s (word w ∷ args) c i a =
    triple _ args c (convert_unsigned-says (pad_of f) (width_of f) w c i.small)
convert-conv_text f conv_u s (long_word w ∷ args) c i a =
    triple _ (word (w / 2 ^ 32) ∷ args) c
      (convert_unsigned-says (pad_of f) (width_of f) (w % 2 ^ 32) c i.small)
convert-conv_text f conv_u s _ c i a = refl
convert-conv_text f conv_percent s args c i a = triple _ args c (putchar-says 37 c)
convert-conv_text f conv_x s args c i a = elim (Bool-cases f.is_long) [
  | inl e ↦ rw e (long args)
  | inr e ↦ rw e (short args)
]
  where
    long :
        (args : Args)
        → (do
          (w, args) ← take_long args
          let (n, c') = convert_hex (pad_of f) (width_of f) w c
          some (n, c', args))
          ≡ printed_as
              (do
                (w, args) ← take_long args
                some (padded (pad_of f) (width_of f) (hex_text w), args))
              c
    long (long_word w ∷ args) =
        triple _ args c (convert_hex-says (pad_of f) (width_of f) w c i.small)
    long _ = refl

    short :
        (args : Args)
        → (do
          (w, args) ← take_word args
          let (n, c') = convert_hex (pad_of f) (width_of f) w c
          some (n, c', args))
          ≡ printed_as
              (do
                (w, args) ← take_word args
                some (padded (pad_of f) (width_of f) (hex_text w), args))
              c
    short (word w ∷ args) = triple _ args c (convert_hex-says (pad_of f) (width_of f) w c i.small)
    short (long_word w ∷ args) =
        triple _ (word (w / 2 ^ 32) ∷ args) c
          (convert_hex-says (pad_of f) (width_of f) (w % 2 ^ 32) c i.small)
    short _ = refl
convert-conv_text f conv_p s (word w ∷ args) c i a = triple _ args c (putptr-says w c)
convert-conv_text f conv_p s (long_word w ∷ args) c i a =
    triple _ (word (w / 2 ^ 32) ∷ args) c (putptr-says (w % 2 ^ 32) c)
convert-conv_text f conv_p s _ c i a = refl

pub convert-unknown :
    (f : Flags) (ch : ℕ) (s : List ℕ) (args : Args) (c : Console)
    → is_conversion ch ≡ false
    → AllBytes (37 ∷ flags_format f (ch ∷ []))
    → convert (read_as f ch s) args c ≡ printed_as (piece_text (unknown f ch) args) c
unfolding convert
convert-unknown f ch s args c i b =
    let n1 : (ch == 99) ≡ false = ground arith in
    let n2 : (ch == 115) ≡ false = ground arith in
    let n3 : ((ch == 100) || (ch == 105)) ≡ false = ground arith in
    let n4 : (ch == 117) ≡ false = ground arith in
    let n5 : (ch == 37) ≡ false = ground arith in
    let n6 : (ch == 120) ≡ false = ground arith in
    let n7 : (ch == 112) ≡ false = ground arith in
    rw (n1, n2, n3, n4, n5, n6, n7) (triple _ args c (put_written-says _ c b))

AllDigits-AllBytes : (ds s : List ℕ) → AllDigits ds → AllBytes s → AllBytes (ds ++ s)
AllDigits-AllBytes [] s h b = b
AllDigits-AllBytes (d ∷ ds) s h b = (omega (arith, h.1), AllDigits-AllBytes ds s h.2 b)

pub flags_format-AllBytes :
    (f : Flags) (s : List ℕ) → IsFlags f → AllBytes s → AllBytes (flags_format f s)
flags_format-AllBytes f s i b =
    in_front f.padded_by_zero _ (AllDigits-AllBytes f.digits _ i.digits (long f.is_long))
  where
    long : (l : Bool) → AllBytes (if l then 108 ∷ 108 ∷ s else s)
    long true = (omega arith, (omega arith, b))
    long false = b

    in_front : (p : Bool) (t : List ℕ) → AllBytes t → AllBytes (if p then 48 ∷ t else t)
    in_front true t h = (omega arith, h)
    in_front false t h = h
