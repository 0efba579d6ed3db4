-- ===== src/Printk/Text.antt =====
-- printk.c: what a format means. A format is made of pieces; each has its bytes in the format, and
-- the text that it prints for its argument.
use kernel_from_scratch.Prelude.{
  ℕ, ◌+◌, ◌-◌, ◌%◌, ◌^◌, ◌<◌, ◌≤◌, ◌⊎◌, get_or, ◌≡◌, ◌≢◌, Bool, true, false, ◌&&◌, ◌||◌, Option,
  none, some, List, [], ◌∷◌, ◌++◌, ◌==◌, if◌then◌else◌, length, replicate, codes, is_negative32,
  ◌>>=◌,
}
use kernel_from_scratch.Chars.{isdigit}
use kernel_from_scratch.Numerals.{number_text, hex_text, value}
use kernel_from_scratch.Printk.{Arg, Args, word, long_word, text, take_word, take_long, take_text}

pub data Conv : Type 0 where
  conv_c conv_s conv_d conv_i conv_u conv_percent conv_x conv_p : Conv

abbrev pub conv_char : Conv → ℕ
conv_char conv_c = b'c'
conv_char conv_s = b's'
conv_char conv_d = b'd'
conv_char conv_i = b'i'
conv_char conv_u = b'u'
conv_char conv_percent = b'%'
conv_char conv_x = b'x'
conv_char conv_p = b'p'

-- The flags of a directive: the zero, the digits of the width, and `ll`.
pub record Flags : Type 0 where
  pub padded_by_zero : Bool
  pub digits : List ℕ
  pub is_long : Bool

pub data Piece : Type 0 where
  plain : ℕ → Piece
  directive : Flags → Conv → Piece
  unknown : Flags → ℕ → Piece

abbrev pub flags_format : Flags → List ℕ → List ℕ
flags_format f s =
    let behind = f.digits ++ (if f.is_long then 108 ∷ 108 ∷ s else s) in
    if f.padded_by_zero then 48 ∷ behind else behind

abbrev pub piece_format : Piece → List ℕ → List ℕ
piece_format (plain ch) s = ch ∷ s
piece_format (directive f k) s = 37 ∷ flags_format f (conv_char k ∷ s)
piece_format (unknown f ch) s = 37 ∷ flags_format f (ch ∷ s)

abbrev pub pieces_format : List Piece → List ℕ
pieces_format [] = []
pieces_format (p ∷ ps) = piece_format p (pieces_format ps)

abbrev pub width_of : Flags → ℕ
width_of f = value f.digits 0

abbrev pub pad_of : Flags → ℕ
pad_of f = if f.padded_by_zero then 48 else 32

abbrev pub padded : ℕ → ℕ → List ℕ → List ℕ
padded pad width t = replicate (width - length t) pad ++ t

-- What a text argument prints.
abbrev pub text_of : Option (List ℕ) → List ℕ
text_of none = codes "(null)"
text_of (some t) = t

-- A text in parts.
abbrev pub join : List (List ℕ) → List ℕ
join [] = []
join (t ∷ ts) = t ++ join ts

abbrev pub AllBytes : List ℕ → Type 0
AllBytes [] = Unit
AllBytes (ch ∷ s) = (ch < 256) × AllBytes s

abbrev pub signed : ℕ → List ℕ
signed w = if is_negative32 w then 45 ∷ number_text (2 ^ 32 - w) else number_text w

-- A negative number has its sign before the zeros, or behind the spaces.
abbrev pub signed_padded : ℕ → ℕ → ℕ → List ℕ
signed_padded pad width w =
    if is_negative32 w && (pad == 48)
    then 45
      ∷ (replicate (width - (length (number_text (2 ^ 32 - w)) + 1)) 48 ++ number_text (2 ^ 32 - w))
    else padded pad width (signed w)

abbrev pub conv_text : Flags → Conv → Args → Option (List ℕ × Args)
conv_text f conv_c args = do (w, args) ← take_word args; some (w % 256 ∷ [], args)
conv_text f conv_s args = do (s, args) ← take_text args; some (text_of s, args)
conv_text f conv_d args = do
  (w, args) ← take_word args
  some (signed_padded (pad_of f) (width_of f) w, args)
conv_text f conv_i args = do
  (w, args) ← take_word args
  some (signed_padded (pad_of f) (width_of f) w, args)
conv_text f conv_u args = do
  (w, args) ← take_word args
  some (padded (pad_of f) (width_of f) (number_text w), args)
conv_text f conv_percent args = some (37 ∷ [], args)
conv_text f conv_x args = do
  (w, args) ← if f.is_long then take_long args else take_word args
  some (padded (pad_of f) (width_of f) (hex_text w), args)
conv_text f conv_p args = do
  (w, args) ← take_word args
  some (codes "0x" ++ padded 48 8 (hex_text w), args)

abbrev pub piece_text : Piece → Args → Option (List ℕ × Args)
piece_text (plain ch) args = some (ch ∷ [], args)
piece_text (directive f k) args = conv_text f k args
piece_text (unknown f ch) args = some (37 ∷ flags_format f (ch ∷ []), args)

-- The text of a format for its arguments, if they are there and of the right types.
unfoldable pub pieces_text : List Piece → Args → Option (List ℕ)
pieces_text [] args = some []
pieces_text (p ∷ ps) args = do (t, args) ← piece_text p args; u ← pieces_text ps args; some (t ++ u)

abbrev pub AllDigits : List ℕ → Type 0
AllDigits [] = Unit
AllDigits (d ∷ ds) = (48 ≤ d) × (d ≤ 57) × AllDigits ds

-- The digits are digits, the first of them no zero that would be a flag, and the width fits.
pub record IsFlags (f : Flags) : Type 0 where
  pub digits : AllDigits f.digits
  pub no_flag : (f.padded_by_zero ≡ true) ⊎ (get_or f.digits 0 0 ≢ 48)
  pub small : width_of f < 2 ^ 32

abbrev pub is_conversion : ℕ → Bool
is_conversion ch =
    (ch == b'c')
    || (ch == b's')
    || (ch == b'd')
    || (ch == b'i')
    || (ch == b'u')
    || (ch == b'%')
    || (ch == b'x')
    || (ch == b'p')

abbrev pub IsPiece : Piece → Type 0
IsPiece (plain ch) = (ch ≢ 37) × (ch < 256)
IsPiece (directive f k) = IsFlags f
IsPiece (unknown f ch) =
    IsFlags f × (is_conversion ch ≡ false) × (isdigit ch ≡ false) × (ch ≢ b'l') × (ch < 256)

abbrev pub AllPieces : List Piece → Type 0
AllPieces [] = Unit
AllPieces (p ∷ ps) = IsPiece p × AllPieces ps

abbrev pub IsArg : Arg → Type 0
IsArg (word w) = w < 2 ^ 32
IsArg (long_word w) = w < 2 ^ 64
IsArg (text none) = Unit
IsArg (text (some t)) = length t < 2 ^ 32

abbrev pub AllArgs : Args → Type 0
AllArgs [] = Unit
AllArgs (a ∷ args) = IsArg a × AllArgs args
