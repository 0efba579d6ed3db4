-- ===== src/Printk.antt =====
-- helper/printk.c: formatted output to the current screen. A format is the list of its bytes before
-- the NUL. What is read beyond these, an argument that is missing, a number that is used as a pointer or a
-- pointer as a number, two words as one of 64 bits, and a format that ends within a conversion, is
-- `none`.
pub mod Text
pub mod Counted
pub mod Numbers
pub mod Format
pub mod Directives
pub mod Correct
pub mod Writes
pub mod Bounds
use kernel_from_scratch.Prelude.{
  ℕ, zero, suc, ◌+◌, ◌-◌, ◌*◌, ◌/◌, ◌%◌, ◌^◌, Bool, true, false, ◌&&◌, Option, none, some, List, [],
  ◌∷◌, ltb, leb, ◌==◌, if◌then◌else◌, length, take, get_or, codes, add32, sub32, is_negative32,
  ◌>>=◌, ◌||◌,
}
use kernel_from_scratch.Numerals.{hex_digit}
use kernel_from_scratch.Chars.{isdigit}
use kernel_from_scratch.Terminal.{Console}
use kernel_from_scratch.Terminal.Output.{terminal_putc_output, terminal_puts_output}

-- The functions return how many characters they printed.
unfoldable pub putchar : ℕ → Console → ℕ × Console
putchar ch c = (1, terminal_putc_output (ch % 256) c)

-- A pointer to a text, `none` for NULL.
unfoldable pub putstr : Option (List ℕ) → Console → ℕ × Console
putstr none c = (length (codes "(null)"), terminal_puts_output (codes "(null)") c)
putstr (some s) c = (length s % 2 ^ 32, terminal_puts_output s c)

-- The loop of `putpadding`, with fuel.
unfoldable pub putpadding_loop : ℕ → ℕ → ℕ → ℕ → ℕ → Console → ℕ × Console
putpadding_loop zero len width pad count c = (count, c)
putpadding_loop (suc fuel) len width pad count c =
    let later = putpadding_loop fuel len width pad (add32 count 1) (terminal_putc_output pad c) in
    if ltb (add32 len count) width then later else (count, c)

unfoldable pub putpadding : ℕ → ℕ → ℕ → Console → ℕ × Console
putpadding len width pad c = putpadding_loop width len width pad 0 c

-- A number below 2 ^ 32 takes nine divisions by 10 at most.
unfoldable pub nbrlen_loop : ℕ → ℕ → ℕ → ℕ
nbrlen_loop zero number len = len
nbrlen_loop (suc fuel) number len =
    let later = nbrlen_loop fuel (number / 10) (len + 1) in if leb 10 number then later else len

unfoldable pub nbrlen : ℕ → ℕ
nbrlen number = nbrlen_loop 9 number 1

-- A number below 2 ^ 64 takes fifteen shifts at most.
unfoldable pub hexlen_loop : ℕ → ℕ → ℕ → ℕ
hexlen_loop zero number len = len
hexlen_loop (suc fuel) number len =
    let later = hexlen_loop fuel (number / 2 ^ 4) (len + 1) in
    if number / 2 ^ 4 == 0 then len else later

unfoldable pub hexlen : ℕ → ℕ
hexlen number = hexlen_loop 15 number 1

-- The array `digits`, the element that was written last in front. `do ... while (number > 0)`:
unfoldable pub digits_do : ℕ → ℕ → List ℕ → List ℕ
digits_do zero number digits = digits
digits_do (suc fuel) number digits =
    let later = digits_do fuel (number / 10) ((48 + number % 10) ∷ digits) in
    if ltb 0 (number / 10) then later else (48 + number % 10) ∷ digits

-- `while (number > 0)`:
unfoldable pub digits_while : ℕ → ℕ → List ℕ → List ℕ
digits_while zero number digits = digits
digits_while (suc fuel) number digits =
    let later = digits_while fuel (number / 10) ((48 + number % 10) ∷ digits) in
    if ltb 0 number then later else digits

-- `for (int i = index - 1; i >= 0; i--)`: the elements from the last one on, counted.
unfoldable pub put_array : List ℕ → ℕ → Console → ℕ × Console
put_array [] count c = (count, c)
put_array (d ∷ digits) count c = put_array digits (count + 1) (terminal_putc_output d c)

unfoldable pub putunbr : ℕ → Console → ℕ × Console
putunbr number c = put_array (digits_do 10 number []) 0 c

-- `(uint32_t) (-(number + 1)) + 1` of a negative number.
unfoldable pub magnitude : ℕ → ℕ
magnitude number = add32 (sub32 0 (add32 number 1)) 1

unfoldable pub putnbr : ℕ → Console → ℕ × Console
putnbr number c =
    if number == 0
    then (1, terminal_putc_output 48 c)
    else if is_negative32 number
    then put_array (digits_while 10 (magnitude number) []) 1 (terminal_putc_output 45 c)
    else put_array (digits_while 10 number []) 0 c

-- `while (number)`, on the array `hex_digits`.
unfoldable pub hex_while : ℕ → ℕ → List ℕ → List ℕ
hex_while zero number digits = digits
hex_while (suc fuel) number digits =
    let later = hex_while fuel (number / 2 ^ 4) (hex_digit (number % 2 ^ 4) ∷ digits) in
    if number == 0 then digits else later

unfoldable pub puthex : ℕ → Console → ℕ × Console
puthex number c =
    if number == 0 then (1, terminal_putc_output 48 c) else put_array (hex_while 16 number []) 0 c

-- The counts of two calls, added.
abbrev pub add_count : ℕ → ℕ × Console → ℕ × Console
add_count n r = (n + r.0, r.1)

unfoldable pub putptr : ℕ → Console → ℕ × Console
putptr address c =
    let (n, c) = putstr (some (codes "0x")) c in
    let (k, c) = putpadding (hexlen address) 8 48 c in add_count (n + k) (puthex address c)

-- `for (uint64_t j = start; j <= i; j++)`, over the characters that are printed back.
unfoldable pub put_written : List ℕ → Console → ℕ × Console
put_written [] c = (0, c)
put_written (ch ∷ s) c = add_count 1 (put_written s (putchar ch c).1)

-- An argument: 32 bits, 64 bits, or a pointer to a text. 64 bits lie on the stack as two words, the
-- low one first, and a `va_arg` of 32 bits reads the low one only.
pub data Arg : Type 0 where
  word : ℕ → Arg
  long_word : ℕ → Arg
  text : Option (List ℕ) → Arg

abbrev pub Args : Type 0
Args = List Arg

abbrev pub take_word : Args → Option (ℕ × Args)
take_word (word w ∷ args) = some (w, args)
take_word (long_word w ∷ args) = some (w % 2 ^ 32, word (w / 2 ^ 32) ∷ args)
take_word _ = none

abbrev pub take_long : Args → Option (ℕ × Args)
take_long (long_word w ∷ args) = some (w, args)
take_long _ = none

abbrev pub take_text : Args → Option (Option (List ℕ) × Args)
take_text (text s ∷ args) = some (s, args)
take_text _ = none

-- What stands behind a `%`: the variables of the loop's body, `s[i]`, the characters from the `%` to
-- `s[i]`, and the format behind them.
pub record Directive : Type 0 where
  pub pad : ℕ
  pub width : ℕ
  pub has_long_long : Bool
  pub conversion : ℕ
  pub written : List ℕ
  pub rest : List ℕ

-- `if (s[i] == '0')`
abbrev pub read_pad : List ℕ → ℕ × List ℕ
read_pad [] = (32, [])
read_pad (ch ∷ s) = if ch == 48 then (48, s) else (32, ch ∷ s)

-- `while (isdigit(s[i]))`
unfoldable pub read_width : List ℕ → ℕ → ℕ × List ℕ
read_width [] width = (width, [])
read_width (ch ∷ s) width =
    let later = read_width s (add32 (width * 10 % 2 ^ 32) (ch - 48)) in
    if isdigit ch then later else (width, ch ∷ s)

-- `if (s[i] == 'l' && s[i + 1] == 'l')`
abbrev pub read_long : List ℕ → Bool × List ℕ
read_long (a ∷ b ∷ s) = if (a == 108) && (b == 108) then (true, s) else (false, a ∷ b ∷ s)
read_long s = (false, s)

-- At the end of the format the loop goes on behind the NUL.
unfoldable pub read_directive : List ℕ → Option Directive
read_directive s =
    let (pad, s1) = read_pad s in
    let (width, s2) = read_width s1 0 in
    let (has_long_long, s3) = read_long s2 in
    elim s3 [
      | [] ↦ none
      | ch ∷ rest ↦ some (record {
        pad = pad;
        width = width;
        has_long_long = has_long_long;
        conversion = ch;
        written = take (suc (length s - length rest)) (37 ∷ s);
        rest = rest;
      })
    ]

-- What a conversion prints and counts, with the arguments that are left.
abbrev pub Converted : Type 0
Converted = ℕ × Console × Args

-- The case of `%d` and `%i`.
unfoldable pub convert_signed : ℕ → ℕ → ℕ → Console → ℕ × Console
convert_signed pad width number c =
    let negative = is_negative32 number in
    let absolute = if negative then magnitude number else number in
    let len = nbrlen absolute + (if negative then 1 else 0) in
    if negative && (pad == 48)
    then (let (n, c) = putchar 45 c in
        let (k, c) = putpadding len width pad c in add_count (n + k) (putunbr absolute c))
    else (let (k, c) = putpadding len width pad c in add_count k (putnbr number c))

unfoldable pub convert_unsigned : ℕ → ℕ → ℕ → Console → ℕ × Console
convert_unsigned pad width number c =
    let (k, c) = putpadding (nbrlen number) width pad c in add_count k (putunbr number c)

unfoldable pub convert_hex : ℕ → ℕ → ℕ → Console → ℕ × Console
convert_hex pad width number c =
    let (k, c) = putpadding (hexlen number) width pad c in add_count k (puthex number c)

-- The `switch`.
unfoldable pub convert : Directive → Args → Console → Option Converted
convert d args c =
    if d.conversion == 99
    then (do (w, args) ← take_word args; let (n, c') = putchar w c; some (n, c', args))
    else if d.conversion == 115
    then (do (s, args) ← take_text args; let (n, c') = putstr s c; some (n, c', args))
    else if (d.conversion == 100) || (d.conversion == 105)
    then (do
      (w, args) ← take_word args
      let (n, c') = convert_signed d.pad d.width w c
      some (n, c', args))
    else if d.conversion == 117
    then (do
      (w, args) ← take_word args
      let (n, c') = convert_unsigned d.pad d.width w c
      some (n, c', args))
    else if d.conversion == 37
    then (let (n, c') = putchar 37 c in some (n, c', args))
    else if d.conversion == 120
    then (do
      (w, args) ← if d.has_long_long then take_long args else take_word args
      let (n, c') = convert_hex d.pad d.width w c
      some (n, c', args))
    else if d.conversion == 112
    then (do (w, args) ← take_word args; let (n, c') = putptr w c; some (n, c', args))
    else (let (n, c') = put_written d.written c in some (n, c', args))

-- The loop, with fuel.
unfoldable pub printk_loop : ℕ → List ℕ → Args → ℕ → Console → Option (ℕ × Console)
printk_loop zero s args count c = none
printk_loop (suc fuel) [] args count c = some (count, c)
printk_loop (suc fuel) (ch ∷ s) args count c = elim (ch == 37) [
  | true ↦ do
    d ← read_directive s
    (n, c', args) ← convert d args c
    printk_loop fuel d.rest args ((count + n) % 2 ^ 64) c'
  | false ↦ printk_loop fuel s args ((count + 1) % 2 ^ 64) (putchar ch c).1
]

unfoldable pub printk : List ℕ → Args → Console → Option (ℕ × Console)
printk s args c = printk_loop (length s + 1) s args 0 c

-- A call whose count is not used.
abbrev pub print : List ℕ → Args → Console → Option Console
print s args c = do (n, c) ← printk s args c; some c
