-- ===== src/StackDump.antt =====
-- stack.c: the dump of the kernel's stack. What the memory holds, and the addresses that the
-- assembly code and the linker script define, are the record `Image`.
pub mod Prints
pub mod Total
pub mod Same
pub mod Reads
use kernel_from_scratch.Prelude.{
  ℕ, zero, suc, ◌+◌, ◌*◌, ◌/◌, ◌%◌, ◌^◌, Bool, true, false, ◌&&◌, ltb, leb, ◌==◌, if◌then◌else◌,
  Option, none, some, List, [], ◌∷◌, codes, add32, sub32, ◌>>=◌,
}
use kernel_from_scratch.Chars.{isprint}
use kernel_from_scratch.Memory.{Bytes, load32}
use kernel_from_scratch.Terminal.{Console}
use kernel_from_scratch.Printk.{word, text, print}

-- The memory, and the addresses of `stack_top`, `text_start` and `text_end`.
pub record Image : Type 0 where
  pub memory : Bytes
  pub stack_top : ℕ
  pub text_start : ℕ
  pub text_end : ℕ

abbrev pub is_code_address : Image → ℕ → Bool
is_code_address k value = leb k.text_start value && ltb value k.text_end

-- A byte of memory.
abbrev pub byte_at : Image → ℕ → ℕ
byte_at k p = k.memory p % 256

-- A call of `printk` under an `if` without an `else`.
abbrev pub print_if : Bool → (Console → Option Console) → Console → Option Console
print_if b f c = if b then f c else some c

-- `for (k = i; k < i + n; k++)`
unfoldable pub for_print : ℕ → ℕ → (ℕ → Console → Option Console) → Console → Option Console
for_print zero i body c = some c
for_print (suc n) i body c = do c ← body i c; for_print n (i + 1) body c

-- The loop over `ptr`, with fuel.
unfoldable pub return_loop : ℕ → Image → ℕ → ℕ → ℕ → Console → Option Console
return_loop zero k esp stack_base ptr c = none
return_loop (suc fuel) k esp stack_base ptr c =
    elim (ltb ptr stack_base && ltb ptr (add32 esp 64)) [
      | true ↦ do
        let value = load32 k.memory ptr
        c ←
            print_if (is_code_address k value)
              (print (codes "Possible return address at 0x%x: 0x%x\n") (word ptr ∷ word value ∷ []))
              c
        return_loop fuel k esp stack_base (add32 ptr 4) c
      | false ↦ some c
    ]

-- The loop ends behind 64 bytes.
unfoldable pub print_return_addresses : Image → ℕ → ℕ → Console → Option Console
print_return_addresses k esp stack_base c = do
  c ← print (codes "\nLooking for return addresses...\n") [] c
  return_loop 17 k esp stack_base esp c

-- The three loops of `print_bytes` over the bytes of a row. The first one:
abbrev pub print_hex_byte : Image → ℕ → ℕ → ℕ → Console → Option Console
print_hex_byte k stack_base address i c = do
  c ←
      (if ltb (add32 address i) stack_base
        then print (codes "%02x ") (word (byte_at k (add32 address i)) ∷ []) c
        else print (codes "   ") [] c)
  print_if (i == 7) (print (codes " ") []) c

-- A byte that is printed as itself or as a dot.
abbrev pub shown : ℕ → ℕ
shown b = if isprint b then b else 46

abbrev pub print_ascii_byte : Image → ℕ → ℕ → ℕ → Console → Option Console
print_ascii_byte k stack_base address i c =
    if ltb (add32 address i) stack_base
    then print (codes "%c") (word (shown (byte_at k (add32 address i))) ∷ []) c
    else print (codes " ") [] c

-- `while (length < 16 && ...)`, with the rounds that are left.
unfoldable pub string_length : ℕ → Image → ℕ → ℕ → ℕ → ℕ
string_length zero k stack_base str length = length
string_length (suc rounds) k stack_base str length =
    let later = string_length rounds k stack_base str (length + 1) in
    if ltb (add32 str length) stack_base && isprint (byte_at k (add32 str length))
    then later
    else length

unfoldable pub print_string : Image → ℕ → ℕ → Console → Option Console
print_string k stack_base str c =
    let length = string_length 16 k stack_base str 0 in
    print_if (leb 4 length && (byte_at k (add32 str length) == 0))
      (λ c. do
        c ← print (codes "\"") [] c
        c ← for_print length 0 (λ i. print (codes "%c") (word (byte_at k (add32 str i)) ∷ [])) c
        print (codes "\" ") [] c)
      c

-- One row of the loop over `offset`, behind its `break`.
unfoldable pub print_row : Image → ℕ → ℕ → ℕ → ℕ → Console → Option Console
print_row k esp ebp stack_base address c = do
  c ← print (codes "0x%08x  ") (word address ∷ []) c
  c ← for_print 16 0 (print_hex_byte k stack_base address) c
  c ← print (codes " ") [] c
  c ← for_print 16 0 (print_ascii_byte k stack_base address) c
  c ← print (codes "  ") [] c
  c ← print_if (address == esp) (print (codes "[ESP] ") []) c
  c ← print_if (address == ebp) (print (codes "[EBP] ") []) c
  c ← print_if (address == add32 ebp 4) (print (codes "[Ret Addr] ") []) c
  c ← print_string k stack_base address c
  print (codes "\n") [] c

-- The loop from `offset` on, with the rounds that are left.
unfoldable pub byte_rows : ℕ → Image → ℕ → ℕ → ℕ → ℕ → Console → Option Console
byte_rows zero k esp ebp stack_base offset c = some c
byte_rows (suc rounds) k esp ebp stack_base offset c =
    if leb stack_base (add32 esp offset) then some c else (do
      c ← print_row k esp ebp stack_base (add32 esp offset) c
      byte_rows rounds k esp ebp stack_base (offset + 16) c)

unfoldable pub print_bytes : Image → ℕ → ℕ → ℕ → Console → Option Console
print_bytes k esp ebp stack_base c = do
  c ← print (codes "\n=== Detailed Stack Contents (with ASCII) ===\n") [] c
  c ← print (codes "Addr       Hex Value     ASCII           Notes\n") [] c
  c ← print (codes "---------- ------------  --------------  ----------\n") [] c
  byte_rows 16 k esp ebp stack_base 0 c

-- The array `ascii`, whose last element ends the text.
abbrev pub ascii : ℕ → List ℕ
ascii value =
    shown (value % 2 ^ 8)
    ∷ shown (value / 2 ^ 8 % 2 ^ 8)
    ∷ shown (value / 2 ^ 16 % 2 ^ 8)
    ∷ shown (value / 2 ^ 24 % 2 ^ 8)
    ∷ []

unfoldable pub print_note : Image → ℕ → ℕ → ℕ → ℕ → Console → Option Console
print_note k esp ebp address value c =
    if address == esp
    then print (codes "[ESP] ") [] c
    else if address == ebp
    then print (codes "[EBP] ") [] c
    else if value == ebp
    then print (codes "[Saved EBP from 0x%x] ") (word (sub32 address 4) ∷ []) c
    else print_if (is_code_address k value) (print (codes "[Code ~0x%x] ") (word value ∷ [])) c

-- One round of the loop over `word`.
unfoldable pub print_word : Image → ℕ → ℕ → ℕ → Console → Option Console
print_word k esp ebp address c = do
  let value = load32 k.memory address
  c ← print (codes "0x%08x  0x%08x  ") (word address ∷ word value ∷ []) c
  c ← print_note k esp ebp address value c
  print (codes "'%s'\n") (text (some (ascii value)) ∷ []) c

unfoldable pub word_loop : ℕ → Image → ℕ → ℕ → ℕ → ℕ → Console → Option Console
word_loop zero k esp ebp stack_base address c = some c
word_loop (suc rounds) k esp ebp stack_base address c =
    if ltb address stack_base
    then (do
      c ← print_word k esp ebp address c
      word_loop rounds k esp ebp stack_base (add32 address 4) c)
    else some c

unfoldable pub print_words : Image → ℕ → ℕ → ℕ → Console → Option Console
print_words k esp ebp stack_base c = do
  c ← print (codes "\n=== Word View (for stack frames) ===\n") [] c
  c ← print (codes "Addr       Value        Notes\n") [] c
  c ← print (codes "---------- -----------  --------------------\n") [] c
  word_loop 16 k esp ebp stack_base esp c

unfoldable pub stack_dump : Image → ℕ → ℕ → Console → Option Console
stack_dump k esp ebp c = do
  let stack_base = k.stack_top
  c ← print (codes "=== Kernel Stack Dump ===\n") [] c
  c ←
      print (codes "ESP: 0x%x | EBP: 0x%x | Used: %d bytes\n\n")
        (word esp ∷ word ebp ∷ word (sub32 stack_base esp) ∷ []) c
  c ← print (codes "Stack frame size: %d bytes\n") (word (sub32 ebp esp) ∷ []) c
  c ← print_return_addresses k esp stack_base c
  c ← print_bytes k esp ebp stack_base c
  print_words k esp ebp stack_base c
