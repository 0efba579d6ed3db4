-- ===== src/StackDump/Total.antt =====
-- stack.c: every dump ends, and prints a text that the screen has no part in.
use kernel_from_scratch.Prelude.{
  ℕ, zero, suc, ◌+◌, ◌*◌, ◌^◌, ◌<◌, ◌≤◌, ◌≡◌, refl, arith, Bool, true, ◌&&◌, ltb, leb, ◌==◌, ltb→lt,
  some, [], ◌∷◌, codes, add32, sub32,
}
use kernel_from_scratch.Memory.{load32}
use kernel_from_scratch.Printk.{word, print}
use kernel_from_scratch.Printk.Writes.{
  writes_nil, writes_plain, writes_d, writes_s, writes_x, writes_0x,
}
use kernel_from_scratch.StackDump.{
  Image, is_code_address, byte_at, return_loop, print_return_addresses, print_hex_byte, shown,
  print_ascii_byte, string_length, print_string, print_row, byte_rows, print_bytes, ascii,
  print_note, print_word, word_loop, print_words, stack_dump,
}
use kernel_from_scratch.StackDump.Prints.{
  IsOutput, prints_nothing, prints_then, prints_either, prints_if, prints_format, prints_plain,
  prints_cases, prints_for, prints_char,
}

and_right : (a b : Bool) → (a && b) ≡ true → b ≡ true
and_right a b h = ground arith

load32-bound : (m : ℕ → ℕ) (p : ℕ) → load32 m p < 2 ^ 32
load32-bound m p = omega arith

shown-bound : (b : ℕ) → b < 256 → shown b < 256
shown-bound b h = ground arith

return_line :
    (p v : ℕ)
    → p < 2 ^ 32
    → v < 2 ^ 32
    → IsOutput (print (codes "Possible return address at 0x%x: 0x%x\n") (word p ∷ word v ∷ []))
return_line p v h k = prints_format _ _ _ (
    writes_plain (codes "Possible return address at 0x") _ _ _ refl (
      writes_x p _ _ _ h (
        writes_plain (codes ": 0x") _ _ _ refl
          (writes_x v _ _ _ k (writes_plain (codes "\n") [] [] [] refl (writes_nil [] tt))))))

-- After `j` rounds `ptr` is `esp + 4 * j`, and the bound is passed when `j` is 16.
return_loop-IsOutput :
    (fuel j : ℕ) (k : Image) (esp stack_base ptr : ℕ)
    → esp < 2 ^ 32
    → ptr ≡ esp + 4 * j
    → ptr < 2 ^ 32
    → 17 ≤ j + fuel
    → j ≤ 16
    → IsOutput (return_loop fuel k esp stack_base ptr)
unfolding return_loop
return_loop-IsOutput zero j k esp stack_base ptr h e small enough few =
    absurd (omega (arith, enough, few))
return_loop-IsOutput (suc fuel) j k esp stack_base ptr h e small enough few =
    let value = load32 k.memory ptr in
    prints_cases (ltb ptr stack_base && ltb ptr (add32 esp 64)) _ _
      (λ more.
        let below : ptr < add32 esp 64 =
          ltb→lt ptr (add32 esp 64)
            (and_right (ltb ptr stack_base) (ltb ptr (add32 esp 64)) more) in
        let next : add32 ptr 4 ≡ esp + 4 * suc j = omega (arith, e, below, small, h) in
        prints_then _ (return_loop fuel k esp stack_base (add32 ptr 4))
          (prints_if (is_code_address k value) _
            (return_line ptr value small (load32-bound k.memory ptr)))
          (return_loop-IsOutput fuel (suc j) k esp stack_base (add32 ptr 4) h next (omega arith)
            (omega (arith, enough)) (omega (arith, e, below))))
      (λ over. prints_nothing)

print_return_addresses-IsOutput :
    (k : Image) (esp stack_base : ℕ)
    → esp < 2 ^ 32
    → IsOutput (print_return_addresses k esp stack_base)
unfolding print_return_addresses
print_return_addresses-IsOutput k esp stack_base h =
    prints_then _ _ (prints_plain (codes "\nLooking for return addresses...\n") refl)
      (return_loop-IsOutput 17 0 k esp stack_base esp h (omega arith) h (omega arith) (omega arith))

print_hex_byte-IsOutput :
    (k : Image) (stack_base address i : ℕ) → IsOutput (print_hex_byte k stack_base address i)
print_hex_byte-IsOutput k stack_base address i =
    prints_then _ _
      (prints_either (ltb (add32 address i) stack_base) _ _
        (prints_format _ _ _ (
          writes_0x 2 (byte_at k (add32 address i)) _ _ _ (omega arith) (omega arith)
            (writes_plain (codes " ") [] [] [] refl (writes_nil [] tt))))
        (prints_plain (codes "   ") refl))
      (prints_if (i == 7) _ (prints_plain (codes " ") refl))

print_ascii_byte-IsOutput :
    (k : Image) (stack_base address i : ℕ) → IsOutput (print_ascii_byte k stack_base address i)
print_ascii_byte-IsOutput k stack_base address i =
    prints_either (ltb (add32 address i) stack_base) _ _
      (prints_char (shown (byte_at k (add32 address i)))
        (shown-bound (byte_at k (add32 address i)) (omega arith)))
      (prints_plain (codes " ") refl)

print_string-IsOutput : (k : Image) (stack_base str : ℕ) → IsOutput (print_string k stack_base str)
unfolding print_string
print_string-IsOutput k stack_base str =
    let length : ℕ = string_length 16 k stack_base str 0 in
    prints_if (leb 4 length && (byte_at k (add32 str length) == 0)) _ (
      prints_then _ _ (prints_plain (codes "\"") refl) (
        prints_then _ _
          (prints_for length 0 _ (λ i. prints_char (byte_at k (add32 str i)) (omega arith)))
          (prints_plain (codes "\" ") refl)))

print_row-IsOutput :
    (k : Image) (esp ebp stack_base address : ℕ)
    → address < 2 ^ 32
    → IsOutput (print_row k esp ebp stack_base address)
unfolding print_row
print_row-IsOutput k esp ebp stack_base address h =
    prints_then _ _
      (prints_format _ _ _ (
        writes_plain (codes "0x") _ _ _ refl (
          writes_0x 8 address _ _ _ (omega arith) h
            (writes_plain (codes "  ") [] [] [] refl (writes_nil [] tt)))))
      (prints_then _ _ (prints_for 16 0 _ (print_hex_byte-IsOutput k stack_base address)) (
        prints_then _ _ (prints_plain (codes " ") refl) (
          prints_then _ _ (prints_for 16 0 _ (print_ascii_byte-IsOutput k stack_base address)) (
            prints_then _ _ (prints_plain (codes "  ") refl) (
              prints_then _ _ (prints_if (address == esp) _ (prints_plain (codes "[ESP] ") refl)) (
                prints_then _ _ (prints_if (address == ebp) _ (prints_plain (codes "[EBP] ") refl))
                  (prints_then _ _
                    (prints_if (address == add32 ebp 4) _ (prints_plain (codes "[Ret Addr] ") refl))
                    (prints_then _ _ (print_string-IsOutput k stack_base address)
                      (prints_plain (codes "\n") refl)))))))))

byte_rows-IsOutput :
    (rounds : ℕ) (k : Image) (esp ebp stack_base offset : ℕ)
    → IsOutput (byte_rows rounds k esp ebp stack_base offset)
unfolding byte_rows
byte_rows-IsOutput zero k esp ebp stack_base offset = prints_nothing
byte_rows-IsOutput (suc rounds) k esp ebp stack_base offset =
    prints_either (leb stack_base (add32 esp offset)) _ _ prints_nothing (
      prints_then _ (byte_rows rounds k esp ebp stack_base (offset + 16))
        (print_row-IsOutput k esp ebp stack_base (add32 esp offset) (omega arith))
        (byte_rows-IsOutput rounds k esp ebp stack_base (offset + 16)))

print_bytes-IsOutput :
    (k : Image) (esp ebp stack_base : ℕ) → IsOutput (print_bytes k esp ebp stack_base)
unfolding print_bytes
print_bytes-IsOutput k esp ebp stack_base =
    prints_then _ _ (prints_plain (codes "\n=== Detailed Stack Contents (with ASCII) ===\n") refl) (
      prints_then _ _ (prints_plain (codes "Addr       Hex Value     ASCII           Notes\n") refl)
        (prints_then _ _
          (prints_plain (codes "---------- ------------  --------------  ----------\n") refl)
          (byte_rows-IsOutput 16 k esp ebp stack_base 0)))

print_note-IsOutput :
    (k : Image) (esp ebp address value : ℕ)
    → value < 2 ^ 32
    → IsOutput (print_note k esp ebp address value)
unfolding print_note
print_note-IsOutput k esp ebp address value h =
    prints_either (address == esp) _ _ (prints_plain (codes "[ESP] ") refl) (
      prints_either (address == ebp) _ _ (prints_plain (codes "[EBP] ") refl) (
        prints_either (value == ebp) _ _
          (prints_format _ _ _ (
            writes_plain (codes "[Saved EBP from 0x") _ _ _ refl (
              writes_x (sub32 address 4) _ _ _ (omega arith)
                (writes_plain (codes "] ") [] [] [] refl (writes_nil [] tt)))))
          (prints_if (is_code_address k value) _ (
            prints_format _ _ _ (
              writes_plain (codes "[Code ~0x") _ _ _ refl (
                writes_x value _ _ _ h
                  (writes_plain (codes "] ") [] [] [] refl (writes_nil [] tt))))))))

print_word-IsOutput :
    (k : Image) (esp ebp address : ℕ) → address < 2 ^ 32 → IsOutput (print_word k esp ebp address)
unfolding print_word
print_word-IsOutput k esp ebp address h =
    let value = load32 k.memory address in
    prints_then _ _
      (prints_format _ _ _ (
        writes_plain (codes "0x") _ _ _ refl (
          writes_0x 8 address _ _ _ (omega arith) h (
            writes_plain (codes "  0x") _ _ _ refl (
              writes_0x 8 value _ _ _ (omega arith) (load32-bound k.memory address)
                (writes_plain (codes "  ") [] [] [] refl (writes_nil [] tt)))))))
      (prints_then _ _ (print_note-IsOutput k esp ebp address value (load32-bound k.memory address))
        (prints_format _ _ _ (
          writes_plain (codes "'") _ _ _ refl (
            writes_s (some (ascii value)) _ _ _ (omega arith)
              (writes_plain (codes "'\n") [] [] [] refl (writes_nil [] tt))))))

word_loop-IsOutput :
    (rounds : ℕ) (k : Image) (esp ebp stack_base address : ℕ)
    → address < 2 ^ 32
    → IsOutput (word_loop rounds k esp ebp stack_base address)
unfolding word_loop
word_loop-IsOutput zero k esp ebp stack_base address h = prints_nothing
word_loop-IsOutput (suc rounds) k esp ebp stack_base address h =
    prints_either (ltb address stack_base) _ _
      (prints_then _ (word_loop rounds k esp ebp stack_base (add32 address 4))
        (print_word-IsOutput k esp ebp address h)
        (word_loop-IsOutput rounds k esp ebp stack_base (add32 address 4) (omega arith)))
      prints_nothing

print_words-IsOutput :
    (k : Image) (esp ebp stack_base : ℕ)
    → esp < 2 ^ 32
    → IsOutput (print_words k esp ebp stack_base)
unfolding print_words
print_words-IsOutput k esp ebp stack_base h =
    prints_then _ _ (prints_plain (codes "\n=== Word View (for stack frames) ===\n") refl) (
      prints_then _ _ (prints_plain (codes "Addr       Value        Notes\n") refl) (
        prints_then _ _ (prints_plain (codes "---------- -----------  --------------------\n") refl)
          (word_loop-IsOutput 16 k esp ebp stack_base esp h)))

-- For any memory, any addresses that the linker defines, and any `esp` and `ebp` below 2 ^ 32,
-- aligned or not, on the stack or not, `stack_dump` ends: there is a text, the same one for every
-- screen, that it puts on the current screen, and it does nothing else.
pub stack_dump-IsOutput :
    (k : Image) (esp ebp : ℕ) → esp < 2 ^ 32 → ebp < 2 ^ 32 → IsOutput (stack_dump k esp ebp)
unfolding stack_dump
stack_dump-IsOutput k esp ebp h b =
    let stack_base = k.stack_top in
    prints_then _ _ (prints_plain (codes "=== Kernel Stack Dump ===\n") refl) (
      prints_then _ _
        (prints_format _ _ _ (
          writes_plain (codes "ESP: 0x") _ _ _ refl (
            writes_x esp _ _ _ h (
              writes_plain (codes " | EBP: 0x") _ _ _ refl (
                writes_x ebp _ _ _ b (
                  writes_plain (codes " | Used: ") _ _ _ refl (
                    writes_d (sub32 stack_base esp) _ _ _ (omega arith)
                      (writes_plain (codes " bytes\n\n") [] [] [] refl (writes_nil [] tt)))))))))
        (prints_then _ _
          (prints_format _ _ _ (
            writes_plain (codes "Stack frame size: ") _ _ _ refl (
              writes_d (sub32 ebp esp) _ _ _ (omega arith)
                (writes_plain (codes " bytes\n") [] [] [] refl (writes_nil [] tt)))))
          (prints_then _ _ (print_return_addresses-IsOutput k esp stack_base h) (
            prints_then _ _ (print_bytes-IsOutput k esp ebp stack_base)
              (print_words-IsOutput k esp ebp stack_base h)))))
