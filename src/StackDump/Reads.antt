-- ===== src/StackDump/Reads.antt =====
-- stack.c: which bytes a dump depends on.
use kernel_from_scratch.Prelude.{
  ℕ, zero, suc, ◌+◌, ◌%◌, ◌^◌, ◌<◌, ◌≤◌, ◌≡◌, refl, ap, ◌∙◌, arith, ◌&&◌, ltb, leb, ◌==◌, ltb→lt,
  if_elim, Bool-cases, inl, inr, Option, some, [], ◌∷◌, codes, add32, sub32, ◌>>=◌,
}
use kernel_from_scratch.Chars.{isprint}
use kernel_from_scratch.Memory.{Bytes, load32}
use kernel_from_scratch.Terminal.{Console}
use kernel_from_scratch.Printk.{word, text, print}
use kernel_from_scratch.StackDump.{
  Image, is_code_address, byte_at, print_if, for_print, return_loop, print_return_addresses,
  print_hex_byte, shown, print_ascii_byte, string_length, print_string, print_row, byte_rows,
  print_bytes, ascii, print_note, print_word, word_loop, print_words, stack_dump,
}
use kernel_from_scratch.StackDump.Same.{
  then_same, first_same, either_same, cases_same, for_print_same, and_left,
}

-- A dump of the image `k`, and one of the same image with another memory that is the same from
-- `esp` to the top of the stack, with the word that may begin there.
module _ (k : Image) (m : Bytes) (esp : ℕ) (fits : k.stack_top + 16 ≤ 2 ^ 32)
    (same : (p : ℕ) → esp ≤ p → p < k.stack_top + 4 → m p ≡ k.memory p) where
  abbrev other : Image
  other = record k { memory = m }

  load32_same : (p : ℕ) → esp ≤ p → p < k.stack_top → load32 m p ≡ load32 k.memory p
  load32_same p h l =
      let here : m p ≡ k.memory p = same p h (omega (arith, l)) in
      let at1 : m (add32 p 1) ≡ k.memory (add32 p 1) =
        same (add32 p 1) (omega (arith, h, l, fits)) (omega (arith, h, l, fits)) in
      let at2 : m (add32 p 2) ≡ k.memory (add32 p 2) =
        same (add32 p 2) (omega (arith, h, l, fits)) (omega (arith, h, l, fits)) in
      let at3 : m (add32 p 3) ≡ k.memory (add32 p 3) =
        same (add32 p 3) (omega (arith, h, l, fits)) (omega (arith, h, l, fits)) in
      rw (here, at1, at2, at3) refl

  byte_same : (p : ℕ) → esp ≤ p → p < k.stack_top + 4 → byte_at other p ≡ byte_at k p
  byte_same p h l = ap (λ b. b % 256) (same p h l)

  return_loop_same :
      (fuel ptr : ℕ) (c : Console)
      → esp ≤ ptr
      → return_loop fuel other esp k.stack_top ptr c ≡ return_loop fuel k esp k.stack_top ptr c
  unfolding return_loop
  return_loop_same zero ptr c h = refl
  return_loop_same (suc fuel) ptr c h =
      cases_same (ltb ptr k.stack_top && ltb ptr (add32 esp 64)) _ _ (some c) (λ more.
        let below : ptr < k.stack_top = ltb→lt ptr k.stack_top (and_left _ _ more) in
        then_same _ _ (return_loop fuel other esp k.stack_top (add32 ptr 4))
          (return_loop fuel k esp k.stack_top (add32 ptr 4))
          (ap
            (λ v.
              print_if (is_code_address k v)
                (print (codes "Possible return address at 0x%x: 0x%x\n") (word ptr ∷ word v ∷ []))
                c)
            (load32_same ptr h below))
          (λ c. return_loop_same fuel (add32 ptr 4) c (omega (arith, h, below, fits))))

  print_hex_byte_same :
      (address i : ℕ) (c : Console)
      → esp ≤ address
      → address < k.stack_top
      → i < 16
      → print_hex_byte other k.stack_top address i c ≡ print_hex_byte k k.stack_top address i c
  print_hex_byte_same address i c h l small =
      then_same _ _ _ (print_if (i == 7) (print (codes " ") []))
        (either_same (ltb (add32 address i) k.stack_top) _ _ _ (λ below.
          ap (λ b. print (codes "%02x ") (word b ∷ []) c)
            (byte_same (add32 address i) (omega (arith, h, l, small, fits))
              (omega (arith, ltb→lt (add32 address i) k.stack_top below)))))
        (λ c. refl)

  print_ascii_byte_same :
      (address i : ℕ) (c : Console)
      → esp ≤ address
      → address < k.stack_top
      → i < 16
      → print_ascii_byte other k.stack_top address i c ≡ print_ascii_byte k k.stack_top address i c
  print_ascii_byte_same address i c h l small =
      either_same (ltb (add32 address i) k.stack_top) _ _ _ (λ below.
        ap (λ b. print (codes "%c") (word (shown b) ∷ []) c)
          (byte_same (add32 address i) (omega (arith, h, l, small, fits))
            (omega (arith, ltb→lt (add32 address i) k.stack_top below))))

  -- The text that is looked for ends at the top at the latest, and is the same.
  string_length_same :
      (rounds str length : ℕ)
      → esp ≤ str
      → str + length ≤ k.stack_top
      → length + rounds ≤ 16
      → let n = string_length rounds k k.stack_top str length in
        (string_length rounds other k.stack_top str length ≡ n) × (str + n ≤ k.stack_top)
  unfolding string_length
  string_length_same zero str length h l e = (refl, l)
  string_length_same (suc rounds) str length h l e =
      elim (Bool-cases (ltb (add32 str length) k.stack_top)) [
        | inl below ↦
            let b = ltb→lt (add32 str length) k.stack_top below in
            let byte =
              byte_same (add32 str length) (omega (arith, h, l, fits)) (omega (arith, b)) in
            let (later, bound) =
              string_length_same rounds str (length + 1) h (omega (arith, l, b, fits))
                (omega (arith, e)) in
            elim (Bool-cases (isprint (byte_at k (add32 str length)))) [
              | inl printable ↦ rw (below, byte, printable) (later, bound)
              | inr stops ↦ rw (below, byte, stops) (refl, l)
            ]
        | inr above ↦ rw above (refl, l)
      ]

  -- What `print_string` prints for the length `n`.
  abbrev quote : Image → ℕ → ℕ → Console → Option Console
  quote j str n c = do
    c ← print (codes "\"") [] c
    c ← for_print n 0 (λ i. print (codes "%c") (word (byte_at j (add32 str i)) ∷ [])) c
    print (codes "\" ") [] c

  abbrev quoted_string : Image → ℕ → ℕ → Console → Option Console
  quoted_string j str n c = print_if (leb 4 n && (byte_at j (add32 str n) == 0)) (quote j str n) c

  print_string_same :
      (str : ℕ) (c : Console)
      → esp ≤ str
      → str < k.stack_top
      → print_string other k.stack_top str c ≡ print_string k k.stack_top str c
  unfolding print_string
  print_string_same str c h l =
      let n = string_length 16 k k.stack_top str 0 in
      let (count, bound) = string_length_same 16 str 0 h (omega (arith, l)) (omega arith) in
      let end : byte_at other (add32 str n) ≡ byte_at k (add32 str n) =
        byte_same (add32 str n) (omega (arith, h, bound, fits)) (omega (arith, bound, fits)) in
      ap (λ n. quoted_string other str n c) count
      ∙ ap (λ b. print_if (leb 4 n && (b == 0)) (quote other str n) c) end
      ∙ either_same (leb 4 n && (byte_at k (add32 str n) == 0)) _ _ (some c) (λ e.
        then_same (print (codes "\"") [] c) _ _ _ refl (λ c.
          then_same _ _ (print (codes "\" ") []) (print (codes "\" ") [])
            (for_print_same n 0 _ _ c (λ i small c.
              ap (λ b. print (codes "%c") (word b ∷ []) c)
                (byte_same (add32 str i) (omega (arith, h, small, bound, fits))
                  (omega (arith, small, bound, fits)))))
            (λ c. refl)))

  print_row_same :
      (ebp address : ℕ) (c : Console)
      → esp ≤ address
      → address < k.stack_top
      → print_row other esp ebp k.stack_top address c ≡ print_row k esp ebp k.stack_top address c
  unfolding print_row
  print_row_same ebp address c h l =
      first_same (print (codes "0x%08x  ") (word address ∷ [])) _ _
        (λ c.
          then_same _ _ _ _
            (for_print_same 16 0 _ _ c (λ i small c. print_hex_byte_same address i c h l small))
            (first_same (print (codes " ") []) _ _ (λ c.
              then_same _ _ _ _
                (for_print_same 16 0 _ _ c
                  (λ i small c. print_ascii_byte_same address i c h l small))
                (first_same (print (codes "  ") []) _ _ (
                  first_same (print_if (address == esp) (print (codes "[ESP] ") [])) _ _ (
                    first_same (print_if (address == ebp) (print (codes "[EBP] ") [])) _ _ (
                      first_same
                        (print_if (address == add32 ebp 4) (print (codes "[Ret Addr] ") [])) _ _
                        (λ c.
                          then_same _ _ (print (codes "\n") []) (print (codes "\n") [])
                            (print_string_same address c h l) (λ c. refl)))))))))
        c

  byte_rows_same :
      (rounds ebp offset : ℕ) (c : Console)
      → esp + offset < 2 ^ 32
      → byte_rows rounds other esp ebp k.stack_top offset c
        ≡ byte_rows rounds k esp ebp k.stack_top offset c
  unfolding byte_rows
  byte_rows_same zero ebp offset c h = refl
  byte_rows_same (suc rounds) ebp offset c h =
      if_elim (λ (x : Option Console). x ≡ byte_rows (suc rounds) k esp ebp k.stack_top offset c)
        (leb k.stack_top (add32 esp offset)) (λ e. rw e refl)
        (λ e.
          let below : add32 esp offset < k.stack_top = ground (arith, e) in
          rw e (
            then_same _ _ (byte_rows rounds other esp ebp k.stack_top (offset + 16))
              (byte_rows rounds k esp ebp k.stack_top (offset + 16))
              (print_row_same ebp (add32 esp offset) c (omega (arith, h)) below)
              (λ c. byte_rows_same rounds ebp (offset + 16) c (omega (arith, h, below, fits)))))

  print_word_same :
      (ebp address : ℕ) (c : Console)
      → esp ≤ address
      → address < k.stack_top
      → print_word other esp ebp address c ≡ print_word k esp ebp address c
  unfolding print_word print_note
  print_word_same ebp address c h l =
      ap
        (λ v. do
          c ← print (codes "0x%08x  0x%08x  ") (word address ∷ word v ∷ []) c
          c ← print_note k esp ebp address v c
          print (codes "'%s'\n") (text (some (ascii v)) ∷ []) c)
        (load32_same address h l)

  word_loop_same :
      (rounds ebp address : ℕ) (c : Console)
      → esp ≤ address
      → word_loop rounds other esp ebp k.stack_top address c
        ≡ word_loop rounds k esp ebp k.stack_top address c
  unfolding word_loop
  word_loop_same zero ebp address c h = refl
  word_loop_same (suc rounds) ebp address c h =
      either_same (ltb address k.stack_top) _ _ (some c) (λ e.
        let below : address < k.stack_top = ltb→lt address k.stack_top e in
        then_same _ _ (word_loop rounds other esp ebp k.stack_top (add32 address 4))
          (word_loop rounds k esp ebp k.stack_top (add32 address 4))
          (print_word_same ebp address c h below)
          (λ c. word_loop_same rounds ebp (add32 address 4) c (omega (arith, h, below, fits))))

  print_return_addresses_same :
      (c : Console)
      → print_return_addresses other esp k.stack_top c ≡ print_return_addresses k esp k.stack_top c
  unfolding print_return_addresses
  print_return_addresses_same c =
      first_same (print (codes "\nLooking for return addresses...\n") []) _ _
        (λ c. return_loop_same 17 esp c (omega arith)) c

  print_bytes_same :
      (ebp : ℕ) (c : Console)
      → esp < 2 ^ 32
      → print_bytes other esp ebp k.stack_top c ≡ print_bytes k esp ebp k.stack_top c
  unfolding print_bytes
  print_bytes_same ebp c h =
      first_same (print (codes "\n=== Detailed Stack Contents (with ASCII) ===\n") []) _ _
        (first_same (print (codes "Addr       Hex Value     ASCII           Notes\n") []) _ _ (
          first_same (print (codes "---------- ------------  --------------  ----------\n") []) _ _
            (λ c. byte_rows_same 16 ebp 0 c (omega (arith, h)))))
        c

  print_words_same :
      (ebp : ℕ) (c : Console)
      → print_words other esp ebp k.stack_top c ≡ print_words k esp ebp k.stack_top c
  unfolding print_words
  print_words_same ebp c =
      first_same (print (codes "\n=== Word View (for stack frames) ===\n") []) _ _
        (first_same (print (codes "Addr       Value        Notes\n") []) _ _ (
          first_same (print (codes "---------- -----------  --------------------\n") []) _ _
            (λ c. word_loop_same 16 ebp esp c (omega arith))))
        c

  -- If the top of the stack is 16 bytes below the end of the addresses at least, a dump from a
  -- 32-bit `esp` depends on no byte of the memory below `esp`, and on none beyond the top but the
  -- first four: with any other memory that has the same bytes in between, the same is printed.
  pub stack_dump_same :
      (ebp : ℕ) (c : Console)
      → esp < 2 ^ 32
      → stack_dump (record k { memory = m }) esp ebp c ≡ stack_dump k esp ebp c
  unfolding stack_dump
  stack_dump_same ebp c h =
      first_same (print (codes "=== Kernel Stack Dump ===\n") []) _ _
        (first_same
          (print (codes "ESP: 0x%x | EBP: 0x%x | Used: %d bytes\n\n")
            (word esp ∷ word ebp ∷ word (sub32 k.stack_top esp) ∷ []))
          _ _
          (first_same (print (codes "Stack frame size: %d bytes\n") (word (sub32 ebp esp) ∷ [])) _ _
            (λ c.
              then_same _ _ _ _ (print_return_addresses_same c)
                (λ c. then_same _ _ _ _ (print_bytes_same ebp c h) (λ c. print_words_same ebp c)))))
        c
