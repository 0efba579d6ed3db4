-- ===== src/Tests/PrintkTests.antt =====
-- Instances of the theorems about printk.c, multiboot.c and stack.c.
use kernel_from_scratch.Prelude.{
  ◌-◌, ◌^◌, ◌%◌, ◌≤◌, ◌≡◌, ltb, if◌then◌else◌, refl, arith, true, false, some, List, [], ◌∷◌, codes,
  get_or, length, inl, inr, ◌>>=◌,
}
use kernel_from_scratch.Chars.{isdigit}
use kernel_from_scratch.Numerals.{decimal}
use kernel_from_scratch.Memory.{Bytes}
use kernel_from_scratch.Terminal.Put.{put_chars}
use kernel_from_scratch.Printk.{Args, word, text, printk, digits_do, digits_while, hex_while}
use kernel_from_scratch.Printk.Text.{
  Flags, Piece, plain, directive, unknown, conv_d, conv_s, pieces_format, pieces_text, IsFlags,
  IsPiece,
}
use kernel_from_scratch.Printk.Correct.{printk-pieces_text}
use kernel_from_scratch.Printk.Bounds.{digits-bound}
use kernel_from_scratch.Multiboot.{MultibootInfo, MmapEntry, print_multiboot_info}
use kernel_from_scratch.Multiboot.Entries.{info_text, print_multiboot_info-info_text}
use kernel_from_scratch.StackDump.{Image, stack_dump}
use kernel_from_scratch.StackDump.Prints.{IsOutput}
use kernel_from_scratch.StackDump.Reads.{stack_dump_same}
use kernel_from_scratch.Shell.Lines.{if_else}
use kernel_from_scratch.StackDump.Total.{stack_dump-IsOutput}
use kernel_from_scratch.Tests.TerminalTests.{abc}

-- `%05d`, `%s`, and the unknown `%3z`.
abbrev five : Flags
five = record { padded_by_zero = true; digits = 53 ∷ []; is_long = false }

abbrev none_given : Flags
none_given = record { padded_by_zero = false; digits = []; is_long = false }

abbrev three : Flags
three = record { padded_by_zero = false; digits = 51 ∷ []; is_long = false }

abbrev pieces : List Piece
pieces = directive five conv_d ∷ plain 32 ∷ directive none_given conv_s ∷ unknown three 122 ∷ []

abbrev minus_seven : Args
minus_seven = word (2 ^ 32 - 7) ∷ text (some (codes "ok")) ∷ []

format-pieces : pieces_format pieces ≡ codes "%05d %s%3z"
format-pieces = refl

text-pieces : pieces_text pieces minus_seven ≡ some (codes "-0007 ok%3z")
unfolding pieces_text decimal
text-pieces = refl

none_given-IsFlags : IsFlags none_given
none_given-IsFlags = record { digits = tt; no_flag = inr (λ e. omega arith); small = omega arith }

unknown-IsPiece : IsPiece (unknown three 122)
unfolding isdigit
unknown-IsPiece = (
  record {
    digits = (omega arith, omega arith, tt);
    no_flag = inr (λ e. omega arith);
    small = omega arith;
  },
  refl,
  refl,
  λ e. omega arith,
  omega arith,
)

printk-pieces_text_example :
    printk (codes "%05d %s%3z") minus_seven abc
    ≡ (do t ← pieces_text pieces minus_seven; some (length t % 2 ^ 64, put_chars t abc))
printk-pieces_text_example =
    printk-pieces_text pieces minus_seven abc
      (
        record { digits = (omega arith, omega arith, tt); no_flag = inl refl; small = omega arith },
        ((λ e. omega arith, omega arith), (none_given-IsFlags, (unknown-IsPiece, tt))),
      )
      (omega arith, (omega arith, tt))

digits-bound_example :
    (length (digits_do 30 4294967295 []) ≤ 10)
    × (length (digits_while 30 4294967295 []) ≤ 10)
    × (length (hex_while 30 18446744073709551615 []) ≤ 16)
digits-bound_example = digits-bound 30 4294967295 18446744073709551615 (omega arith) (omega arith)

-- One entry of 20 bytes behind its size, at the address 4096: 640 KiB from 0 on, available.
abbrev map_memory : Bytes
map_memory p =
    get_or
      (20 ∷ 0 ∷ 0 ∷ 0 ∷ 0 ∷ 0 ∷ 0 ∷ 0 ∷ 0 ∷ 0 ∷ 0 ∷ 0 ∷ 0 ∷ 0 ∷ 10 ∷ 0 ∷ 0 ∷ 0 ∷ 0 ∷ 0 ∷ 1 ∷ 0 ∷ 0
        ∷ 0 ∷ [])
      (p - 4096) 0

abbrev available : MmapEntry
available = record { size = 20; base_addr = 0; length = 655360; kind = 1 }

abbrev pub info : MultibootInfo
info = record {
  flags = 0x41;
  mem_lower = 640;
  mem_upper = 4194303;
  mmap_length = 24;
  mmap_addr = 4096;
}

print_multiboot_info-info_text_example :
    print_multiboot_info 2 map_memory info abc
    ≡ some (put_chars (info_text info (available ∷ [])) abc)
print_multiboot_info-info_text_example =
    print_multiboot_info-info_text 2 map_memory info (available ∷ []) abc (omega arith)
      (omega arith) (omega arith) (omega arith) (refl, omega arith, refl)

abbrev pub image : Image
image = record {
  memory = λ p. p % 256;
  stack_top = 2097152;
  text_start = 1048576;
  text_end = 1114112;
}

stack_dump-IsOutput_example : IsOutput (stack_dump image 2097000 2097040)
stack_dump-IsOutput_example = stack_dump-IsOutput image 2097000 2097040 (omega arith) (omega arith)

-- The same stack, with zeros below it.
abbrev zeros_below : Bytes
zeros_below p = if ltb p 2097000 then 0 else p % 256

stack_dump_same_example :
    stack_dump (record image { memory = zeros_below }) 2097000 2097040 abc
    ≡ stack_dump image 2097000 2097040 abc
stack_dump_same_example =
    stack_dump_same image zeros_below 2097000 (omega arith)
      (λ p h l. if_else (ltb p 2097000) 0 (p % 256) (ground (arith, h))) 2097040 abc (omega arith)
