-- ===== src/Multiboot/Entries.antt =====
-- boot/multiboot.c: the text that the boot loader's information prints as.
use Prim.Native.Nat.{bit_and}
use kernel_from_scratch.Prelude.{
  ℕ, zero, suc, ◌+◌, ◌*◌, ◌/◌, ◌%◌, ◌^◌, ◌<◌, ◌≤◌, ◌≡◌, refl, sym, ap, ◌∙◌, arith, true, false,
  ◌==◌, ltb, if◌then◌else◌, Bool-cases, inl, inr, Option, some, List, [], ◌∷◌, ◌++◌, length, codes,
  add32,
}
use kernel_from_scratch.Numerals.{hex_text}
use kernel_from_scratch.Memory.{Bytes}
use kernel_from_scratch.Terminal.{Console}
use kernel_from_scratch.Terminal.Put.{put_chars}
use kernel_from_scratch.Terminal.Sequence.{put_chars-append, put_chars-nil}
use kernel_from_scratch.Printk.{word, print}
use kernel_from_scratch.Printk.Text.{signed, join}
use kernel_from_scratch.Printk.Writes.{
  all_plain, print-IsWritten, writes_nil, writes_plain, writes_d, writes_d_long, writes_s,
  writes_llx,
}
use kernel_from_scratch.Multiboot.{
  MultibootInfo, MmapEntry, load_entry, type_name, print_entry, print_map, print_memory,
  print_memory_map, print_multiboot_info,
}

abbrev pub amount_text : List ℕ → ℕ → List ℕ
amount_text name kib = join (
    name
    ∷ codes " memory: "
    ∷ signed kib
    ∷ codes " KiB ("
    ∷ signed (kib * 1024 % 2 ^ 32)
    ∷ codes " bytes)\n"
    ∷ [])

-- The length is printed by its low 32 bits, as a signed number.
abbrev pub entry_text : MmapEntry → List ℕ
entry_text e = join (
    type_name e.kind
    ∷ codes " memory: 0x"
    ∷ hex_text e.base_addr
    ∷ codes " - 0x"
    ∷ hex_text ((e.base_addr + e.length) % 2 ^ 64)
    ∷ codes " ("
    ∷ signed (e.length % 2 ^ 32)
    ∷ codes " bytes)\n"
    ∷ [])

abbrev pub entries_text : List MmapEntry → List ℕ
entries_text [] = []
entries_text (e ∷ es) = entry_text e ++ entries_text es

abbrev pub info_text : MultibootInfo → List MmapEntry → List ℕ
info_text mbi es =
    (if bit_and mbi.flags 0x01 == 0
      then []
      else amount_text (codes "Lower") mbi.mem_lower ++ amount_text (codes "Upper") mbi.mem_upper)
    ++ (if bit_and mbi.flags 0x40 == 0
        then []
        else codes "Memory map entries:\n" ++ entries_text es)

-- The entries lie one behind the other from `current` up to `end`.
abbrev pub MapAt : Bytes → ℕ → ℕ → List MmapEntry → Type 0
MapAt m current end [] = current ≡ end
MapAt m current end (e ∷ es) =
    (load_entry m current ≡ e)
    × (current + e.size + 4 ≤ end)
    × MapAt m (current + e.size + 4) end es

type_name-short : (kind : ℕ) → length (type_name kind) < 2 ^ 32
type_name-short kind = ground arith

load32-bound : (m : Bytes) (p : ℕ) → (load_entry m p).size < 2 ^ 32
load32-bound m p = omega arith

print_entry-text :
    (e : MmapEntry) (c : Console)
    → e.base_addr < 2 ^ 64
    → e.length < 2 ^ 64
    → print_entry (type_name e.kind) e.base_addr e.length c ≡ some (put_chars (entry_text e) c)
unfolding print_entry
print_entry-text e c b z = print-IsWritten _ _ _ c (
    writes_s (some (type_name e.kind)) _ _ _ (type_name-short e.kind) (
      writes_plain (codes " memory: 0x") _ _ _ refl (
        writes_llx e.base_addr _ _ _ b (
          writes_plain (codes " - 0x") _ _ _ refl (
            writes_llx ((e.base_addr + e.length) % 2 ^ 64) _ _ _ (omega arith) (
              writes_plain (codes " (") _ _ _ refl (
                writes_d_long e.length _ _ _ z (
                  writes_plain (codes " bytes)\n") [] _ [] refl
                    (writes_nil (word (e.length / 2 ^ 32) ∷ []) (omega arith, tt))))))))))

print_amount-text :
    (name : List ℕ) (kib : ℕ) (c : Console)
    → all_plain name ≡ true
    → kib < 2 ^ 32
    → print
        (name ++ codes " memory: %d KiB (%d bytes)\n")
        (word kib ∷ word (kib * 1024 % 2 ^ 32) ∷ [])
        c
      ≡ some (put_chars (amount_text name kib) c)
print_amount-text name kib c p h = print-IsWritten _ _ _ c (
    writes_plain name _ _ _ p (
      writes_plain (codes " memory: ") _ _ _ refl (
        writes_d kib _ _ _ h (
          writes_plain (codes " KiB (") _ _ _ refl (
            writes_d (kib * 1024 % 2 ^ 32) _ _ _ (omega arith)
              (writes_plain (codes " bytes)\n") [] _ [] refl (writes_nil [] tt)))))))

print_map-entries_text :
    (fuel : ℕ) (m : Bytes) (current end : ℕ) (es : List MmapEntry) (c : Console)
    → length es < fuel
    → end < 2 ^ 32
    → MapAt m current end es
    → print_map fuel m current end c ≡ some (put_chars (entries_text es) c)
unfolding print_map
print_map-entries_text zero m current end es c h k w = absurd (omega (arith, h))
print_map-entries_text (suc fuel) m current end [] c h k w =
    let over : ltb current end ≡ false = ground (arith, w) in
    rw (over, print_map) (ap some (sym (put_chars-nil c)))
print_map-entries_text (suc fuel) m current end (e ∷ es) c h k (at, fits, more) =
    let there : ltb current end ≡ true = ground (arith, fits) in
    let next : add32 current (add32 (load_entry m current).size 4) ≡ current + e.size + 4 =
      ap (λ x. add32 current (add32 x.size 4)) at ∙ omega (arith, fits, k) in
    let text : ◌≡◌ {A = Option Console}
        (print_entry (type_name (load_entry m current).kind) (load_entry m current).base_addr
          (load_entry m current).length c)
        (some (put_chars (entry_text e) c)) =
      print_entry-text (load_entry m current) c (omega arith) (omega arith)
      ∙ ap (λ x. some (put_chars (entry_text x) c)) at in
    let rest =
      print_map-entries_text fuel m (current + e.size + 4) end es (put_chars (entry_text e) c)
        (omega (arith, h)) k more in
    rw (there, print_map)
      (rw (text, next, rest) (ap some (sym (put_chars-append (entry_text e) (entries_text es) c))))

print_memory-text :
    (mbi : MultibootInfo) (c : Console)
    → mbi.mem_lower < 2 ^ 32
    → mbi.mem_upper < 2 ^ 32
    → print_memory mbi c
      ≡ some (
          put_chars
            (if bit_and mbi.flags 0x01 == 0
              then []
              else amount_text (codes "Lower") mbi.mem_lower
                ++ amount_text (codes "Upper") mbi.mem_upper)
            c)
unfolding print_memory
print_memory-text mbi c l u = elim (Bool-cases (bit_and mbi.flags 0x01 == 0)) [
  | inl off ↦ rw off (ap some (sym (put_chars-nil c)))
  | inr on ↦
      let lower = print_amount-text (codes "Lower") mbi.mem_lower c refl l in
      let upper =
        print_amount-text (codes "Upper") mbi.mem_upper
          (put_chars (amount_text (codes "Lower") mbi.mem_lower) c) refl u in
      rw (on, lower, upper)
        (ap some (
          sym (
            put_chars-append (amount_text (codes "Lower") mbi.mem_lower)
              (amount_text (codes "Upper") mbi.mem_upper) c)))
]

print_memory_map-text :
    (fuel : ℕ) (m : Bytes) (mbi : MultibootInfo) (es : List MmapEntry) (c : Console)
    → length es < fuel
    → mbi.mmap_addr + mbi.mmap_length < 2 ^ 32
    → MapAt m mbi.mmap_addr (mbi.mmap_addr + mbi.mmap_length) es
    → print_memory_map fuel m mbi c
      ≡ some (
          put_chars
            (if bit_and mbi.flags 0x40 == 0
              then []
              else codes "Memory map entries:\n" ++ entries_text es)
            c)
unfolding print_memory_map
print_memory_map-text fuel m mbi es c h k w = elim (Bool-cases (bit_and mbi.flags 0x40 == 0)) [
  | inl off ↦ rw off (ap some (sym (put_chars-nil c)))
  | inr on ↦
      let title : List ℕ = codes "Memory map entries:\n" in
      let titled : print title [] c ≡ some (put_chars title c) =
        print-IsWritten title [] title c (writes_plain title [] [] [] refl (writes_nil [] tt)) in
      let end : add32 mbi.mmap_addr mbi.mmap_length ≡ mbi.mmap_addr + mbi.mmap_length =
        omega (arith, k) in
      let printed =
        print_map-entries_text fuel m mbi.mmap_addr (mbi.mmap_addr + mbi.mmap_length) es
          (put_chars title c) h k w in
      rw (on, titled, end, printed) (ap some (sym (put_chars-append title (entries_text es) c)))
]

-- For any fields below 2 ^ 32 and any memory in which the entries of the memory map lie one behind
-- the other, each with its size and the four bytes of it, and end where the map ends, below 2 ^ 32:
-- with fuel for the entries and one more, `print_multiboot_info` ends, and has put exactly the
-- lines of the two amounts of memory, if their flag is set, and the title and one line for each
-- entry in order, if the flag of the map is set.
pub print_multiboot_info-info_text :
    (fuel : ℕ) (m : Bytes) (mbi : MultibootInfo) (es : List MmapEntry) (c : Console)
    → length es < fuel
    → mbi.mem_lower < 2 ^ 32
    → mbi.mem_upper < 2 ^ 32
    → mbi.mmap_addr + mbi.mmap_length < 2 ^ 32
    → MapAt m mbi.mmap_addr (mbi.mmap_addr + mbi.mmap_length) es
    → print_multiboot_info fuel m mbi c ≡ some (put_chars (info_text mbi es) c)
unfolding print_multiboot_info
print_multiboot_info-info_text fuel m mbi es c h l u k w =
    let memory : List ℕ =
      if bit_and mbi.flags 0x01 == 0
      then []
      else amount_text (codes "Lower") mbi.mem_lower ++ amount_text (codes "Upper") mbi.mem_upper in
    let map : List ℕ =
      if bit_and mbi.flags 0x40 == 0
      then []
      else codes "Memory map entries:\n" ++ entries_text es in
    rw (print_memory-text mbi c l u, print_memory_map-text fuel m mbi es (put_chars memory c) h k w)
      (ap some (sym (put_chars-append memory map c)))
