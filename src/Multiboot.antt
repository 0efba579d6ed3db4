-- ===== src/Multiboot.antt =====
-- boot/multiboot.c: what the boot loader says about the memory. The structure that the loader hands
-- over is the record of the fields that are read; the memory map is read from the bytes at its
-- address, with the offsets of the i386 ABI.
pub mod Entries
use Prim.Native.Nat.{bit_and}
use kernel_from_scratch.Prelude.{
  ℕ, zero, suc, ◌+◌, ◌*◌, ◌%◌, ◌^◌, true, false, not, ◌==◌, ltb, if◌then◌else◌, Option, none, some,
  List, [], ◌∷◌, codes, add32, ◌>>=◌,
}
use kernel_from_scratch.Memory.{Bytes, load32, load64}
use kernel_from_scratch.Terminal.{Console}
use kernel_from_scratch.Printk.{word, long_word, text, print}

pub record MultibootInfo : Type 0 where
  pub flags : ℕ
  pub mem_lower : ℕ
  pub mem_upper : ℕ
  pub mmap_length : ℕ
  pub mmap_addr : ℕ

pub data MultibootMemMapType : Type 0 where
  available reserved acpi_reclaimable nvs badram : MultibootMemMapType

abbrev pub mem_map_type : MultibootMemMapType → ℕ
mem_map_type available = 1
mem_map_type reserved = 2
mem_map_type acpi_reclaimable = 3
mem_map_type nvs = 4
mem_map_type badram = 5

-- The type is any number here, as it stands in memory.
pub record MmapEntry : Type 0 where
  pub size : ℕ
  pub base_addr : ℕ
  pub length : ℕ
  pub kind : ℕ

abbrev pub load_entry : Bytes → ℕ → MmapEntry
load_entry m p = record {
  size = load32 m p;
  base_addr = load64 m (add32 p 4);
  length = load64 m (add32 p 12);
  kind = load32 m (add32 p 20);
}

abbrev pub type_name : ℕ → List ℕ
type_name kind =
    if kind == mem_map_type available
    then codes "Available"
    else if kind == mem_map_type reserved
    then codes "Reserved"
    else if kind == mem_map_type acpi_reclaimable
    then codes "ACPI Reclaimable"
    else if kind == mem_map_type nvs
    then codes "NVS"
    else if kind == mem_map_type badram
    then codes "Bad RAM"
    else codes "Unknown"

-- `%d` is given the 64 bits of the length.
unfoldable pub print_entry : List ℕ → ℕ → ℕ → Console → Option Console
print_entry type base length c =
    let end = (base + length) % 2 ^ 64 in
    print (codes "%s memory: 0x%llx - 0x%llx (%d bytes)\n")
      (text (some type) ∷ long_word base ∷ long_word end ∷ long_word length ∷ []) c

-- The loop over the memory map, with fuel.
unfoldable pub print_map : ℕ → Bytes → ℕ → ℕ → Console → Option Console
print_map zero m current end c = none
print_map (suc fuel) m current end c = elim (ltb current end) [
  | true ↦ do
    let entry = load_entry m current
    c ← print_entry (type_name entry.kind) entry.base_addr entry.length c
    print_map fuel m (add32 current (add32 entry.size 4)) end c
  | false ↦ some c
]

-- The two `if`s.
unfoldable pub print_memory : MultibootInfo → Console → Option Console
print_memory mbi c = if bit_and mbi.flags 0x01 == 0 then some c else (do
  c ←
      print (codes "Lower memory: %d KiB (%d bytes)\n")
        (word mbi.mem_lower ∷ word (mbi.mem_lower * 1024 % 2 ^ 32) ∷ []) c
  print (codes "Upper memory: %d KiB (%d bytes)\n")
      (word mbi.mem_upper ∷ word (mbi.mem_upper * 1024 % 2 ^ 32) ∷ []) c)

unfoldable pub print_memory_map : ℕ → Bytes → MultibootInfo → Console → Option Console
print_memory_map fuel m mbi c = if bit_and mbi.flags 0x40 == 0 then some c else (do
  c ← print (codes "Memory map entries:\n") [] c
  print_map fuel m mbi.mmap_addr (add32 mbi.mmap_addr mbi.mmap_length) c)

unfoldable pub print_multiboot_info : ℕ → Bytes → MultibootInfo → Console → Option Console
print_multiboot_info fuel m mbi c = do c ← print_memory mbi c; print_memory_map fuel m mbi c
