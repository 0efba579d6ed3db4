-- ===== src/Gdt.antt =====
-- gdt.c: the descriptors of the segments. The table's place, `gdt_start` and `gdt_end`, comes from
-- assembly and is a parameter.
pub mod Segments
use kernel_from_scratch.Prelude.{ℕ, ◌+◌, ◌-◌, ◌*◌, ◌/◌, ◌%◌, ◌^◌, update, sub32}

pub record Entry : Type 0 where
  pub limit_low : ℕ
  pub base_low : ℕ
  pub base_middle : ℕ
  pub access : ℕ
  pub granularity : ℕ
  pub base_high : ℕ

pub record GdtPtr : Type 0 where
  pub limit : ℕ
  pub base : ℕ

-- The table, `gdt_ptr`, which is the register that `lgdt` loads, and the segment registers.
pub record Gdt : Type 0 where
  pub gdt : ℕ → Entry
  pub gdt_ptr : GdtPtr
  pub code_segment : ℕ
  pub data_segments : ℕ  -- DS, ES, FS and GS
  pub stack_segment : ℕ

-- `set_entry` on the table.
unfoldable pub set_entry : ℕ → ℕ → ℕ → ℕ → ℕ → (ℕ → Entry) → ℕ → Entry
set_entry index base limit access granularity gdt = update gdt index (record {
  limit_low = limit % 2 ^ 16;
  base_low = base % 2 ^ 16;
  base_middle = base / 2 ^ 16 % 2 ^ 8;
  access = access % 2 ^ 8;
  granularity = limit / 2 ^ 16 % 2 ^ 4 + granularity % 2 ^ 8 / 2 ^ 4 * 2 ^ 4;
  base_high = base / 2 ^ 24 % 2 ^ 8;
})

pub data GdtSelectorIndex : Type 0 where
  null kernel_code kernel_data kernel_stack : GdtSelectorIndex
  user_code user_data user_stack : GdtSelectorIndex

abbrev pub selector_index : GdtSelectorIndex → ℕ
selector_index null = 0
selector_index kernel_code = 1
selector_index kernel_data = 2
selector_index kernel_stack = 3
selector_index user_code = 4
selector_index user_data = 5
selector_index user_stack = 6

abbrev pub selector_offset : GdtSelectorIndex → ℕ
selector_offset null = 0x00
selector_offset kernel_code = 0x08
selector_offset kernel_data = 0x10
selector_offset kernel_stack = 0x18
selector_offset user_code = 0x20
selector_offset user_data = 0x28
selector_offset user_stack = 0x30

pub data GdtSegmentRange : Type 0 where
  address_min address_max : GdtSegmentRange

abbrev pub segment_range : GdtSegmentRange → ℕ
segment_range address_min = 0x00000000
segment_range address_max = 0xFFFFFFFF

pub data GdtAccessByte : Type 0 where
  present accessed privilege_0 privilege_3 descriptor : GdtAccessByte
  executable direction read_write : GdtAccessByte

abbrev pub access_byte : GdtAccessByte → ℕ
access_byte present = 0x80
access_byte accessed = 0x01
access_byte privilege_0 = 0x00
access_byte privilege_3 = 0x60
access_byte descriptor = 0x10
access_byte executable = 0x08
access_byte direction = 0x04
access_byte read_write = 0x02

-- `DESCRIPTOR | PRESENT | … | READ_WRITE` for data, and with `EXECUTABLE` for code.
abbrev pub data_access : GdtAccessByte → ℕ
data_access privilege =
    access_byte descriptor + access_byte present + access_byte privilege + access_byte read_write

abbrev pub code_access : GdtAccessByte → ℕ
code_access privilege =
    access_byte descriptor
    + access_byte present
    + access_byte privilege
    + access_byte executable
    + access_byte read_write

-- `set_entry` on a segment of all addresses.
abbrev pub set_segment : GdtSelectorIndex → ℕ → (ℕ → Entry) → ℕ → Entry
set_segment index access =
    set_entry (selector_index index) (segment_range address_min) (segment_range address_max) access
      0xCF

-- The seven calls of `set_entry` in `register_gdt`.
unfoldable pub set_entries : (ℕ → Entry) → ℕ → Entry
set_entries gdt =
    let gdt =
      set_entry (selector_index null) (segment_range address_min) (segment_range address_min) 0 0
        gdt in
    let gdt = set_segment kernel_code (code_access privilege_0) gdt in
    let gdt = set_segment kernel_data (data_access privilege_0) gdt in
    let gdt = set_segment kernel_stack (data_access privilege_0) gdt in
    let gdt = set_segment user_code (code_access privilege_3) gdt in
    let gdt = set_segment user_data (data_access privilege_3) gdt in
    set_segment user_stack (data_access privilege_3) gdt

unfoldable pub register_gdt : ℕ → ℕ → Gdt → Gdt
register_gdt gdt_start gdt_end g = record {
  gdt = set_entries g.gdt;
  gdt_ptr = record { limit = sub32 (sub32 gdt_end gdt_start) 1 % 2 ^ 16; base = gdt_start };
  code_segment = selector_offset kernel_code;
  data_segments = selector_offset kernel_data;
  stack_segment = selector_offset kernel_stack;
}
