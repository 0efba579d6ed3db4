-- ===== src/Gdt/Segments.antt =====
-- gdt.c: the segments that the descriptors describe.
use kernel_from_scratch.Prelude.{
  ℕ, ◌+◌, ◌-◌, ◌*◌, ◌/◌, ◌%◌, ◌^◌, ◌<◌, ◌≡◌, ◌≢◌, refl, arith, Bool, not, ◌&&◌, ◌||◌, true, false,
  leb, ltb, ◌==◌, if◌then◌else◌, Option, none, some,
}
use kernel_from_scratch.Gdt.{Entry, Gdt, set_entry}

-- What the processor reads in a descriptor.
abbrev pub base_of : Entry → ℕ
base_of e = e.base_low + e.base_middle * 2 ^ 16 + e.base_high * 2 ^ 24

abbrev pub limit_of : Entry → ℕ
limit_of e = e.limit_low + e.granularity % 2 ^ 4 * 2 ^ 16

-- The last byte of the segment: with the granularity flag the limit counts pages of 4096 bytes.
abbrev pub last_byte : Entry → ℕ
last_byte e = if e.granularity / 2 ^ 7 % 2 == 1 then limit_of e * 4096 + 4095 else limit_of e

abbrev pub is_present : Entry → Bool
is_present e = e.access / 2 ^ 7 % 2 == 1

abbrev pub privilege_of : Entry → ℕ
privilege_of e = e.access / 2 ^ 5 % 2 ^ 2

abbrev pub is_executable : Entry → Bool
is_executable e = e.access / 2 ^ 3 % 2 == 1

-- `set_entry` can be read back: the entry has the base, the access byte and the flags that it was
-- given, and the low 20 bits of the limit, and every other entry is as before.
pub set_entry_lem :
    (index base limit access granularity : ℕ) (gdt : ℕ → Entry) (other : ℕ)
    → base < 2 ^ 32
    → access < 2 ^ 8
    → granularity < 2 ^ 8
    → other ≢ index
    → let gdt' = set_entry index base limit access granularity gdt in
      (base_of (gdt' index) ≡ base)
      × (limit_of (gdt' index) ≡ limit % 2 ^ 20)
      × ((gdt' index).access ≡ access)
      × ((gdt' index).granularity / 2 ^ 4 ≡ granularity / 2 ^ 4)
      × (gdt' other ≡ gdt other)
unfolding set_entry
set_entry_lem index base limit access granularity gdt other h k l ne =
    let same : (index == index) ≡ true = ground arith in
    let apart : (other == index) ≡ false = ground arith in
    rw (same, apart) (omega arith, omega arith, omega arith, omega arith, refl)

abbrev is_memory : Entry → Bool
is_memory e = e.access / 2 ^ 4 % 2 == 1

-- Conforming code, or data that lies above the limit.
abbrev is_special : Entry → Bool
is_special e = e.access / 2 ^ 2 % 2 == 1

-- Code that can be read, or data that can be written.
abbrev is_read_write : Entry → Bool
is_read_write e = e.access / 2 % 2 == 1

abbrev is_32bit : Entry → Bool
is_32bit e = e.granularity / 2 ^ 6 % 2 == 1

-- What a program does with a segment.
pub data Use : Type 0 where
  run load store : Use

-- The uses that the kind of a segment allows.
abbrev serves : Use → Entry → Bool
serves run e = is_executable e
serves load e = not (is_executable e) || is_read_write e
serves store e = not (is_executable e) && is_read_write e

-- The rings that may use a segment: code runs in its own ring, unless it is conforming.
abbrev admits : ℕ → Entry → Bool
admits ring e =
    if is_executable e && not (is_special e)
    then ring == privilege_of e
    else if is_executable e
    then leb (privilege_of e) ring
    else leb ring (privilege_of e)

abbrev contains : ℕ → Entry → Bool
contains offset e =
    if not (is_executable e) && is_special e
    then ltb (last_byte e) offset
    else leb offset (last_byte e)

abbrev offset_in : Entry → ℕ → ℕ
offset_in e offset = if is_32bit e then offset else offset % 2 ^ 16

-- The address that the processor uses for an offset in a segment, in a ring, if it is no fault.
abbrev pub address_in : ℕ → Use → Entry → ℕ → Option ℕ
address_in ring purpose e offset =
    let offset = offset_in e offset in
    if is_present e && is_memory e && (admits ring e && serves purpose e) && contains offset e
    then some ((base_of e + offset) % 2 ^ 32)
    else none

-- Whether an entry describes all 2 ^ 32 bytes, as memory that is present, with offsets of 32 bits.
abbrev is_flat : Entry → Bool
is_flat e =
    is_present e
    && is_memory e
    && is_32bit e
    && not (is_special e)
    && (base_of e == 0)
    && (last_byte e == 2 ^ 32 - 1)

abbrev allows_code : Use → Bool
allows_code run = true
allows_code load = true
allows_code store = false

abbrev allows_data : Use → Bool
allows_data run = false
allows_data load = true
allows_data store = true

abbrev own_ring : ℕ → ℕ
own_ring index = if ltb index 4 then 0 else 3

-- The rings and the uses for the entries 1 to 6: the indices 1 and 4 are code that can be read, the
-- others data that can be written; the ring is 0 up to index 3 and 3 above.
abbrev pub grants : ℕ → ℕ → Use → Bool
grants index ring purpose =
    if (index == 1) || (index == 4)
    then (ring == own_ring index) && allows_code purpose
    else leb ring (own_ring index) && allows_data purpose
