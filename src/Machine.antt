-- ===== src/Machine.antt =====
-- io/port.c and io/vga.c: the I/O ports and the VGA text memory.
-- The hardware is not part of the repository. It enters as the field `device`: what a port gives
-- at a read is any function of what was read and written before.
use kernel_from_scratch.Prelude.{ℕ, ◌+◌, ◌*◌, ◌/◌, ◌%◌, ◌^◌, Bool, List, ◌∷◌, if◌then◌else◌, update}
use Prim.Native.Nat.{bit_and, bit_or}

pub data Event : Type 0 where
  wrote : ℕ → ℕ → Event
  read : ℕ → ℕ → Event

pub record Machine : Type 0 where
  pub trace : List Event  -- the latest event first
  pub device : List Event → ℕ → ℕ
  pub vga : ℕ → ℕ  -- the 16-bit cells from 0xB8000 on

unfoldable pub outb : ℕ → ℕ → Machine → Machine
outb port value m = record m { trace = wrote port value ∷ m.trace }

unfoldable pub inb : ℕ → Machine → ℕ × Machine
inb port m =
    let value = m.device m.trace port % 256 in
    (value, record m { trace = read port value ∷ m.trace })

unfoldable pub io_wait : Machine → Machine
unfolding outb
io_wait m = outb 0x80 0 m

abbrev pub vga_width : ℕ
vga_width = 80

abbrev pub vga_height : ℕ
vga_height = 25

-- Arguments of type `uint8_t` are truncated where they are received. A `|` of fields that share no
-- bit is their sum.
unfoldable pub get_color : ℕ → ℕ → ℕ
get_color foreground background = (background % 256 * 2 ^ 4 + foreground % 2 ^ 4) % 256

unfoldable pub get_position : ℕ → ℕ → ℕ
get_position row column = (row % 256 * vga_width + column % 256) % 2 ^ 16

unfoldable pub get_cell : ℕ → ℕ → ℕ → ℕ
unfolding get_color
get_cell character fg_color bg_color =
    (character % 256 + get_color fg_color bg_color * 2 ^ 8) % 2 ^ 16

abbrev pub vga_cursor_port_command : ℕ
vga_cursor_port_command = 0x3D4

abbrev pub vga_cursor_port_data : ℕ
vga_cursor_port_data = 0x3D5

abbrev pub vga_cursor_port_high : ℕ
vga_cursor_port_high = 0x0F

abbrev pub vga_cursor_port_low : ℕ
vga_cursor_port_low = 0x0E

unfoldable pub vga_set_cursor_visibility : Bool → Machine → Machine
unfolding outb inb
vga_set_cursor_visibility visible m =
    let (cursor_start, m) = inb (vga_cursor_port_command + 0x0A) m in
    let (cursor_end, m) = inb (vga_cursor_port_command + 0x0B) m in
    let start = if visible then bit_and cursor_start 0xC0 else bit_or cursor_start 0x20 in
    let end = if visible then bit_and cursor_end 0xE0 else cursor_end in
    outb (vga_cursor_port_command + 0x0B) end (outb (vga_cursor_port_command + 0x0A) start m)

unfoldable pub vga_put_cursor : ℕ → ℕ → Machine → Machine
unfolding outb get_position
vga_put_cursor x y m =
    let position = get_position y x in
    let m = outb vga_cursor_port_command vga_cursor_port_high m in
    let m = outb vga_cursor_port_data (position % 2 ^ 8) m in
    let m = outb vga_cursor_port_command vga_cursor_port_low m in
    outb vga_cursor_port_data (position / 2 ^ 8) m

unfoldable pub vga_set_cell : ℕ → ℕ → ℕ → ℕ → ℕ → Machine → Machine
unfolding get_position get_cell
vga_set_cell c fg_color bg_color x y m = record m {
  vga = update m.vga (get_position y x) (get_cell c fg_color bg_color);
}
