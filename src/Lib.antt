-- ===== src/Lib.antt =====
-- kernel_from_scratch: a 32-bit kernel with a text terminal, a keyboard, a mouse and a small shell.
--
-- The program's parts. Interrupts come in through the gates of the interrupt descriptor table and are
-- dispatched to the handlers of keyboard and mouse, which push scancodes into a ring buffer. The main
-- loop takes them out and hands them to the keyboard's scancode handling, which edits the input line
-- of the terminal, switches between its ten screens, and runs shell commands whose output goes to the
-- terminal. The terminal draws its screens into the VGA text memory.
--
-- Which file models which part (paths of the repository):
--   Machine        src/kernel/io/port.c, src/kernel/io/vga.c: port reads and writes as a trace of events, the
--                  answers of the devices as a parameter, the VGA memory as a function of the cell.
--   Memory         src/kernel/helper/mem.c, src/kernel/helper/string.c: bytes at 32-bit addresses.
--   Chars          src/kernel/helper/char.c.
--   KeyBuffer      src/kernel/interrupt/handler/keyboard.c, lines 151 to 153 and 289 to 318: the ring
--                  buffer, and the loop of keyboard_handle_input.
--   Pic, Idt       inc/pic.h and inc/idt.h: ports, command words, vectors and flags.
--   Interrupts     src/kernel/interrupt/idt.c, interrupt.c and pic.c. Controllers: the 8259A as its data
--                  sheet describes it, against which remap_pic is stated.
--   Gdt            src/kernel/gdt.c. Segments: what the processor reads in a descriptor.
--   Ps2, Mouse     src/kernel/interrupt/handler/mouse.c, its constants apart.
--   Terminal       src/kernel/terminal.c. A Console is the current screen with the machine. Display: what
--                  is drawn, scrolling. Put: printing characters. Input: the input field. Output: the
--                  output of commands. Screens: the ten screens. Number:
--                  numbers. The other children hold the proofs; Line states what the input field
--                  promises, one line of text with a cursor.
--   Keyboard       src/kernel/interrupt/handler/keyboard.c, lines 39 to 281: the maps, the modifiers
--                  and the decoding of scancodes.
--   Numerals       the digits of numbers in base 10 and 16, which both printers of numbers refer to.
--   Printk         src/kernel/helper/printk.c. Text says what a format means: its pieces, and the text
--                  of each for its argument. Writes puts the text of one call together.
--   Multiboot      src/kernel/boot/multiboot.c.
--   StackDump      src/kernel/stack.c.
--   Shell          src/kernel/shell.c, on the state of the whole program as far as commands change it.
--                  Table: the ten commands. Lines and Calls: what a line and a command do. Ready: the
--                  state between two lines. Repeat: last. Modes
--                  and Models: what a line does to the variables.
--   MainLoop       execute and handle_scancode of keyboard.c on that state. Typed: a whole line.
--                  Program: any keys, against the program that they are to work on.
--   Boot           src/kernel/boot/main.c, src/kernel/sections/bss.c, and the handler of the keyboard's
--                  interrupt. Loop: the loop of kernel_main, with the interrupts that come. Arrivals,
--                  Running, Endless and Keystroke: what holds at every step of it.
--   Tests          the theorems at concrete inputs.
--
-- How the code is read. Machine integers are natural numbers with the wrap-around written out; signed
-- ones are bit patterns. A screen's cells, the tables and the memory are functions of the index, so an
-- index out of range reads and writes a cell of its own; the theorems on the terminal start from a
-- valid screen, on which every index is in range. Assembly in the C files is modelled by the registers
-- that it loads (lidt, lgdt, the segment registers). A function that works on current_screen() takes a
-- Console, and on_current runs it on the screen of the current index.
--
-- Bounds and fuel. The loops of align_scroll_to_cursor, keyboard_handle_input, strlen and strcmp and
-- the digit loop of terminal_putnbr_output have fuel: the first takes it from the rows, the last has
-- the ten rounds of a 32-bit number, and the theorems on the others say how much is enough. The
-- loops of printk are bounded by the digits of a machine word or the length of the format; the walk
-- over the memory map, the wait of reboot and the calls of last have fuel that the theorems bound. The
-- counted loops are for_loop or recursion on the rounds left, and the waits of mouse.c on their own
-- limit. Strings are lists of bytes without the NUL, where the code passes a pointer to the terminal.
--
-- Parameters. What the boot loader, the compiler and the linker put in memory (the memory map, the
-- stack that pstack finds, the bounds of the code and of the tables) is a record that the functions
-- take. The arguments of printk are a list, as they lie on the stack: 64 bits are two words.
--
-- Steps and interrupts. An interrupt handler runs to its end, since interrupts are disabled in it.
-- Boot/Loop takes the main loop apart where a key that comes in between may be read: at the test of the
-- key buffer, behind the read of a scancode, behind the move of the tail, and behind cli and sti. An
-- interrupt that comes while a scancode is handled is taken behind the handling.
--
-- Not modelled: hang, which kernel_main does not reach. The assembly files, the linker script and the
-- image are no C code: the stubs of the interrupts are addresses.
pub mod Prelude
pub mod Machine
pub mod Memory
pub mod Chars
pub mod Numerals
pub mod KeyBuffer
pub mod Pic
pub mod Idt
pub mod Interrupts
pub mod Gdt
pub mod Ps2
pub mod Mouse
pub mod Terminal
pub mod Printk
pub mod Keyboard
pub mod Multiboot
pub mod StackDump
pub mod Shell
pub mod MainLoop
pub mod Boot
pub mod Tests
