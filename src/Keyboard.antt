-- ===== src/Keyboard.antt =====
-- interrupt/handler/keyboard.c: how a scancode is handled. The call that a scancode leads to is an
-- `Action`, which `perform` carries out on the terminal; what Enter executes is a parameter.
pub mod Maps
pub mod Allowed
pub mod Typing
pub mod Switching
use kernel_from_scratch.Prelude.{
  ℕ, ◌+◌, ◌-◌, ◌%◌, Bool, true, false, not, ◌&&◌, ◌||◌, List, [], ◌∷◌, leb, ◌==◌, if◌then◌else◌,
}
use kernel_from_scratch.Chars.{toupper, isdigit}
use kernel_from_scratch.Terminal.Input.{
  Direction, cursor_up, cursor_down, cursor_left, cursor_right, terminal_putc_input,
  terminal_del_input, terminal_del_input_forward, terminal_move,
}
use kernel_from_scratch.Terminal.Screens.{Terminal, on_current, terminal_switch_screen}
use kernel_from_scratch.Keyboard.Maps.{qwerty, azerty, upper_qwerty, upper_azerty}

pub data Layout : Type 0 where
  layout_qwerty layout_azerty : Layout

pub data KeyboardSpecialScancode : Type 0 where
  key_caps key_backspace key_enter key_delete : KeyboardSpecialScancode
  key_left key_right key_up key_down : KeyboardSpecialScancode
  key_ctrl_pressed key_ctrl_released : KeyboardSpecialScancode
  key_left_shift_press key_left_shift_release : KeyboardSpecialScancode
  key_right_shift_press key_right_shift_release : KeyboardSpecialScancode

abbrev pub special_scancode : KeyboardSpecialScancode → ℕ
special_scancode key_caps = 0x3A
special_scancode key_backspace = 0x0E
special_scancode key_enter = 0x1C
special_scancode key_delete = 0x53
special_scancode key_left = 0x4B
special_scancode key_right = 0x4D
special_scancode key_up = 0x48
special_scancode key_down = 0x50
special_scancode key_ctrl_pressed = 0x1D
special_scancode key_ctrl_released = 0x9D
special_scancode key_left_shift_press = 0x2A
special_scancode key_left_shift_release = 0xAA
special_scancode key_right_shift_press = 0x36
special_scancode key_right_shift_release = 0xB6

pub record Keyboard : Type 0 where
  pub is_lock : Bool
  pub is_ctrl : Bool
  pub is_left_shift : Bool
  pub is_right_shift : Bool
  pub current_layout : Layout

pub data Action : Type 0 where
  nothing : Action
  put_input : ℕ → Action
  delete_input : ℕ → Action
  delete_forward : ℕ → Action
  move_input : Direction → Action
  switch_to : ℕ → Action
  execute : Action

-- An element of a map, 0 where the initializer has none.
abbrev pub lookup : List (ℕ × ℕ) → ℕ → ℕ
lookup [] scancode = 0
lookup ((k, c) ∷ entries) scancode = if scancode == k then c else lookup entries scancode

abbrev pub maps : Layout → ℕ → ℕ
maps layout_qwerty = lookup qwerty
maps layout_azerty = lookup azerty

abbrev pub upper_maps : Layout → ℕ → ℕ
upper_maps layout_qwerty = lookup upper_qwerty
upper_maps layout_azerty = lookup upper_azerty

-- The character of a key, and whether it is written in upper case.
unfoldable pub character : Layout → Bool → ℕ → ℕ
character layout upper scancode =
    let c = maps layout scancode in
    let u = upper_maps layout scancode in if upper then (if u == 0 then toupper c else u) else c

abbrev pub is_upper : Keyboard → Bool
is_upper k =
    let shift = k.is_left_shift || k.is_right_shift in if k.is_lock then not shift else shift

-- The last `switch` of `handle_scancode`.
unfoldable pub special_key : ℕ → Keyboard → Keyboard × Action
special_key scancode k =
    if scancode == special_scancode key_enter
    then (k, execute)
    else if scancode == special_scancode key_backspace
    then (k, delete_input 1)
    else if scancode == special_scancode key_delete
    then (k, delete_forward 1)
    else if scancode == special_scancode key_caps
    then (record k { is_lock = not k.is_lock }, nothing)
    else if scancode == special_scancode key_up
    then (k, move_input cursor_up)
    else if scancode == special_scancode key_down
    then (k, move_input cursor_down)
    else if scancode == special_scancode key_left
    then (k, move_input cursor_left)
    else if scancode == special_scancode key_right
    then (k, move_input cursor_right)
    else (k, nothing)

-- `handle_scancode` behind its first `switch`.
unfoldable pub press_key : Bool → ℕ → Keyboard → Keyboard × Action
press_key is_reading scancode k =
    let c = character k.current_layout (is_upper k) scancode in
    if leb 128 scancode
    then (k, nothing)
    else if k.is_ctrl
    then (k, if not is_reading && isdigit c then switch_to ((c + 10 - 49) % 10) else nothing)
    else if not (c == 0)
    then (k, put_input c)
    else special_key scancode k

unfoldable pub handle_scancode : Bool → ℕ → Keyboard → Keyboard × Action
handle_scancode is_reading scancode k =
    if scancode == special_scancode key_left_shift_press
    then (record k { is_left_shift = true }, nothing)
    else if scancode == special_scancode key_left_shift_release
    then (record k { is_left_shift = false }, nothing)
    else if scancode == special_scancode key_right_shift_press
    then (record k { is_right_shift = true }, nothing)
    else if scancode == special_scancode key_right_shift_release
    then (record k { is_right_shift = false }, nothing)
    else if scancode == special_scancode key_ctrl_pressed
    then (record k { is_ctrl = true }, nothing)
    else if scancode == special_scancode key_ctrl_released
    then (record k { is_ctrl = false }, nothing)
    else press_key is_reading scancode k

unfoldable pub keyboard_set_layout : Layout → Keyboard → Keyboard
keyboard_set_layout new_layout k = record k { current_layout = new_layout }

-- The call on the terminal.
unfoldable pub perform : (Terminal → Terminal) → Action → Terminal → Terminal
perform run nothing t = t
perform run (put_input c) t = on_current (terminal_putc_input c) t
perform run (delete_input n) t = on_current (terminal_del_input n) t
perform run (delete_forward n) t = on_current (terminal_del_input_forward n) t
perform run (move_input direction) t = on_current (terminal_move direction) t
perform run (switch_to index) t = terminal_switch_screen index t
perform run execute t = run t
