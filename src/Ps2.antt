-- ===== src/Ps2.antt =====
-- interrupt/handler/mouse.c: what it says to the PS/2 controller and to the mouse. A bit of a status
-- or of the configuration is given by its number.
use kernel_from_scratch.Prelude.{ℕ}

pub data Ps2Port : Type 0 where
  data_port status_port command_port : Ps2Port

abbrev pub ps2_port : Ps2Port → ℕ
ps2_port data_port = 0x60
ps2_port status_port = 0x64
ps2_port command_port = 0x64

pub data Ps2Status : Type 0 where
  output_full input_full from_mouse : Ps2Status

abbrev pub ps2_status : Ps2Status → ℕ
ps2_status output_full = 0
ps2_status input_full = 1
ps2_status from_mouse = 5

pub data Ps2Command : Type 0 where
  read_config write_config disable_mouse enable_mouse : Ps2Command
  disable_keyboard enable_keyboard write_to_mouse : Ps2Command

abbrev pub ps2_command : Ps2Command → ℕ
ps2_command read_config = 0x20
ps2_command write_config = 0x60
ps2_command disable_mouse = 0xA7
ps2_command enable_mouse = 0xA8
ps2_command disable_keyboard = 0xAD
ps2_command enable_keyboard = 0xAE
ps2_command write_to_mouse = 0xD4

pub data Ps2Config : Type 0 where
  mouse_irq mouse_clock : Ps2Config

abbrev pub ps2_config : Ps2Config → ℕ
ps2_config mouse_irq = 1
ps2_config mouse_clock = 5

pub data MouseCommand : Type 0 where
  get_id set_sample_rate enable_data set_defaults : MouseCommand
  ack id_wheel : MouseCommand

abbrev pub mouse_command : MouseCommand → ℕ
mouse_command get_id = 0xF2
mouse_command set_sample_rate = 0xF3
mouse_command enable_data = 0xF4
mouse_command set_defaults = 0xF6
mouse_command ack = 0xFA
mouse_command id_wheel = 3

-- The bit of 0x08
abbrev pub packet_always_one : ℕ
packet_always_one = 3

abbrev pub wheel_up_scancode : ℕ
wheel_up_scancode = 0x48

abbrev pub wheel_down_scancode : ℕ
wheel_down_scancode = 0x50
