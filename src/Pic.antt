-- ===== src/Pic.antt =====
-- inc/pic.h: the ports of the interrupt controllers, and the words that set them up. A bit is given by
-- its value; a word of several bits is their sum.
use kernel_from_scratch.Prelude.{ℕ, ◌+◌, ◌^◌}

abbrev pub pic_offset : ℕ
pic_offset = 0x20

pub data PicPort : Type 0 where
  master_command master_data slave_command slave_data : PicPort

abbrev pub pic_port : PicPort → ℕ
pic_port master_command = 0x20
pic_port master_data = 0x21
pic_port slave_command = 0xA0
pic_port slave_data = 0xA1

pub data PicIcw1 : Type 0 where
  icw4 cascade interval level_triggered initialization : PicIcw1

abbrev pub icw1_bit : PicIcw1 → ℕ
icw1_bit icw4 = 2 ^ 0
icw1_bit cascade = 2 ^ 1
icw1_bit interval = 2 ^ 2
icw1_bit level_triggered = 2 ^ 3
icw1_bit initialization = 2 ^ 4

pub data PicIcw2 : Type 0 where
  master_vector_offset slave_vector_offset : PicIcw2

abbrev pub icw2 : PicIcw2 → ℕ
icw2 master_vector_offset = pic_offset
icw2 slave_vector_offset = pic_offset + 8

-- The line of the master that the slave is connected to, and the line of the slave.
pub data PicIcw3 : Type 0 where
  slave_connected_to_irq0 slave_connected_to_irq1 slave_connected_to_irq2 : PicIcw3
  slave_connected_to_irq3 slave_connected_to_irq4 slave_connected_to_irq5 : PicIcw3
  slave_connected_to_irq6 slave_connected_to_irq7 : PicIcw3
  slave_connected_to_master_irq0 slave_connected_to_master_irq1 : PicIcw3
  slave_connected_to_master_irq2 slave_connected_to_master_irq3 : PicIcw3
  slave_connected_to_master_irq4 slave_connected_to_master_irq5 : PicIcw3
  slave_connected_to_master_irq6 slave_connected_to_master_irq7 : PicIcw3

abbrev pub icw3_bit : PicIcw3 → ℕ
icw3_bit slave_connected_to_irq0 = 2 ^ 0
icw3_bit slave_connected_to_irq1 = 2 ^ 1
icw3_bit slave_connected_to_irq2 = 2 ^ 2
icw3_bit slave_connected_to_irq3 = 2 ^ 3
icw3_bit slave_connected_to_irq4 = 2 ^ 4
icw3_bit slave_connected_to_irq5 = 2 ^ 5
icw3_bit slave_connected_to_irq6 = 2 ^ 6
icw3_bit slave_connected_to_irq7 = 2 ^ 7
icw3_bit slave_connected_to_master_irq0 = 2 ^ 0
icw3_bit slave_connected_to_master_irq1 = 2 ^ 1
icw3_bit slave_connected_to_master_irq2 = 2 ^ 2
icw3_bit slave_connected_to_master_irq3 = 2 ^ 3
icw3_bit slave_connected_to_master_irq4 = 2 ^ 4
icw3_bit slave_connected_to_master_irq5 = 2 ^ 5
icw3_bit slave_connected_to_master_irq6 = 2 ^ 6
icw3_bit slave_connected_to_master_irq7 = 2 ^ 7

pub data PicIcw4 : Type 0 where
  mode_8086 auto_eoi buffered_master buffered_slave sfnm : PicIcw4

abbrev pub icw4_bit : PicIcw4 → ℕ
icw4_bit mode_8086 = 2 ^ 0
icw4_bit auto_eoi = 2 ^ 1
icw4_bit buffered_master = 2 ^ 2
icw4_bit buffered_slave = 2 ^ 3
icw4_bit sfnm = 2 ^ 4

pub data PicImr : Type 0 where
  disable_irq0 disable_irq1 disable_irq2 disable_irq3 : PicImr
  disable_irq4 disable_irq5 disable_irq6 disable_irq7 : PicImr

abbrev pub imr_bit : PicImr → ℕ
imr_bit disable_irq0 = 2 ^ 0
imr_bit disable_irq1 = 2 ^ 1
imr_bit disable_irq2 = 2 ^ 2
imr_bit disable_irq3 = 2 ^ 3
imr_bit disable_irq4 = 2 ^ 4
imr_bit disable_irq5 = 2 ^ 5
imr_bit disable_irq6 = 2 ^ 6
imr_bit disable_irq7 = 2 ^ 7
