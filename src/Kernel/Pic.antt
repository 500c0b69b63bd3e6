-- ===== src/Kernel/Pic.antt =====
-- The two programmable interrupt controllers, sys/pic.c: every access goes to the log of ports.
pub mod Sequence
mod Tests
use sbuoperating_system.Prelude.{
  ℕ, ◌%◌, ◌^◌, Bool, true, false, ◌||◌, Option, none, some, ltb, leb, ◌==◌, if◌then◌else◌,
}
use sbuoperating_system.Prelude.Bits.{◌<<<◌}
use sbuoperating_system.Kernel.Ports.{Log, Device, outportb, io_wait, inportb}
use Prim.Native.Nat.{bit_or}

abbrev pub master_pic_id : ℕ
master_pic_id = 0

abbrev pub slave_pic_id : ℕ
slave_pic_id = 1

abbrev pub master_pic_command : ℕ
master_pic_command = 0x20

abbrev pub master_pic_data : ℕ
master_pic_data = 0x21

abbrev pub slave_pic_command : ℕ
slave_pic_command = 0xA0

abbrev pub slave_pic_data : ℕ
slave_pic_data = 0xA1

abbrev pub pic_eoi : ℕ
pic_eoi = 0x20

abbrev pub pic_ocw3_isr : ℕ
pic_ocw3_isr = 0x0a

abbrev pub pic_ocw3_irr : ℕ
pic_ocw3_irr = 0x0b

abbrev pub pic_icw4_mask_8086 : ℕ
pic_icw4_mask_8086 = 0x01

-- `PIC_ICW1_MASK_INIT | PIC_ICW1_MASK_ICW4`
abbrev pub icw1 : ℕ
icw1 = bit_or 0x10 0x01

pub write_data_to_pic : ℕ → ℕ → Log → Log
unfolding outportb
write_data_to_pic value pic log =
    if pic == master_pic_id
    then outportb master_pic_data value log
    else if pic == slave_pic_id
    then outportb slave_pic_data value log
    else log

pub write_command_word_to_pic : ℕ → ℕ → Log → Log
unfolding outportb
write_command_word_to_pic cmd pic log =
    if pic == master_pic_id
    then outportb master_pic_command cmd log
    else if pic == slave_pic_id
    then outportb slave_pic_command cmd log
    else log

module _ (device : Device) where
  pub read_data_from_pic : ℕ → Log → ℕ × Log
  unfolding inportb
  read_data_from_pic pic log =
      if pic == master_pic_id
      then inportb device master_pic_data log
      else if pic == slave_pic_id
      then inportb device slave_pic_data log
      else (0, log)

  pub read_command_word_from_pic : ℕ → Log → ℕ × Log
  unfolding inportb
  read_command_word_from_pic pic log =
      if pic == master_pic_id
      then inportb device master_pic_command log
      else if pic == slave_pic_id
      then inportb device slave_pic_command log
      else (0, log)

  unfoldable pub init_pic : ℕ → ℕ → Log → Log
  unfolding read_data_from_pic write_data_to_pic write_command_word_to_pic io_wait
  init_pic offset1 offset2 log =
      let (master_mask, log) = read_data_from_pic master_pic_id log in
      let (slave_mask, log) = read_data_from_pic slave_pic_id log in
      let log = io_wait (write_command_word_to_pic icw1 master_pic_id log) in
      let log = io_wait (write_command_word_to_pic icw1 slave_pic_id log) in
      let log = io_wait (write_data_to_pic offset1 master_pic_id log) in
      let log = io_wait (write_data_to_pic offset2 slave_pic_id log) in
      let log = io_wait (write_data_to_pic 0x04 master_pic_id log) in
      let log = io_wait (write_data_to_pic 0x02 slave_pic_id log) in
      let log = io_wait (write_data_to_pic pic_icw4_mask_8086 master_pic_id log) in
      let log = io_wait (write_data_to_pic pic_icw4_mask_8086 slave_pic_id log) in
      let log = io_wait (write_data_to_pic master_mask master_pic_id log) in
      io_wait (write_data_to_pic slave_mask slave_pic_id log)

  -- The body that `get_pic_isr` and `get_pic_irr` share, for the command word that each writes.
  get_pic_register : ℕ → Log → ℕ × Log
  unfolding read_command_word_from_pic write_command_word_to_pic
  get_pic_register ocw3 log =
      let log = write_command_word_to_pic ocw3 master_pic_id log in
      let log = write_command_word_to_pic ocw3 slave_pic_id log in
      let (master, log) = read_command_word_from_pic master_pic_id log in
      let (slave, log) = read_command_word_from_pic slave_pic_id log in
      (bit_or (master <<< 8) slave % 2 ^ 16, log)

  unfoldable pub get_pic_isr : Log → ℕ × Log
  unfolding get_pic_register
  get_pic_isr log = get_pic_register pic_ocw3_isr log

  unfoldable pub get_pic_irr : Log → ℕ × Log
  unfolding get_pic_register
  get_pic_irr log = get_pic_register pic_ocw3_irr log

unfoldable pub end_of_interrupt : ℕ → Log → Log
unfolding write_command_word_to_pic
end_of_interrupt n log =
    if ltb 15 n
    then log
    else write_command_word_to_pic pic_eoi master_pic_id
        (if leb 8 n then write_command_word_to_pic pic_eoi slave_pic_id log else log)
