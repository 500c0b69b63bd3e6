-- ===== src/Kernel/Pic/Sequence.antt =====
-- What the controllers are sent.
use sbuoperating_system.Prelude.{
  ℕ, List, [], ◌||◌, ◌==◌, ◌%◌, ◌/◌, ◌<◌, ◌≡◌, refl, ◌∷◌, leb, if◌then◌else◌, ◌&&◌, arith,
}
use native.Mathlib.Nat.{mod-eq_of_lt}
use sbuoperating_system.Prelude.Bits.{bit_or_disjoint}
use sbuoperating_system.Kernel.Ports.{Log, Device, input, output, writes_to}
use sbuoperating_system.Kernel.Pic.{
  master_pic_command, master_pic_data, slave_pic_command, slave_pic_data, pic_eoi, pic_ocw3_isr,
  pic_ocw3_irr, init_pic, get_pic_isr, get_pic_irr, end_of_interrupt, get_pic_register,
}

-- The writes to the two ports of one controller in the order in which they came, the newest first: the
-- port and the value.
abbrev pub sent_to : ℕ → ℕ → Log → List (ℕ × ℕ)
sent_to command pic_data [] = []
sent_to command pic_data (input port value ∷ log) = sent_to command pic_data log
sent_to command pic_data (output port value ∷ log) =
    let rest = sent_to command pic_data log in
    if port == command || port == pic_data then (port, value) ∷ rest else rest

-- With offsets below 256, what `init_pic` sends each controller is, in this order: ICW1 on the command port,
-- and on the data port its vector offset, its wiring, the 8086 mode and, last, the mask that was read from
-- it in front of all writes.
pub init_pic_sequence :
    (device : Device) (log : Log) (offset1 offset2 : ℕ)
    → offset1 < 256
    → offset2 < 256
    → let after = init_pic device offset1 offset2 log in
      let master_mask = device log master_pic_data % 256 in
      let slave_mask = device (input master_pic_data master_mask ∷ log) slave_pic_data % 256 in
      (sent_to master_pic_command master_pic_data after
        ≡ (master_pic_data, master_mask)
          ∷ (master_pic_data, 1)
          ∷ (master_pic_data, 4)
          ∷ (master_pic_data, offset1)
          ∷ (master_pic_command, 0x11)
          ∷ sent_to master_pic_command master_pic_data log)
      × (sent_to slave_pic_command slave_pic_data after
          ≡ (slave_pic_data, slave_mask)
            ∷ (slave_pic_data, 1)
            ∷ (slave_pic_data, 2)
            ∷ (slave_pic_data, offset2)
            ∷ (slave_pic_command, 0x11)
            ∷ sent_to slave_pic_command slave_pic_data log)
unfolding init_pic
init_pic_sequence device log offset1 offset2 h k = (ground arith, ground arith)

-- Both controllers have been told to show the register that `ocw3` selects, the master first.
abbrev pub selected : ℕ → Log → Log
selected ocw3 log = output slave_pic_command ocw3 ∷ output master_pic_command ocw3 ∷ log

-- `r` is the word, and the log, of one answer of the master and then one of the slave.
abbrev pub Answers : Device → Log → ℕ × Log → Type 0
Answers device log r =
    let master = device log master_pic_command % 256 in
    let asked = input master_pic_command master ∷ log in
    let slave = device asked slave_pic_command % 256 in
    (r.0 / 256 ≡ master) × (r.0 % 256 ≡ slave) × (r.1 ≡ input slave_pic_command slave ∷ asked)

register-Answers :
    (device : Device) (ocw3 : ℕ) (log : Log)
    → ocw3 < 256
    → Answers device (selected ocw3 log) (get_pic_register device ocw3 log)
unfolding get_pic_register
register-Answers device ocw3 log h =
    let sel = selected ocw3 log in
    let master = device sel master_pic_command % 256 in
    let slave = device (input master_pic_command master ∷ sel) slave_pic_command % 256 in
    let sum = bit_or_disjoint 8 master slave (omega arith) in
    rw (mod-eq_of_lt h) (rw sum (omega arith, omega arith, refl))

-- The in-service and the request words hold the master's answer in their high byte and the slave's in
-- their low byte, each asked after both were told which register to show.
pub get_pic_words :
    (device : Device) (log : Log)
    → Answers device (selected pic_ocw3_isr log) (get_pic_isr device log)
      × Answers device (selected pic_ocw3_irr log) (get_pic_irr device log)
unfolding get_pic_isr get_pic_irr
get_pic_words device log = (
  register-Answers device pic_ocw3_isr log (omega arith),
  register-Answers device pic_ocw3_irr log (omega arith),
)

-- The slave is sent an end of interrupt for the requests 8 to 15 alone, the master for all up to 15,
-- once each, and any other number sends nothing.
pub end_of_interrupt_lem :
    (n : ℕ) (log : Log)
    → (writes_to slave_pic_command (end_of_interrupt n log) ≡ (
        if leb 8 n && leb n 15
        then pic_eoi ∷ writes_to slave_pic_command log
        else writes_to slave_pic_command log))
      × (writes_to master_pic_command (end_of_interrupt n log) ≡ (
          if leb n 15
          then pic_eoi ∷ writes_to master_pic_command log
          else writes_to master_pic_command log))
unfolding end_of_interrupt
end_of_interrupt_lem n log = ground arith
