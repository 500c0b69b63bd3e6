-- ===== src/Kernel/Pic/Tests.antt =====
-- The controllers at concrete inputs.
use sbuoperating_system.Prelude.{◌%◌, ◌≡◌, refl, [], ◌∷◌, arith}
use sbuoperating_system.Kernel.Ports.{Device, input, output}
use sbuoperating_system.Kernel.Pic.{
  master_pic_command, master_pic_data, slave_pic_command, slave_pic_data, init_pic,
  end_of_interrupt,
}
use sbuoperating_system.Kernel.Pic.Sequence.{sent_to, init_pic_sequence}

-- Every read gives 0xB8.
abbrev device : Device
device log port = 0xB8

slave_eoi : end_of_interrupt 14 [] ≡ output 0x20 0x20 ∷ output 0xA0 0x20 ∷ []
unfolding end_of_interrupt
slave_eoi = refl

init_pic_sequence_example :
    let after = init_pic device 0x20 0x28 [] in
    let master_mask = device [] master_pic_data % 256 in
    let slave_mask = device (input master_pic_data master_mask ∷ []) slave_pic_data % 256 in
    (sent_to master_pic_command master_pic_data after
      ≡ (master_pic_data, master_mask)
        ∷ (master_pic_data, 1)
        ∷ (master_pic_data, 4)
        ∷ (master_pic_data, 0x20)
        ∷ (master_pic_command, 0x11)
        ∷ [])
    × (sent_to slave_pic_command slave_pic_data after
        ≡ (slave_pic_data, slave_mask)
          ∷ (slave_pic_data, 1)
          ∷ (slave_pic_data, 2)
          ∷ (slave_pic_data, 0x28)
          ∷ (slave_pic_command, 0x11)
          ∷ [])
init_pic_sequence_example = init_pic_sequence device [] 0x20 0x28 (omega arith) (omega arith)
