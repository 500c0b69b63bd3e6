-- ===== src/Kernel/Ahci/Tests.antt =====
-- Places in the structs of include/sys/ahci.h.
use sbuoperating_system.Prelude.{◌%◌, ◌*◌, ◌≡◌, refl, List, [], ◌∷◌, arith, All}
use sbuoperating_system.Kernel.Layout.{Struct, places, sizeof, first_of, Commented}
use sbuoperating_system.Kernel.Ahci.{
  hba_prdt_entry, hba_cmd_tbl, hba_cmd_header, hba_fis, hba_cmd_list, hba_port, hba_mem,
}
use sbuoperating_system.Kernel.Ahci.Fis.{
  fis_reg_h2d, fis_reg_d2h, fis_dev_bits, fis_dma_setup, fis_pio_setup, fis_data,
}

command_flag : first_of "c" (places 0 fis_reg_h2d.members) ≡ 15
unfolding first_of places
command_flag = refl

ports_first : first_of "ports" (places 0 hba_mem.members) ≡ 8 * 0x100
unfolding first_of places sizeof
ports_first = refl

port_size : sizeof hba_port ≡ 0x80
unfolding sizeof
port_size = refl

header_size : sizeof hba_cmd_header ≡ 32
unfolding sizeof
header_size = refl

abbrev structs : List Struct
structs =
    fis_reg_h2d ∷ fis_reg_d2h ∷ fis_dev_bits ∷ fis_dma_setup ∷ fis_pio_setup ∷ fis_data
    ∷ hba_prdt_entry ∷ hba_cmd_tbl ∷ hba_cmd_header ∷ hba_fis ∷ hba_cmd_list ∷ hba_port ∷ hba_mem
    ∷ []

-- The members stand where the comments of the header say.
structs_places : All (λ (s : Struct). Commented 0 s.members × (sizeof s % 4 ≡ 0)) structs
unfolding sizeof
structs_places = omega arith
