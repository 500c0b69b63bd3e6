-- ===== src/Kernel/Ahci.antt =====
-- The memory of a host bus adapter, include/sys/ahci.h: the commands that it reads, the area where it
-- puts what a drive sends, and its registers, with the header's comments on where a member stands.
pub mod Fis
mod Tests
use sbuoperating_system.Prelude.{ℕ, ◌*◌, ◌-◌, List, [], ◌∷◌}
use sbuoperating_system.Kernel.Layout.{
  Struct, Member, field, bits, comment, uint8_t, uint16_t, uint32_t, uint64_t, sizeof,
}
use sbuoperating_system.Kernel.Ahci.Fis.{fis_reg_d2h, fis_dev_bits, fis_dma_setup, fis_pio_setup}

abbrev pub max_cmd_slot_cnt : ℕ
max_cmd_slot_cnt = 32

abbrev pub max_port_cnt : ℕ
max_port_cnt = 32

abbrev pub hba_prdt_entry : Struct
hba_prdt_entry = record {
  members =
      comment 0
      ∷ field "dba" uint64_t
      ∷ comment 8
      ∷ field "rsv0" uint32_t
      ∷ comment 12
      ∷ bits "dbc" 22
      ∷ bits "rsv1" 9
      ∷ bits "i" 1
      ∷ [];
  alignment = 1;
}

abbrev pub hba_cmd_tbl : Struct
hba_cmd_tbl = record {
  members =
      comment 0x00
      ∷ field "cfis" (uint8_t * 64)
      ∷ comment 0x40
      ∷ field "acmd" (uint8_t * 16)
      ∷ comment 0x50
      ∷ field "rsv" (uint8_t * 48)
      ∷ comment 0x80
      ∷ field "prdt_entry" (sizeof hba_prdt_entry * 1)
      ∷ [];
  alignment = 128;
}

abbrev pub hba_cmd_header : Struct
hba_cmd_header = record {
  members =
      comment 0
      ∷ bits "cfl" 5
      ∷ bits "a" 1
      ∷ bits "w" 1
      ∷ bits "p" 1
      ∷ bits "r" 1
      ∷ bits "b" 1
      ∷ bits "c" 1
      ∷ bits "rsv0" 1
      ∷ bits "pmp" 4
      ∷ field "prdtl" uint16_t
      ∷ comment 4
      ∷ field "prdbc" uint32_t
      ∷ comment 8
      ∷ field "ctba" uint64_t
      ∷ comment 16
      ∷ field "rsv1" (uint32_t * 4)
      ∷ [];
  alignment = 1;
}

abbrev pub hba_fis : Struct
hba_fis = record {
  members =
      comment 0x00
      ∷ field "dsfis" (sizeof fis_dma_setup)
      ∷ field "pad0" (uint8_t * 4)
      ∷ comment 0x20
      ∷ field "psfis" (sizeof fis_pio_setup)
      ∷ field "pad1" (uint8_t * 12)
      ∷ comment 0x40
      ∷ field "rfis" (sizeof fis_reg_d2h)
      ∷ field "pad2" (uint8_t * 4)
      ∷ comment 0x58
      ∷ field "sdbfis" (sizeof fis_dev_bits)
      ∷ comment 0x60
      ∷ field "ufis" (uint8_t * 64)
      ∷ comment 0xA0
      ∷ field "rsv" (uint8_t * 96)
      ∷ [];
  alignment = 256;
}

abbrev pub hba_cmd_list : Struct
hba_cmd_list = record {
  members = field "headers" (sizeof hba_cmd_header * max_cmd_slot_cnt) ∷ [];
  alignment = 1024;
}

abbrev pub hba_port : Struct
hba_port = record {
  members =
      comment 0x00
      ∷ field "clb" uint64_t
      ∷ comment 0x08
      ∷ field "fb" uint64_t
      ∷ comment 0x10
      ∷ field "is_rwc" uint32_t
      ∷ comment 0x14
      ∷ field "ie" uint32_t
      ∷ comment 0x18
      ∷ field "cmd" uint32_t
      ∷ comment 0x1C
      ∷ field "rsv0" uint32_t
      ∷ comment 0x20
      ∷ field "tfd" uint32_t
      ∷ comment 0x24
      ∷ field "sig" uint32_t
      ∷ comment 0x28
      ∷ field "ssts" uint32_t
      ∷ comment 0x2C
      ∷ field "sctl" uint32_t
      ∷ comment 0x30
      ∷ field "serr_rwc" uint32_t
      ∷ comment 0x34
      ∷ field "sact" uint32_t
      ∷ comment 0x38
      ∷ field "ci" uint32_t
      ∷ comment 0x3C
      ∷ field "sntf_rwc" uint32_t
      ∷ comment 0x40
      ∷ field "fbs" uint32_t
      ∷ comment 0x44
      ∷ field "rsv1" (uint32_t * 11)
      ∷ comment 0x70
      ∷ field "vendor" (uint32_t * 4)
      ∷ [];
  alignment = 1;
}

abbrev pub hba_mem : Struct
hba_mem = record {
  members =
      comment 0x00
      ∷ comment 0x00
      ∷ field "cap" uint32_t
      ∷ comment 0x04
      ∷ field "ghc" uint32_t
      ∷ comment 0x08
      ∷ field "is_rwc" uint32_t
      ∷ comment 0x0C
      ∷ field "pi" uint32_t
      ∷ comment 0x10
      ∷ field "vs" uint32_t
      ∷ comment 0x14
      ∷ field "ccc_ctl" uint32_t
      ∷ comment 0x18
      ∷ field "ccc_pts" uint32_t
      ∷ comment 0x1C
      ∷ field "em_loc" uint32_t
      ∷ comment 0x20
      ∷ field "em_ctl" uint32_t
      ∷ comment 0x24
      ∷ field "cap2" uint32_t
      ∷ comment 0x28
      ∷ field "bohc" uint32_t
      ∷ comment 0x2C
      ∷ field "rsv" (uint8_t * (0xA0 - 0x2C))
      ∷ comment 0xA0
      ∷ field "vendor" (uint8_t * (0x100 - 0xA0))
      ∷ comment 0x100
      ∷ field "ports" (sizeof hba_port * max_port_cnt)
      ∷ [];
  alignment = 1;
}
