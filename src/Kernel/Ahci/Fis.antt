-- ===== src/Kernel/Ahci/Fis.antt =====
-- The messages between the host and a drive, include/sys/ahci.h: the structs of the eight kinds of FIS
-- that the header declares, with its comments on where a double word begins.
use sbuoperating_system.Prelude.{ℕ, ◌*◌, ◌≡◌, refl, arith, [], ◌∷◌}
use sbuoperating_system.Kernel.Layout.{
  Struct, field, bits, comment, uint8_t, uint16_t, uint32_t, uint64_t,
}

pub data FisType : Type 0 where
  reg_h2d : FisType
  reg_d2h : FisType
  dma_act : FisType
  dma_setup : FisType
  payload : FisType
  bist : FisType
  pio_setup : FisType
  dev_bits : FisType

-- The number in the first byte of a FIS.
abbrev pub fis_type : FisType → ℕ
fis_type reg_h2d = 0x27
fis_type reg_d2h = 0x34
fis_type dma_act = 0x39
fis_type dma_setup = 0x41
fis_type payload = 0x46
fis_type bist = 0x58
fis_type pio_setup = 0x5F
fis_type dev_bits = 0xA1

abbrev pub fis_reg_h2d : Struct
fis_reg_h2d = record {
  members =
      comment 0
      ∷ field "fis_type" uint8_t
      ∷ bits "pmport" 4
      ∷ bits "rsv0" 3
      ∷ bits "c" 1
      ∷ field "command" uint8_t
      ∷ field "featurel" uint8_t
      ∷ comment 4
      ∷ field "lba0" uint8_t
      ∷ field "lba1" uint8_t
      ∷ field "lba2" uint8_t
      ∷ field "device" uint8_t
      ∷ comment 8
      ∷ field "lba3" uint8_t
      ∷ field "lba4" uint8_t
      ∷ field "lba5" uint8_t
      ∷ field "featureh" uint8_t
      ∷ comment 12
      ∷ field "count" uint16_t
      ∷ field "icc" uint8_t
      ∷ field "control" uint8_t
      ∷ comment 16
      ∷ field "aux" uint16_t
      ∷ field "rsv1" (uint8_t * 2)
      ∷ [];
  alignment = 1;
}

abbrev pub fis_reg_d2h : Struct
fis_reg_d2h = record {
  members =
      comment 0
      ∷ field "fis_type" uint8_t
      ∷ bits "pmport" 4
      ∷ bits "rsv0" 2
      ∷ bits "i" 1
      ∷ bits "rsv1" 1
      ∷ field "status" uint8_t
      ∷ field "error" uint8_t
      ∷ comment 4
      ∷ field "lba0" uint8_t
      ∷ field "lba1" uint8_t
      ∷ field "lba2" uint8_t
      ∷ field "device" uint8_t
      ∷ comment 8
      ∷ field "lba3" uint8_t
      ∷ field "lba4" uint8_t
      ∷ field "lba5" uint8_t
      ∷ field "rsv2" uint8_t
      ∷ comment 12
      ∷ field "count" uint16_t
      ∷ field "rsv3" (uint8_t * 2)
      ∷ comment 16
      ∷ field "rsv4" (uint8_t * 4)
      ∷ [];
  alignment = 1;
}

abbrev pub fis_dev_bits : Struct
fis_dev_bits = record {
  members =
      comment 0
      ∷ field "fis_type" uint8_t
      ∷ bits "pmport" 4
      ∷ bits "rsv0" 2
      ∷ bits "i" 1
      ∷ bits "n" 1
      ∷ bits "statusl" 3
      ∷ bits "rsv1" 1
      ∷ bits "statush" 3
      ∷ bits "rsv2" 1
      ∷ field "error" uint8_t
      ∷ comment 4
      ∷ field "protocol" uint32_t
      ∷ [];
  alignment = 1;
}

abbrev pub fis_dma_setup : Struct
fis_dma_setup = record {
  members =
      comment 0
      ∷ field "fis_type" uint8_t
      ∷ bits "pmport" 4
      ∷ bits "rsv0" 1
      ∷ bits "d" 1
      ∷ bits "i" 1
      ∷ bits "a" 1
      ∷ field "rsved" (uint8_t * 2)
      ∷ comment 4
      ∷ field "buf_id" uint64_t
      ∷ comment 12
      ∷ field "rsv1" uint32_t
      ∷ comment 16
      ∷ field "buf_offset" uint32_t
      ∷ comment 20
      ∷ field "trans_count" uint32_t
      ∷ comment 24
      ∷ field "rsv2" uint32_t
      ∷ [];
  alignment = 1;
}

abbrev pub fis_pio_setup : Struct
fis_pio_setup = record {
  members =
      comment 0
      ∷ field "fis_type" uint8_t
      ∷ bits "pmport" 4
      ∷ bits "rsv0" 1
      ∷ bits "d" 1
      ∷ bits "i" 1
      ∷ bits "rsv1" 1
      ∷ field "status" uint8_t
      ∷ field "error" uint8_t
      ∷ comment 4
      ∷ field "lba0" uint8_t
      ∷ field "lba1" uint8_t
      ∷ field "lba2" uint8_t
      ∷ field "device" uint8_t
      ∷ comment 8
      ∷ field "lba3" uint8_t
      ∷ field "lba4" uint8_t
      ∷ field "lba5" uint8_t
      ∷ field "rsv2" uint8_t
      ∷ comment 12
      ∷ field "count" uint16_t
      ∷ field "rsv3" uint8_t
      ∷ field "e_status" uint8_t
      ∷ comment 16
      ∷ field "trans_count" uint16_t
      ∷ field "rsv4" (uint8_t * 2)
      ∷ [];
  alignment = 1;
}

abbrev pub fis_data : Struct
fis_data = record {
  members =
      comment 0
      ∷ field "fis_type" uint8_t
      ∷ bits "pmport" 4
      ∷ bits "rsv0" 4
      ∷ field "rsv1" (uint8_t * 2)
      ∷ comment 4
      ∷ field "data" (uint32_t * 1)
      ∷ [];
  alignment = 1;
}

-- The first byte of a FIS says of which type it is.
fis_type-injective : (a b : FisType) → fis_type a ≡ fis_type b → a ≡ b
fis_type-injective reg_h2d reg_h2d e = refl
fis_type-injective a b e = ground (arith, e)
