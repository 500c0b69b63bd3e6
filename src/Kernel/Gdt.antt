-- ===== src/Kernel/Gdt.antt =====
-- The segment table and the descriptor of the task state segment, sys/gdt.c. The bit fields are
-- numbers below two to their widths; an assignment keeps the low bits.
pub mod Descriptor
pub mod Load
mod Tests
use Prim.Native.Nat.{bit_or}
use sbuoperating_system.Prelude.{
  List, [], ◌∷◌, replicate, ℕ, ◌-◌, ◌+◌, ◌%◌, ◌*◌, ◌^◌, ◌<◌, ◌≡◌, ◌≤◌, refl, arith, ◌/◌,
}
use sbuoperating_system.Prelude.Bits.{◌<<<◌, ◌>>>◌, bit_or_disjoint}

-- `struct sys_segment_descriptor`
pub record SysSegmentDescriptor : Type 0 where
  pub sd_lolimit : ℕ
  pub sd_lobase : ℕ
  pub sd_type : ℕ
  pub sd_dpl : ℕ
  pub sd_p : ℕ
  pub sd_hilimit : ℕ
  pub sd_xx1 : ℕ
  pub sd_gran : ℕ
  pub sd_hibase : ℕ
  pub sd_xx2 : ℕ
  pub sd_zero : ℕ
  pub sd_xx3 : ℕ

-- `struct tss_t`, packed.
pub record Tss : Type 0 where
  pub reserved_0 : ℕ
  pub rsp0 : ℕ
  pub rsp1 : ℕ
  pub rsp2 : ℕ
  pub reserved_1 : ℕ
  pub ist1 : ℕ
  pub ist2 : ℕ
  pub ist3 : ℕ
  pub ist4 : ℕ
  pub ist5 : ℕ
  pub ist6 : ℕ
  pub ist7 : ℕ
  pub reserved_2 : ℕ
  pub reserved_3 : ℕ
  pub iomap_base : ℕ

-- `sizeof(struct tss_t)`: one word of 4 bytes, 12 of 8, and 2 of 2.
abbrev pub tss_size : ℕ
tss_size = 4 + 12 * 8 + 2 * 2

-- The stores to the descriptor; `tss` is the address of the segment.
pub init_gdt : ℕ → SysSegmentDescriptor → SysSegmentDescriptor
init_gdt tss sd = record sd {
  sd_lolimit = (tss_size - 1) % 2 ^ 16;
  sd_lobase = tss % 2 ^ 24;
  sd_type = 9;
  sd_dpl = 0;
  sd_p = 1;
  sd_hilimit = 0;
  sd_gran = 0;
  sd_hibase = (tss >>> 24) % 2 ^ 40;
}

pub set_tss_rsp : ℕ → Tss → Tss
set_tss_rsp rsp tss = record tss { rsp0 = rsp }

abbrev pub gdt_cs : ℕ
gdt_cs = 0x0018_0000_0000_00

abbrev pub gdt_ds : ℕ
gdt_ds = 0x0010_0000_0000_00

abbrev pub dpl0 : ℕ
dpl0 = 0

abbrev pub dpl3 : ℕ
dpl3 = 0x0060_0000_0000_00

abbrev pub present : ℕ
present = 0x0080_0000_0000_00

abbrev pub long_mode : ℕ
long_mode = 0x2000_0000_0000_00

abbrev pub writable : ℕ
writable = 0x0002_0000_0000_00

abbrev pub max_gdt : ℕ
max_gdt = 32

-- `gdt[]`: the null, kernel and user segments, the task state segment, and unused entries.
pub gdt : List ℕ
gdt =
    0
    ∷ bit_or (bit_or (bit_or gdt_cs present) dpl0) long_mode
    ∷ bit_or (bit_or (bit_or gdt_ds present) writable) dpl0
    ∷ bit_or (bit_or (bit_or gdt_cs present) dpl3) long_mode
    ∷ bit_or (bit_or (bit_or gdt_ds present) writable) dpl3
    ∷ 0
    ∷ 0
    ∷ replicate (max_gdt - 7) 0

-- `struct gdtr_t`
pub record Gdtr : Type 0 where
  pub size : ℕ
  pub addr : ℕ

-- `gdtr`, for the address of the table.
pub gdtr : ℕ → Gdtr
gdtr table = record { size = max_gdt * 8 % 2 ^ 16; addr = table }
