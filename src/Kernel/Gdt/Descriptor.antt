-- ===== src/Kernel/Gdt/Descriptor.antt =====
-- What the processor reads from the descriptor.
use Prim.Native.Nat.{bit_or}
use sbuoperating_system.Prelude.{ℕ, ◌+◌, ◌%◌, ◌^◌, ◌<◌, ◌≡◌, refl, arith, ◌/◌, ◌∙◌}
use sbuoperating_system.Prelude.Bits.{◌<<<◌, bit_or_disjoint}
use sbuoperating_system.Kernel.Gdt.{SysSegmentDescriptor, tss_size, init_gdt}

-- The base and the limit that the processor reads from a descriptor.
abbrev pub segment_base : SysSegmentDescriptor → ℕ
segment_base sd = bit_or (sd.sd_hibase <<< 24) sd.sd_lobase

abbrev pub segment_limit : SysSegmentDescriptor → ℕ
segment_limit sd = bit_or (sd.sd_hilimit <<< 16) sd.sd_lolimit

-- For a segment with an address below 2 ^ 64, after `init_gdt` the processor finds it at that
-- address, with its last byte as the limit, as a present segment of type 9 and of privilege 0, with
-- the limit in bytes.
pub init_gdt_lem :
    (tss : ℕ) (sd : SysSegmentDescriptor)
    → tss < 2 ^ 64
    → (segment_base (init_gdt tss sd) ≡ tss)
      × (segment_limit (init_gdt tss sd) + 1 ≡ tss_size)
      × ((init_gdt tss sd).sd_type ≡ 9)
      × ((init_gdt tss sd).sd_p ≡ 1)
      × ((init_gdt tss sd).sd_dpl ≡ 0)
      × ((init_gdt tss sd).sd_gran ≡ 0)
unfolding init_gdt
init_gdt_lem tss sd h = (
  bit_or_disjoint 24 (tss / 2 ^ 24 % 2 ^ 40) (tss % 2 ^ 24) (omega arith) ∙ omega arith,
  refl,
  refl,
  refl,
  refl,
  refl,
)
