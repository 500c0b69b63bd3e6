-- ===== src/Kernel/Gdt/Tests.antt =====
-- The descriptor of a segment in the upper half, and the registers at concrete values.
use sbuoperating_system.Prelude.{
  true, false, ℕ, ◌/◌, ◌%◌, ◌^◌, ◌*◌, [], ◌∷◌, map, take, length, ◌≡◌, refl, arith,
}
use sbuoperating_system.Kernel.Gdt.{SysSegmentDescriptor, init_gdt, gdt, gdtr}
use sbuoperating_system.Kernel.Gdt.Load.{Segments, Loaded, load_registers, load_registers-Loaded}
use sbuoperating_system.Kernel.Gdt.Descriptor.{segment_base}

abbrev empty : SysSegmentDescriptor
empty = record {
  sd_lolimit = 0;
  sd_lobase = 0;
  sd_type = 0;
  sd_dpl = 0;
  sd_p = 0;
  sd_hilimit = 0;
  sd_xx1 = 0;
  sd_gran = 0;
  sd_hibase = 0;
  sd_xx2 = 0;
  sd_zero = 0;
  sd_xx3 = 0;
}

upper_base : segment_base (init_gdt 0xffff_ffff_8020_1234 empty) ≡ 0xffff_ffff_8020_1234
unfolding init_gdt
upper_base = refl

-- The privilege of a descriptor, and the other bits of its access byte.
abbrev privilege : ℕ → ℕ
privilege descriptor = descriptor / 2 ^ 45 % 4

-- The kernel's segments have privilege 0, the user's 3.
privileges : map privilege (take 5 gdt) ≡ 0 ∷ 0 ∷ 0 ∷ 3 ∷ 3 ∷ []
unfolding gdt
privileges = refl

-- The limit of the register is one too large.
gdtr_size : (gdtr 0x1000).size ≡ 8 * length gdt
unfolding gdt gdtr
gdtr_size = refl

abbrev segments : Segments
segments = record {
  cpu = record {
    regs = λ r. 0;
    rsp = 4096;
    rip = 100;
    cs = 0;
    ss = 0;
    rflags = 2;
    memory = λ a. 7;
    control = record { accepts = λ cs ss. true; flags_of = λ flags. flags; faulted = false };
  };
  gdtr = 0;
  tr = 0;
  ds = 0;
  es = 0;
  fs = 0;
  gs = 0;
}

load_registers-Loaded_example :
    Loaded 0x1000 400 segments (load_registers 0x1000 200 300 400 segments)
load_registers-Loaded_example =
    load_registers-Loaded 0x1000 200 300 400 segments (omega arith) (omega arith)
