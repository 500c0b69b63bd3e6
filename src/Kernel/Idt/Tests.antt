-- ===== src/Kernel/Idt/Tests.antt =====
-- The interrupt table at concrete vectors.
use sbuoperating_system.Prelude.{◌≡◌, refl, some, none, arith}
use sbuoperating_system.Kernel.Idt.{
  Idtd, Table, set_ir_in_idt, get_ir_from_idt, set_interrupt_service_routine,
}
use sbuoperating_system.Kernel.Idt.Gates.{get_ir-set_ir}

abbrev blank : Idtd
blank = record {
  offset_1 = 0;
  selector = 0;
  ist = 0;
  gate_type = 0;
  offset_2 = 0;
  offset_3 = 0;
  zero_word = 0;
}

abbrev table : Table
table n = blank

-- Vector 256 passes the guard.
overrun_runs : set_interrupt_service_routine 256 0x8E 1 table ≡ none
unfolding set_interrupt_service_routine
overrun_runs = refl

get_ir-set_ir_example :
    (t' : Table) × (set_ir_in_idt 32 0xffff_ffff_8020_1234 table ≡ some t')
    × (get_ir_from_idt 32 t' ≡ 0xffff_ffff_8020_1234)
get_ir-set_ir_example =
    get_ir-set_ir 32 0xffff_ffff_8020_1234 32 table (omega arith) (omega arith) (omega arith)
