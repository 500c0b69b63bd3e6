-- ===== src/Kernel/Idt.antt =====
-- The interrupt descriptor table of sys/idt.c and its accessors in sys/pic.c. The table is a
-- function of the index; a write behind its 256 entries is `none`.
pub mod Gates
mod Tests
use sbuoperating_system.Prelude.{
  ℕ, zero, suc, ◌+◌, ◌*◌, ◌/◌, ◌%◌, ◌^◌, Bool, true, false, ◌||◌, List, [], ◌∷◌, ◌-◌, Option, none,
  some, ltb, leb, ◌==◌, if◌then◌else◌,
}
use sbuoperating_system.Prelude.Bits.{◌<<<◌, ◌>>>◌}
use Prim.Native.Nat.{bit_or}
use sbuoperating_system.Memory.{codes}
use sbuoperating_system.Kernel.Console.{Console}
use sbuoperating_system.Kernel.Kprintf.{Arg, number, kprintf}

-- `struct idtd`
pub record Idtd : Type 0 where
  pub offset_1 : ℕ
  pub selector : ℕ
  pub ist : ℕ
  pub gate_type : ℕ
  pub offset_2 : ℕ
  pub offset_3 : ℕ
  pub zero_word : ℕ

abbrev pub Table : Type 0
Table = ℕ → Idtd

abbrev pub max_num_interrupts : ℕ
max_num_interrupts = 256

abbrev pub idt_selector : ℕ
idt_selector = 0x8

abbrev pub interrupt_gate_type_attr : ℕ
interrupt_gate_type_attr = 0x8E

-- The seven assignments of `set_interrupt_service_routine`.
unfoldable pub gate_for : ℕ → ℕ → Idtd
gate_for type addr = record {
  offset_1 = addr % 2 ^ 16;
  selector = idt_selector % 2 ^ 16;
  ist = 0;
  gate_type = type % 2 ^ 8;
  offset_2 = (addr >>> 16) % 2 ^ 16;
  offset_3 = (addr >>> 32) % 2 ^ 32;
  zero_word = 0;
}

unfoldable pub write_entry : ℕ → Idtd → Table → Option Table
write_entry n g t = if ltb n max_num_interrupts then some (λ m. if m == n then g else t m) else none

-- A handler is its address, and 0 is the null pointer. The number is unsigned, so the third test
-- of the source, `interrupt_service_num < 0`, never holds.
unfoldable pub set_interrupt_service_routine : ℕ → ℕ → ℕ → Table → Option Table
unfolding gate_for write_entry
set_interrupt_service_routine n type handler t =
    if handler == 0 || ltb max_num_interrupts n
    then some t
    else write_entry n (gate_for type handler) t

-- The entry that the returned pointer leads to, `none` for the null pointer.
unfoldable pub get_interrupt_service_routine : ℕ → Table → Option Idtd
get_interrupt_service_routine n t = if ltb n max_num_interrupts then some (t n) else none

unfoldable pub address_of : Idtd → ℕ
address_of g = bit_or (bit_or (g.offset_3 <<< 32) (g.offset_2 <<< 16)) g.offset_1

unfoldable pub get_ir_from_idt : ℕ → Table → ℕ
unfolding get_interrupt_service_routine address_of
get_ir_from_idt n t =
    if leb 256 n
    then 0
    else elim (get_interrupt_service_routine n t) [ none ↦ 0 | some g ↦ address_of g ]

unfoldable pub set_ir_in_idt : ℕ → ℕ → Table → Option Table
unfolding set_interrupt_service_routine
set_ir_in_idt n handler t =
    if leb 256 n then some t else set_interrupt_service_routine n interrupt_gate_type_attr handler t

-- `memset(&s_Idtd[0], 0, sizeof(Idtd) * MAX_NUM_INTERRUPTS - 1)`: the last byte of the last entry,
-- the high byte of its last word, keeps its value.
unfoldable pub clear_table : Table → Table
clear_table t n = record {
  offset_1 = 0;
  selector = 0;
  ist = 0;
  gate_type = 0;
  offset_2 = 0;
  offset_3 = 0;
  zero_word = if n == 255 then (t n).zero_word >>> 24 <<< 24 else 0;
}

-- The loop of `init_Idt`, with `k` rounds left.
install_from : ℕ → ℕ → ℕ → Table → Option Table
unfolding set_interrupt_service_routine
install_from zero i handler t = some t
install_from (suc k) i handler t =
    elim (set_interrupt_service_routine i interrupt_gate_type_attr handler t) [
      | none ↦ none
      | some t' ↦ install_from k (i + 1) handler t'
    ]

-- The table after `init_Idt`, for the address of `default_interrupt_service_routine`.
unfoldable pub init_table : ℕ → Table → Option Table
unfolding install_from clear_table
init_table handler t = install_from max_num_interrupts 0 handler (clear_table t)

-- `struct idtr`
pub record Idtr : Type 0 where
  pub limit : ℕ
  pub base : ℕ

-- `sizeof(Idtd)`: three words of 2 bytes, two bytes, and two words of 4 bytes.
abbrev pub idtd_size : ℕ
idtd_size = 3 * 2 + 2 + 2 * 4

abbrev pub idtr_message : List ℕ
idtr_message = codes "s_idtr: lim (%d) base(%p)\n"

-- `s_idtd` is the address of the table.
unfoldable pub init_idt : ℕ → ℕ → Table → Console → Option (Idtr × (Table × Console))
unfolding init_table
init_idt s_idtd handler t c =
    let idtr : Idtr = record {
      limit = (idtd_size * max_num_interrupts - 1) % 2 ^ 16;
      base = s_idtd % 2 ^ 64;
    } in
    elim (kprintf idtr_message (number idtr.limit ∷ number idtr.base ∷ []) c) [
      | none ↦ none
      | some c' ↦ elim (init_table handler t) [ none ↦ none | some t' ↦ some (idtr, (t', c')) ]
    ]
