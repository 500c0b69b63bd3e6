-- ===== src/Kernel/Idt/Gates.antt =====
-- What the accessors of the interrupt table promise.
use sbuoperating_system.Prelude.{
  ℕ, zero, suc, ◌+◌, ◌*◌, ◌/◌, ◌%◌, ◌^◌, ◌<◌, ◌≤◌, ◌≡◌, ◌≢◌, ◌↔◌, refl, none, some, ltb, ◌==◌,
  if◌then◌else◌, arith,
}
use sbuoperating_system.Prelude.Bits.{bit_or_disjoint}
use sbuoperating_system.Kernel.Idt.{
  Table, gate_for, set_interrupt_service_routine, address_of, get_ir_from_idt, set_ir_in_idt,
  clear_table, install_from, init_table, max_num_interrupts, interrupt_gate_type_attr,
}

-- The three parts of an address, put together again.
pub address_of-gate_for : (type addr : ℕ) → addr < 2 ^ 64 → address_of (gate_for type addr) ≡ addr
unfolding address_of gate_for
address_of-gate_for type addr h = ground (
  arith,
  bit_or_disjoint 16 (addr / 2 ^ 16 % 2 ^ 16) 0 (omega arith),
  bit_or_disjoint 32 (addr / 2 ^ 32 % 2 ^ 32) (addr / 2 ^ 16 % 2 ^ 16 * 2 ^ 16) (omega arith),
  bit_or_disjoint 16 (addr / 2 ^ 16) (addr % 2 ^ 16) (omega arith),
)

pub set_ir-reads :
    (n addr : ℕ) (t : Table)
    → n < 256
    → 0 < addr
    → addr < 2 ^ 64
    → (t' : Table) × (set_ir_in_idt n addr t ≡ some t')
      × ((m : ℕ) → get_ir_from_idt m t' ≡ (if m == n then addr else get_ir_from_idt m t))
unfolding set_ir_in_idt get_ir_from_idt
set_ir-reads n addr t h p q = (
  λ k. if k == n then gate_for interrupt_gate_type_attr addr else t k,
  ground arith,
  λ m. ground (arith, address_of-gate_for interrupt_gate_type_attr addr q),
)

-- Installing a handler with a nonzero address below 2 ^ 64 on a vector below 256 succeeds; the
-- vector then reads back that address, and every other vector reads as before.
pub get_ir-set_ir :
    (n addr m : ℕ) (t : Table)
    → n < 256
    → 0 < addr
    → addr < 2 ^ 64
    → (t' : Table) × (set_ir_in_idt n addr t ≡ some t')
      × (get_ir_from_idt m t' ≡ (if m == n then addr else get_ir_from_idt m t))
get_ir-set_ir n addr m t h p q =
    let (t', wrote, reads) = set_ir-reads n addr t h p q in (t', wrote, reads m)

-- `set_interrupt_service_routine` writes behind the table exactly for a nonzero handler on vector
-- 256; in every other case it returns a table.
pub set_interrupt-overrun :
    (n type handler : ℕ) (t : Table)
    → (set_interrupt_service_routine n type handler t ≡ none) ↔ ((n ≡ 256) × (handler ≢ 0))
unfolding set_interrupt_service_routine
set_interrupt-overrun n type handler t =
    (λ e. (ground arith, ground arith), λ (e, ne). ground arith)

-- Below vector `i` and at a table's entries from `i` on.
abbrev Installed : ℕ → ℕ → Table → Table → Type 0
Installed i handler t t' =
    (m : ℕ) → m < 256 → t' m ≡ (if ltb m i then t m else gate_for interrupt_gate_type_attr handler)

install_from-Installed :
    (k i handler : ℕ) (t : Table)
    → k + i ≡ 256
    → 0 < handler
    → (t' : Table) × (install_from k i handler t ≡ some t') × Installed i handler t t'
unfolding install_from
install_from-Installed zero i handler t e p = (t, refl, λ m h. ground arith)
install_from-Installed (suc k) i handler t e p =
    let t₁ : Table = λ m. if m == i then gate_for interrupt_gate_type_attr handler else t m in
    let (t', ran, done) = install_from-Installed k (i + 1) handler t₁ (omega arith) p in
    let wrote : set_interrupt_service_routine i interrupt_gate_type_attr handler t ≡ some t₁ =
      unfold set_interrupt_service_routine in ground arith in
    (t', rw (wrote, install_from) ran, λ m h. ground (arith, done m h))

Installed-zero :
    (handler : ℕ) (t t' : Table)
    → Installed 0 handler t t'
    → (n : ℕ) → n < 256
    → t' n ≡ gate_for interrupt_gate_type_attr handler
Installed-zero handler t t' done n h = ground (arith, done n h)

pub init_table-reads :
    (handler : ℕ) (t : Table)
    → 0 < handler
    → (t' : Table) × (init_table handler t ≡ some t')
      × ((n : ℕ) → n < 256 → t' n ≡ gate_for interrupt_gate_type_attr handler)
unfolding init_table
init_table-reads handler t p =
    let (t', ran, installed) =
      install_from-Installed max_num_interrupts 0 handler (clear_table t) (omega arith) p in
    (t', ran, λ n h. Installed-zero handler (clear_table t) t' installed n h)

-- For a nonzero default handler `init_Idt` stays within the table, and leaves every one of the 256
-- vectors an interrupt gate for that handler.
pub init_table_lem :
    (handler n : ℕ) (t : Table)
    → 0 < handler
    → n < 256
    → (t' : Table) × (init_table handler t ≡ some t')
      × (t' n ≡ gate_for interrupt_gate_type_attr handler)
init_table_lem handler n t p h =
    let (t', ran, gates) = init_table-reads handler t p in (t', ran, gates n h)

pub gate-read :
    (handler n : ℕ) (t : Table)
    → n < 256
    → handler < 2 ^ 64
    → t n ≡ gate_for interrupt_gate_type_attr handler
    → get_ir_from_idt n t ≡ handler
unfolding get_ir_from_idt
gate-read handler n t h q e =
    ground (arith, e, address_of-gate_for interrupt_gate_type_attr handler q)

pub gate-none : (n : ℕ) (t : Table) → 256 ≤ n → get_ir_from_idt n t ≡ 0
unfolding get_ir_from_idt
gate-none n t h = ground arith
