-- ===== src/Kernel/Gdt/Load.antt =====
-- Loading the segment registers and the task register: sys/gdt.s, and the two calls at the end of init_gdt
-- in sys/gdt.c. A selector is the number in its register.
use sbuoperating_system.Prelude.{ℕ, ◌+◌, ◌/◌, ◌%◌, ◌^◌, ◌<◌, ◌≤◌, ◌≡◌, refl, some, arith, get_elem?}
use sbuoperating_system.Kernel.Gdt.{gdt, gdt_cs, gdt_ds, present, long_mode, writable}
use sbuoperating_system.Kernel.Idt.{idt_selector}
use sbuoperating_system.Kernel.Entry.{rdi, rsi, rdx, r10, set_reg, Cpu, push_word}

-- `gdtr` is the address that the table register was loaded from.
pub record Segments : Type 0 where
  pub cpu : Cpu
  pub gdtr : ℕ
  pub tr : ℕ
  pub ds : ℕ
  pub es : ℕ
  pub fs : ℕ
  pub gs : ℕ

-- `retq`
pub near_return : Cpu → Cpu
near_return c = record c { rip = c.memory c.rsp; rsp = (c.rsp + 8) % 2 ^ 64 }

-- `lretq`: the code segment stands above the address.
pub far_return : Cpu → Cpu
far_return c = record c {
  rip = c.memory c.rsp;
  cs = c.memory (c.rsp + 8) % 2 ^ 16;
  rsp = (c.rsp + 16) % 2 ^ 64;
}

-- `done` is the address of the label.
pub asm_lgdt : ℕ → Segments → Segments
unfolding push_word far_return near_return
asm_lgdt done s =
    let c = push_word (s.cpu.regs rsi) s.cpu in
    let c = push_word done (record c { regs = set_reg r10 done c.regs }) in
    let c = far_return c in
    let selector = s.cpu.regs rdx % 2 ^ 16 in
    record s {
      cpu = near_return (record c { ss = selector });
      gdtr = s.cpu.regs rdi;
      ds = selector;
      es = selector;
      fs = selector;
      gs = selector;
    }

pub asm_ltr : Segments → Segments
unfolding near_return
asm_ltr s = record s { cpu = near_return s.cpu; tr = s.cpu.regs rdi % 2 ^ 16 }

-- The two calls, which return to `next` and to `next'`; `table` is the address of `gdtr`.
pub load_registers : ℕ → ℕ → ℕ → ℕ → Segments → Segments
unfolding asm_lgdt asm_ltr push_word
load_registers table done next next' s =
    let c = record s.cpu { regs = set_reg rdx 16 (set_reg rsi 8 (set_reg rdi table s.cpu.regs)) } in
    let s = asm_lgdt done (record s { cpu = push_word next c }) in
    let c = record s.cpu { regs = set_reg rdi 0x28 s.cpu.regs } in
    asm_ltr (record s { cpu = push_word next' c })

-- What the two calls leave.
pub record Loaded (table next' : ℕ) (s s' : Segments) : Type 0 where
  pub gdtr : s'.gdtr ≡ table
  pub tr : s'.tr ≡ 0x28
  pub cs : s'.cpu.cs ≡ idt_selector
  pub code : get_elem? gdt (s'.cpu.cs / 8) ≡ some (gdt_cs + present + long_mode)
  pub ss : s'.cpu.ss ≡ 16
  pub stack : get_elem? gdt (s'.cpu.ss / 8) ≡ some (gdt_ds + present + writable)
  pub ds : s'.ds ≡ 16
  pub es : s'.es ≡ 16
  pub fs : s'.fs ≡ 16
  pub gs : s'.gs ≡ 16
  pub rip : s'.cpu.rip ≡ next'
  pub rsp : s'.cpu.rsp ≡ s.cpu.rsp
  pub above : (a : ℕ) → s.cpu.rsp ≤ a → s'.cpu.memory a ≡ s.cpu.memory a

module _ (table done next next' : ℕ) (s : Segments) (room : 24 ≤ s.cpu.rsp)
    (small : s.cpu.rsp < 2 ^ 64) where
  load_cs : (load_registers table done next next' s).cpu.cs ≡ idt_selector
  unfolding load_registers push_word
  load_cs = ground arith

  load_code :
      get_elem? gdt ((load_registers table done next next' s).cpu.cs / 8)
      ≡ some (gdt_cs + present + long_mode)
  load_code = rw load_cs (unfold gdt in refl)

-- From a stack with room for three words, the two calls at the end of `init_gdt` return: the table register
-- is loaded from `gdtr` and the task register selects 0x28; the code segment is the selector of the interrupt
-- gates, whose entry in the table is the kernel's code, present and in long mode; the other five segments
-- select the kernel's data, present and writable; the stack pointer is that of before, and no word at or
-- above it is changed.
pub load_registers-Loaded :
    (table done next next' : ℕ) (s : Segments)
    → 24 ≤ s.cpu.rsp
    → s.cpu.rsp < 2 ^ 64
    → Loaded table next' s (load_registers table done next next' s)
unfolding load_registers push_word
load_registers-Loaded table done next next' s room small = record {
  gdtr = refl;
  tr = refl;
  cs = load_cs table done next next' s room small;
  code = load_code table done next next' s room small;
  ss = refl;
  stack = unfold gdt in refl;
  ds = refl;
  es = refl;
  fs = refl;
  gs = refl;
  rip = ground arith;
  rsp = omega arith;
  above = λ a h. ground arith;
}
