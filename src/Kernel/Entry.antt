-- ===== src/Kernel/Entry.antt =====
-- The entry of the interrupts: sys/pit.s, sys/ps2Controller.s, sys/idt.s and include/sys/asm_util.h, with
-- `sti` and `cli` of sys/idt.c. The processor is a record; `memory` gives the 8 bytes at an address as one
-- number, since every access is to a whole word of an aligned stack, and `rip` is kept where it leaves a
-- routine, not from one instruction of a routine to the next. The compiled body of a helper is a parameter,
-- from its first instruction up to its return.
pub mod Stack
pub mod Call
pub mod Resume
pub mod Serves
pub mod Default
pub mod Pushad
mod Tests
use sbuoperating_system.Prelude.{
  ℕ, ◌+◌, ◌-◌, ◌*◌, ◌/◌, ◌%◌, ◌^◌, Bool, true, List, [], ◌∷◌, ◌++◌, map, ◌==◌, if◌then◌else◌,
}
use sbuoperating_system.Kernel.Idt.{idt_selector}

pub data Reg : Type 0 where
  rax : Reg
  rcx : Reg
  rdx : Reg
  rbx : Reg
  rsi : Reg
  rdi : Reg
  rbp : Reg
  r8 : Reg
  r9 : Reg
  r10 : Reg
  r11 : Reg
  r12 : Reg
  r13 : Reg
  r14 : Reg
  r15 : Reg

abbrev pub index : Reg → ℕ
index rax = 0
index rcx = 1
index rdx = 2
index rbx = 3
index rbp = 5
index rsi = 6
index rdi = 7
index r8 = 8
index r9 = 9
index r10 = 10
index r11 = 11
index r12 = 12
index r13 = 13
index r14 = 14
index r15 = 15

abbrev pub set_reg : Reg → ℕ → (Reg → ℕ) → Reg → ℕ
set_reg r v regs q = if index r == index q then v else regs q

-- What of the processor no instruction here sets but a refused return: which selectors of code and stack
-- the segment table lets a return load, what becomes of a word that is loaded into the flags, where some bits
-- are fixed, and whether a return was refused by the general protection fault.
pub record Control : Type 0 where
  pub accepts : (cs ss : ℕ) → Bool
  pub flags_of : ℕ → ℕ
  pub faulted : Bool

pub record Cpu : Type 0 where
  pub regs : Reg → ℕ
  pub rsp : ℕ
  pub rip : ℕ
  pub cs : ℕ
  pub ss : ℕ
  pub rflags : ℕ
  pub memory : ℕ → ℕ
  pub control : Control

unfoldable pub push_word : ℕ → Cpu → Cpu
push_word v c =
    let top = (c.rsp + 2 ^ 64 - 8) % 2 ^ 64 in
    record c { rsp = top; memory = λ a. if a == top then v else c.memory a }

pub pop_reg : Reg → Cpu → Cpu
pop_reg r c = record c { regs = set_reg r (c.memory c.rsp) c.regs; rsp = (c.rsp + 8) % 2 ^ 64 }

-- `iretq` loads the five words of a frame. A selector is the low 16 bits of its word, and where the
-- selectors are refused nothing is loaded.
pub load_frame : (at code flags top stack : ℕ) → Cpu → Cpu
load_frame at code flags top stack c =
    if c.control.accepts (code % 2 ^ 16) (stack % 2 ^ 16)
    then record c {
      rip = at;
      cs = code % 2 ^ 16;
      rflags = c.control.flags_of flags;
      rsp = top;
      ss = stack % 2 ^ 16;
    }
    else record c { control = record c.control { faulted = true } }

-- The frame is on the stack.
pub return_from : Cpu → Cpu
unfolding load_frame
return_from c =
    load_frame (c.memory c.rsp) (c.memory (c.rsp + 8)) (c.memory (c.rsp + 16))
      (c.memory (c.rsp + 24)) (c.memory (c.rsp + 32)) c

pub data Instruction : Type 0 where
  push : Reg → Instruction
  pop : Reg → Instruction
  call_helper : Instruction
  iretq : Instruction
  addq_rsp : ℕ → Instruction

-- `helper` runs behind the push of the return address `next`, and its return takes the address off.
pub run : (Cpu → Cpu) → ℕ → List Instruction → Cpu → Cpu
unfolding push_word pop_reg return_from
run helper next [] c = c
run helper next (push r ∷ is) c = run helper next is (push_word (c.regs r) c)
run helper next (pop r ∷ is) c = run helper next is (pop_reg r c)
run helper next (call_helper ∷ is) c =
    let c' = helper (push_word next c) in
    run helper next is (record c' { rsp = (c'.rsp + 8) % 2 ^ 64 })
run helper next (iretq ∷ is) c = return_from c
run helper next (addq_rsp n ∷ is) c = run helper next is (record c { rsp = (c.rsp + n) % 2 ^ 64 })

abbrev pub saved : List Reg
saved = rax ∷ rcx ∷ rdx ∷ rbx ∷ rsi ∷ rdi ∷ r10 ∷ r11 ∷ r12 ∷ r13 ∷ r14 ∷ r15 ∷ rbp ∷ []

unfoldable pub pit_interrupt_service_routine : List Instruction
pit_interrupt_service_routine =
    map push saved ++ call_helper ∷ (map pop saved ++ iretq ∷ addq_rsp 8 ∷ [])

unfoldable pub keyboard_interrupt_service_routine : List Instruction
keyboard_interrupt_service_routine =
    map push saved ++ call_helper ∷ (map pop saved ++ iretq ∷ addq_rsp 8 ∷ [])

abbrev pub saved_by_pushad : List Reg
saved_by_pushad = rax ∷ rbx ∷ rcx ∷ rdx ∷ rdi ∷ rsi ∷ r10 ∷ r11 ∷ r12 ∷ r13 ∷ r14 ∷ r15 ∷ []

pub pushad : List Instruction
pushad = map push saved_by_pushad

pub popad : List Instruction
popad = map pop saved_by_pushad ++ pop rbp ∷ iretq ∷ []

-- The interrupt flag, bit 9 of the flags.
abbrev pub interrupt_flag : ℕ → ℕ
interrupt_flag flags = flags / 2 ^ 9 % 2

-- `sti` and `cli`.
pub enable_interrupts : Cpu → Cpu
enable_interrupts c = record c { rflags = c.rflags - interrupt_flag c.rflags * 2 ^ 9 + 2 ^ 9 }

pub disable_interrupts : Cpu → Cpu
disable_interrupts c = record c { rflags = c.rflags - interrupt_flag c.rflags * 2 ^ 9 }

-- The processor takes an interrupt through a gate: it aligns the stack, pushes the frame, turns further
-- interrupts off and goes on at the handler.
pub enter : ℕ → Cpu → Cpu
unfolding push_word
enter handler c =
    let framed = push_word c.rip (
      push_word c.cs (
        push_word c.rflags
          (push_word c.rsp (push_word c.ss (record c { rsp = c.rsp / 16 * 16 }))))) in
    record framed {
      rip = handler;
      cs = idt_selector;
      rflags = c.rflags - interrupt_flag c.rflags * 2 ^ 9;
    }

-- An interrupt from its entry to the return behind it.
pub serve : (Cpu → Cpu) → ℕ → ℕ → List Instruction → Cpu → Cpu
unfolding enter run
serve helper next handler routine c = run helper next routine (enter handler c)

-- The helper of the default routine is the one instruction `iretq`, so the routine is not come back to.
-- Compiled with `-O1` it has no instructions in front of it.
pub helper_interrupt_service_routine : Cpu → Cpu
unfolding return_from
helper_interrupt_service_routine c = return_from c

-- An interrupt on a vector that has the default routine.
pub serve_default : ℕ → ℕ → Cpu → Cpu
unfolding enter run push_word helper_interrupt_service_routine
serve_default next handler c =
    helper_interrupt_service_routine
      (push_word next (run (λ c. c) next (map push saved) (enter handler c)))
