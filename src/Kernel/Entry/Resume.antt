-- ===== src/Kernel/Entry/Resume.antt =====
-- What an interrupt leaves of the program that it interrupts.
use mathlib.Core.List.{reverse}
use native.Mathlib.Nat.{mod-eq_of_lt}
use sbuoperating_system.Prelude.{
  ℕ, ◌+◌, ◌*◌, ◌/◌, ◌%◌, ◌^◌, ◌<◌, ◌≤◌, ◌≡◌, refl, ap, ◌∙◌, Bool, true, false, List, [], ◌∷◌, ◌++◌,
  map, arith,
}
use sbuoperating_system.Kernel.Entry.{
  Reg, rax, rcx, rdx, rbx, rsi, rdi, rbp, r8, r9, r10, r11, r12, r13, r14, r15, Cpu, load_frame,
  return_from, Instruction, push, pop, call_helper, iretq, addq_rsp, run, saved, enter, serve,
}
use sbuoperating_system.Kernel.Entry.Call.{return_from-words, IsCallee, run-Around}
use sbuoperating_system.Kernel.Entry.Stack.{
  words, words-same, push_words, Pushed, push_words-Pushed, push_words-regs, push_words-control,
  assign,
}

-- The register that holds what `r` held, behind one interrupt.
pub mirror : Reg → Reg
mirror rax = rbp
mirror rcx = r15
mirror rdx = r14
mirror rbx = r13
mirror rsi = r12
mirror rdi = r11
mirror rbp = rax
mirror r8 = r8
mirror r9 = r9
mirror r10 = r10
mirror r11 = rdi
mirror r12 = rsi
mirror r13 = rbx
mirror r14 = rdx
mirror r15 = rcx

-- Registers that the routines save.
abbrev pub is_saved : Reg → Bool
is_saved r8 = false
is_saved r9 = false
is_saved r = true

mirrored :
    (regs others : Reg → ℕ) (r : Reg)
    → is_saved r ≡ true
    → assign saved (reverse (map regs saved)) others r ≡ regs (mirror r)
unfolding mirror
mirrored regs others r8 h = cc
mirrored regs others r9 h = cc
mirrored regs others rax h = refl
mirrored regs others r h = refl

-- The interrupted program goes on where it was, with its stack; what its registers hold is `held`.
pub record Resumed (c : Cpu) (held : Reg → ℕ) (c' : Cpu) : Type 0 where
  pub rip : c'.rip ≡ c.rip
  pub cs : c'.cs ≡ c.cs
  pub rflags : c'.rflags ≡ c.rflags
  pub rsp : c'.rsp ≡ c.rsp
  pub ss : c'.ss ≡ c.ss
  pub control : c'.control ≡ c.control
  pub above : (a : ℕ) → c.rsp ≤ a → c'.memory a ≡ c.memory a
  pub regs : (r : Reg) → is_saved r ≡ true → c'.regs r ≡ held r

abbrev pub frame : Cpu → List ℕ
frame c = c.ss ∷ c.rsp ∷ c.rflags ∷ c.cs ∷ c.rip ∷ []

-- What a program in execution has loaded, on a processor that has not faulted: selectors of 16 bits that a return may load again, and flags that
-- stay as they are when they are loaded.
pub record IsRunning (c : Cpu) : Type 0 where
  pub code : c.cs < 2 ^ 16
  pub stack : c.ss < 2 ^ 16
  pub accepted : c.control.accepts c.cs c.ss ≡ true
  pub flags : c.control.flags_of c.rflags ≡ c.rflags
  pub going : c.control.faulted ≡ false

return_from-frame :
    (c c' : Cpu) (held : Reg → ℕ)
    → IsRunning c
    → c'.control ≡ c.control
    → words c'.memory c'.rsp 5 ≡ reverse (frame c)
    → ((a : ℕ) → c.rsp ≤ a → c'.memory a ≡ c.memory a)
    → ((r : Reg) → is_saved r ≡ true → c'.regs r ≡ held r)
    → Resumed c held (return_from c')
return_from-frame c c' held live control e above same =
    let code : c.cs % 2 ^ 16 ≡ c.cs = mod-eq_of_lt live.code in
    let stack : c.ss % 2 ^ 16 ≡ c.ss = mod-eq_of_lt live.stack in
    let loaded : load_frame c.rip c.cs c.rflags c.rsp c.ss c'
        ≡ record c' { rip = c.rip; cs = c.cs; rflags = c.rflags; rsp = c.rsp; ss = c.ss } =
      unfold load_frame in rw (code, stack, control, live.accepted, live.flags) refl in
    rw (return_from-words c' 0 (reverse (frame c)) e) (
      rw loaded (record {
        rip = refl;
        cs = refl;
        rflags = refl;
        rsp = refl;
        ss = refl;
        control = control;
        above = above;
        regs = same;
      }))

-- An interrupt that is served by a routine that saves all registers but `r8` and `r9`.
abbrev pub routine : List Instruction
routine = map push saved ++ call_helper ∷ (map pop saved ++ iretq ∷ addq_rsp 8 ∷ [])

-- The stack has room for the frame, the saved registers and the helper.
abbrev pub HasRoom : ℕ → Cpu → Type 0
HasRoom depth c = (depth + 168 ≤ c.rsp) × (c.rsp < 2 ^ 64)

module _ (depth next : ℕ) (helper : Cpu → Cpu) (callee : IsCallee depth helper) where
  pub serve-Resumed :
      (handler : ℕ) (c : Cpu)
      → HasRoom depth c
      → IsRunning c
      → Resumed c (λ r. c.regs (mirror r)) (serve helper next handler routine c)
  serve-Resumed handler c (room, small) live =
      let base : Cpu = record c { rsp = c.rsp / 16 * 16 } in
      let framed = push_words (frame c) base in
      let entered = enter handler c in
      let f : Pushed (frame c) base framed =
        push_words-Pushed (frame c) base (omega arith) (omega arith) in
      let at : entered.rsp ≡ framed.rsp = unfold enter in refl in
      let mem : entered.memory ≡ framed.memory = unfold enter in refl in
      let regs : entered.regs ≡ c.regs = unfold enter in push_words-regs (frame c) base in
      let (c', ran, around) =
        run-Around depth next helper callee saved (iretq ∷ addq_rsp 8 ∷ []) entered
          (omega (arith, f.rsp, at)) (omega (arith, f.rsp, at)) in
      let keeps : (a : ℕ) → c.rsp ≤ a → c'.memory a ≡ c.memory a = λ a h.
        around.above a (omega (arith, at, f.rsp)) ∙ ap (λ m. m a) mem ∙ f.above a (omega (arith)) in
      let stack : words c'.memory c'.rsp 5 ≡ reverse (frame c) =
        words-same framed.memory c'.memory c'.rsp 5
          (λ a h. around.above a (omega (arith, around.rsp)) ∙ ap (λ m. m a) mem)
        ∙ ap (λ (a : ℕ). words framed.memory a 5) (around.rsp ∙ at)
        ∙ f.stack in
      let values : (r : Reg) → is_saved r ≡ true → c'.regs r ≡ c.regs (mirror r) = λ r h.
        ap (λ (g : Reg → ℕ). g r) around.regs
        ∙ mirrored entered.regs around.others r h
        ∙ ap (λ (g : Reg → ℕ). g (mirror r)) regs in
      let control : c'.control ≡ c.control =
        around.control ∙ unfold enter in push_words-control (frame c) base in
      let ends : serve helper next handler routine c ≡ return_from c' =
        unfold serve in ran ∙ unfold run in refl in
      rw ends (return_from-frame c c' (λ r. c.regs (mirror r)) live control stack keeps values)

pub mirror-mirror : (r : Reg) → mirror (mirror r) ≡ r
unfolding mirror
mirror-mirror r8 = refl
mirror-mirror r = refl

pub mirror-is_saved : (r : Reg) → is_saved (mirror r) ≡ is_saved r
unfolding mirror
mirror-is_saved r8 = refl
mirror-is_saved r = refl
