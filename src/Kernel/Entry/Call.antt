-- ===== src/Kernel/Entry/Call.antt =====
-- A call between the instructions that save registers and those that load them again.
use mathlib.Core.List.{reverse}
use sbuoperating_system.Prelude.{
  ℕ, suc, ◌+◌, ◌*◌, ◌%◌, ◌^◌, ◌<◌, ◌≤◌, ◌≡◌, refl, sym, ap, ◌∙◌, List, [], ◌∷◌, ◌++◌, map, arith,
  length, get_or,
}
use sbuoperating_system.Kernel.Entry.{
  load_frame, return_from, Reg, Cpu, push_word, Instruction, push, pop, call_helper, run,
}
use sbuoperating_system.Kernel.Entry.Stack.{
  words, words-same, push_words, Pushed, push_words-Pushed, push_words-control, assign, run-push,
  run-pop,
}

-- The convention of a call: with `depth` bytes of stack the code comes to its return with the stack
-- pointer of its entry, and changes nothing at or above it. Registers may hold anything.
pub record IsCallee (depth : ℕ) (helper : Cpu → Cpu) : Type 0 where
  pub rsp : (c : Cpu) → depth ≤ c.rsp → (helper c).rsp ≡ c.rsp
  pub above : (c : Cpu) (a : ℕ) → depth ≤ c.rsp → c.rsp ≤ a → (helper c).memory a ≡ c.memory a
  pub control : (c : Cpu) → (helper c).control ≡ c.control

-- The registers `rs` have been pushed and popped around a call.
pub record Around (rs : List Reg) (c c' : Cpu) : Type 0 where
  pub others : Reg → ℕ
  pub regs : c'.regs ≡ assign rs (reverse (map c.regs rs)) others
  pub rsp : c'.rsp ≡ c.rsp
  pub above : (a : ℕ) → c.rsp ≤ a → c'.memory a ≡ c.memory a
  pub control : c'.control ≡ c.control

length-map : (f : Reg → ℕ) (rs : List Reg) → length (map f rs) ≡ length rs
length-map f [] = refl
length-map f (r ∷ rs) = ap suc (length-map f rs)

module _ (depth next : ℕ) (helper : Cpu → Cpu) (callee : IsCallee depth helper) where
  pub run-Around :
      (rs : List Reg) (is : List Instruction) (c : Cpu)
      → depth + 8 + 8 * length rs ≤ c.rsp
      → c.rsp < 2 ^ 64
      → (c' : Cpu) × (run helper next (map push rs ++ call_helper ∷ (map pop rs ++ is)) c
          ≡ run helper next is c')
        × Around rs c c'
  run-Around rs is c room small =
      let count : length (map c.regs rs) ≡ length rs = length-map c.regs rs in
      let c₁ = push_words (map c.regs rs) c in
      let kept : Pushed (map c.regs rs) c c₁ =
        push_words-Pushed (map c.regs rs) c (omega (arith, count)) small in
      let c₂ = push_word next c₁ in
      let called : Pushed (next ∷ []) c₁ c₂ =
        push_words-Pushed (next ∷ []) c₁ (omega (arith, count, kept.rsp))
          (omega (arith, kept.rsp)) in
      let deep : depth ≤ c₂.rsp = omega (arith, count, kept.rsp, called.rsp) in
      let back : ((helper c₂).rsp + 8) % 2 ^ 64 ≡ c₁.rsp =
        omega (arith, callee.rsp c₂ deep, called.rsp, kept.rsp) in
      let c₃ : Cpu = record (helper c₂) { rsp = c₁.rsp } in
      let same : (a : ℕ) → c₁.rsp ≤ a → c₃.memory a ≡ c₁.memory a =
        λ a h. callee.above c₂ a deep (omega (arith, called.rsp)) ∙ called.above a h in
      let top : c₁.rsp + 8 * length rs ≡ c.rsp = omega (arith, count, kept.rsp) in
      let stack : words c₃.memory c₁.rsp (length rs) ≡ reverse (map c.regs rs) =
        words-same c₁.memory c₃.memory c₁.rsp (length rs) same ∙ rw (sym count) kept.stack in
      (
        record c₃ {
          regs = assign rs (words c₃.memory c₁.rsp (length rs)) c₃.regs;
          rsp = c₁.rsp + 8 * length rs;
        },
        run-push helper next (call_helper ∷ (map pop rs ++ is)) rs c
            ∙ unfold run in
              (ap (λ (at : ℕ). run helper next (map pop rs ++ is) (record (helper c₂) { rsp = at }))
                back)
              ∙ run-pop helper next is rs c₃ (omega (arith, top)),
        record {
          others = c₃.regs;
          regs = ap (λ vs. assign rs vs c₃.regs) stack;
          rsp = top;
          above = λ a h. same a (omega (arith, top)) ∙ kept.above a h;
          control = callee.control c₂ ∙ unfold push_word in push_words-control (map c.regs rs) c;
        },
      )

-- `iretq` loads the five words on top of the stack.
pub return_from-words :
    (c : Cpu) (n : ℕ) (vs : List ℕ)
    → words c.memory c.rsp (suc (suc (suc (suc (suc n))))) ≡ vs
    → return_from c
      ≡ load_frame (get_or vs 0 0) (get_or vs 1 0) (get_or vs 2 0) (get_or vs 3 0) (get_or vs 4 0) c
unfolding return_from
return_from-words c n vs e =
    let word = λ (i : ℕ). ap (λ ws. get_or ws i 0) e in
    let third : c.rsp + 16 ≡ c.rsp + 8 + 8 = omega arith in
    let fourth : c.rsp + 24 ≡ c.rsp + 8 + 8 + 8 = omega arith in
    let fifth : c.rsp + 32 ≡ c.rsp + 8 + 8 + 8 + 8 = omega arith in
    let at : c.memory c.rsp ≡ get_or vs 0 0 = word 0 in
    let code : c.memory (c.rsp + 8) ≡ get_or vs 1 0 = word 1 in
    let flags : c.memory (c.rsp + 16) ≡ get_or vs 2 0 = ap c.memory third ∙ word 2 in
    let top : c.memory (c.rsp + 24) ≡ get_or vs 3 0 = ap c.memory fourth ∙ word 3 in
    let stack : c.memory (c.rsp + 32) ≡ get_or vs 4 0 = ap c.memory fifth ∙ word 4 in
    λ i. load_frame (at i) (code i) (flags i) (top i) (stack i) c
