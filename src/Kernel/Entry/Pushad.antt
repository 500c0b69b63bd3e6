-- ===== src/Kernel/Entry/Pushad.antt =====
-- `pushad` and `popad` of include/sys/asm_util.h around no code.
use mathlib.Core.List.{reverse}
use sbuoperating_system.Prelude.{
  ℕ, ◌+◌, ◌*◌, ◌^◌, ◌<◌, ◌≤◌, ◌≡◌, ◌≢◌, refl, ap, ◌∙◌, [], ◌∷◌, ◌++◌, map, arith, length,
}
use sbuoperating_system.Kernel.Entry.{
  set_reg, Reg, rax, rcx, rdx, rbx, rsi, rdi, rbp, r10, r11, r12, r13, r14, r15, Cpu, pop_reg,
  load_frame, return_from, pop, iretq, run, pushad, popad, saved_by_pushad,
}
use sbuoperating_system.Kernel.Entry.Stack.{
  words, push_words, Pushed, push_words-Pushed, push_words-regs, assign, run-push, run-pop,
}

-- The register whose value stands in `r` behind both.
swapped : Reg → Reg
swapped rax = r15
swapped rbx = r14
swapped rcx = r13
swapped rdx = r12
swapped rdi = r11
swapped rsi = r10
swapped r10 = rsi
swapped r11 = rdi
swapped r12 = rdx
swapped r13 = rcx
swapped r14 = rbx
swapped r15 = rax
swapped r = r

assign-swapped :
    (regs : Reg → ℕ) (r : Reg)
    → assign saved_by_pushad (reverse (map regs saved_by_pushad)) regs r ≡ regs (swapped r)
unfolding swapped
assign-swapped regs rax = refl
assign-swapped regs r = refl

set_reg-other : (regs : Reg → ℕ) (v : ℕ) (r : Reg) → r ≢ rbp → set_reg rbp v regs r ≡ regs r
set_reg-other regs v rbp h = absurd (h refl)
set_reg-other regs v r h = refl

return_from-regs : (c : Cpu) → (return_from c).regs ≡ c.regs
unfolding return_from load_frame
return_from-regs c = ground arith

-- `popad` behind `pushad` gives the registers of `pushad` the values of one another, in reversed order; the
-- word above them goes to `rbp`.
pushad-popad :
    (helper : Cpu → Cpu) (next : ℕ) (c : Cpu) (r : Reg)
    → 96 ≤ c.rsp
    → c.rsp + 8 < 2 ^ 64
    → let c' = run helper next (pushad ++ popad) c in
      (r ≢ rbp → c'.regs r ≡ c.regs (swapped r)) × (c'.regs rbp ≡ c.memory c.rsp)
pushad-popad helper next c r room small =
    let vs = map c.regs saved_by_pushad in
    let c₁ = push_words vs c in
    let kept : Pushed vs c c₁ = push_words-Pushed vs c (omega arith) (omega arith) in
    let back = λ (regs : Reg → ℕ) (at : ℕ). record c₁ { regs = regs; rsp = at } in
    let c₂ : Cpu = back (assign saved_by_pushad (reverse vs) c.regs) c.rsp in
    let top : c₁.rsp + 8 * length saved_by_pushad ≡ c.rsp = kept.rsp in
    let stack : words c₁.memory c₁.rsp 12 ≡ reverse vs = kept.stack in
    let popped : back (assign saved_by_pushad (words c₁.memory c₁.rsp 12) c₁.regs) (c₁.rsp + 8 * 12)
        ≡ c₂ =
      ap (λ ws. back (assign saved_by_pushad ws c₁.regs) (c₁.rsp + 8 * 12)) stack
      ∙ ap (λ (g : Reg → ℕ). back (assign saved_by_pushad (reverse vs) g) (c₁.rsp + 8 * 12))
          (push_words-regs vs c)
      ∙ ap (back (assign saved_by_pushad (reverse vs) c.regs)) top in
    let ran : run helper next (pushad ++ popad) c ≡ return_from (pop_reg rbp c₂) =
      unfold pushad popad in
      (run-push helper next popad saved_by_pushad c
        ∙ run-pop helper next (pop rbp ∷ iretq ∷ []) saved_by_pushad c₁ (omega (arith, top))
        ∙ unfold run in ap (λ (x : Cpu). return_from (pop_reg rbp x)) popped) in
    let same = return_from-regs (pop_reg rbp c₂) in
    rw ran (
      λ h.
          ap (λ (g : Reg → ℕ). g r) same
          ∙ unfold pop_reg in set_reg-other c₂.regs (c₁.memory c.rsp) r h ∙ assign-swapped c.regs r,
      ap (λ (g : Reg → ℕ). g rbp) same ∙ unfold pop_reg in kept.above c.rsp (omega arith),
    )
