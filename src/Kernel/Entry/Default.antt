-- ===== src/Kernel/Entry/Default.antt =====
-- An interrupt that no handler is installed for.
use mathlib.Core.List.{reverse}
use sbuoperating_system.Prelude.{
  ℕ, ◌*◌, ◌/◌, ◌%◌, ◌^◌, ◌⊎◌, inl, inr, true, false, Bool-cases, ◌<◌, ◌≤◌, ◌≡◌, refl, ap, ◌∙◌, [],
  ◌∷◌, ◌++◌, map, arith,
}
use sbuoperating_system.Kernel.Entry.{
  Reg, rbp, r15, r14, r13, Cpu, push_word, load_frame, return_from, push, run, saved, enter,
  serve_default,
}
use sbuoperating_system.Kernel.Entry.Call.{return_from-words}
use sbuoperating_system.Kernel.Entry.Stack.{
  push_words, Pushed, push_words-Pushed, push_words-regs, push_words-control, run-push,
}
use sbuoperating_system.Kernel.Entry.Resume.{frame}

-- Where a processor goes on that takes the saved registers for a frame.
abbrev pub GoesOn : ℕ → Cpu → Cpu → Type 0
GoesOn next c c' =
    (c'.rip ≡ next)
    × (c'.cs ≡ c.regs rbp % 2 ^ 16)
    × (c'.rflags ≡ c.control.flags_of (c.regs r15))
    × (c'.rsp ≡ c.regs r14)
    × (c'.ss ≡ c.regs r13 % 2 ^ 16)

load_frame-GoesOn :
    (next : ℕ) (c c' : Cpu)
    → c'.control ≡ c.control
    → let c'' = load_frame next (c.regs rbp) (c.regs r15) (c.regs r14) (c.regs r13) c' in
      let accepted = c.control.accepts (c.regs rbp % 2 ^ 16) (c.regs r13 % 2 ^ 16) in
      ((accepted ≡ true) × GoesOn next c c'') ⊎ ((accepted ≡ false) × (c''.control.faulted ≡ true))
unfolding load_frame
load_frame-GoesOn next c c' same =
    elim (Bool-cases (c.control.accepts (c.regs rbp % 2 ^ 16) (c.regs r13 % 2 ^ 16))) [
      | inl taken ↦ rw (same, taken) (inl (refl, (refl, refl, refl, refl, refl)))
      | inr refused ↦ rw (same, refused) (inr (refl, refl))
    ]

-- An interrupt on a vector with the default routine, from a stack that has room for 176 bytes, does not come
-- back to the interrupted program. If the segment table accepts the low 16 bits of `rbp` and `r13` as
-- selectors of code and stack, the processor goes on at `next`, the instruction behind the call in the
-- routine, with these selectors, the flags that `r15` gives and the stack pointer that the interrupted program
-- held in `r14`; if it does not, the return is refused by a fault.
pub serve_default-escapes :
    (next handler : ℕ) (c : Cpu)
    → 176 ≤ c.rsp
    → c.rsp < 2 ^ 64
    → let c' = serve_default next handler c in
      let accepted = c.control.accepts (c.regs rbp % 2 ^ 16) (c.regs r13 % 2 ^ 16) in
      ((accepted ≡ true) × GoesOn next c c') ⊎ ((accepted ≡ false) × (c'.control.faulted ≡ true))
serve_default-escapes next handler c room small =
    let base : Cpu = record c { rsp = c.rsp / 16 * 16 } in
    let framed = push_words (frame c) base in
    let entered = enter handler c in
    let f : Pushed (frame c) base framed =
      push_words-Pushed (frame c) base (omega arith) (omega arith) in
    let at : entered.rsp ≡ framed.rsp = unfold enter in refl in
    let regs : entered.regs ≡ c.regs = unfold enter in push_words-regs (frame c) base in
    let vs = map c.regs saved ++ next ∷ [] in
    let stacked : Pushed vs entered (push_words vs entered) =
      push_words-Pushed vs entered (omega (arith, f.rsp, at)) (omega (arith, f.rsp, at)) in
    let ran : run (λ c. c) next (map push saved) entered ≡ push_words (map c.regs saved) entered =
      run-push (λ c. c) next [] saved entered
      ∙ unfold run in ap (λ (g : Reg → ℕ). push_words (map g saved) entered) regs in
    let ends : serve_default next handler c ≡ return_from (push_words vs entered) =
      unfold serve_default in ap (λ (x : Cpu). return_from (push_word next x)) ran in
    let control : (push_words vs entered).control ≡ c.control =
      push_words-control vs entered ∙ unfold enter in push_words-control (frame c) base in
    rw ends (
      rw (return_from-words (push_words vs entered) 9 (reverse vs) stacked.stack)
        (load_frame-GoesOn next c (push_words vs entered) control))
