-- ===== src/Kernel/Entry/Stack.antt =====
-- Pushing registers and popping them again.
use mathlib.Core.List.{reverse, reverse-cons}
use sbuoperating_system.Prelude.{
  ℕ, zero, suc, ◌+◌, ◌*◌, ◌%◌, ◌^◌, ◌<◌, ◌≤◌, ◌≡◌, refl, sym, ap, ◌∙◌, List, [], ◌∷◌, ◌++◌, map,
  arith, length,
}
use sbuoperating_system.Kernel.Entry.{
  Reg, set_reg, Cpu, push_word, pop_reg, Instruction, push, pop, run,
}

-- The `n` words of the stack from the address `a` up.
abbrev pub words : (ℕ → ℕ) → ℕ → ℕ → List ℕ
words m a zero = []
words m a (suc n) = m a ∷ words m (a + 8) n

pub words-same :
    (m m' : ℕ → ℕ) (a n : ℕ) → ((b : ℕ) → a ≤ b → m' b ≡ m b) → words m' a n ≡ words m a n
words-same m m' a zero same = refl
words-same m m' a (suc n) same =
    rw (same a (omega arith), words-same m m' (a + 8) n (λ b h. same b (omega arith))) refl

words-last : (m : ℕ → ℕ) (a n : ℕ) → words m a (suc n) ≡ words m a n ++ m (a + 8 * n) ∷ []
words-last m a zero = let e : a + 8 * 0 ≡ a = omega arith in rw e refl
words-last m a (suc n) =
    let e : a + 8 * suc n ≡ a + 8 + 8 * n = omega arith in
    rw e (ap (◌∷◌ (m a)) (words-last m (a + 8) n))

abbrev pub push_words : List ℕ → Cpu → Cpu
push_words [] c = c
push_words (v ∷ vs) c = push_words vs (push_word v c)

-- `vs` has been pushed, the last one on top, and nothing at or above the old top is changed.
pub record Pushed (vs : List ℕ) (c c' : Cpu) : Type 0 where
  pub rsp : c'.rsp + 8 * length vs ≡ c.rsp
  pub stack : words c'.memory c'.rsp (length vs) ≡ reverse vs
  pub above : (a : ℕ) → c.rsp ≤ a → c'.memory a ≡ c.memory a

push_word-Pushed :
    (v : ℕ) (c : Cpu) → 8 ≤ c.rsp → c.rsp < 2 ^ 64 → Pushed (v ∷ []) c (push_word v c)
unfolding push_word
push_word-Pushed v c room small = record {
  rsp = omega arith;
  stack = ground arith;
  above = λ a h. ground arith;
}

pub push_words-Pushed :
    (vs : List ℕ) (c : Cpu) → 8 * length vs ≤ c.rsp → c.rsp < 2 ^ 64 → Pushed vs c (push_words vs c)
push_words-Pushed [] c room small = record { rsp = omega arith; stack = refl; above = λ a h. refl }
push_words-Pushed (v ∷ vs) c room small =
    let one = push_word-Pushed v c (omega arith) small in
    let more =
      push_words-Pushed vs (push_word v c) (omega (arith, one.rsp)) (omega (arith, one.rsp)) in
    let c' = push_words vs (push_word v c) in
    let top : c'.rsp + 8 * length vs ≡ (push_word v c).rsp = more.rsp in
    let last : c'.memory (c'.rsp + 8 * length vs) ≡ v =
      rw top (more.above (push_word v c).rsp (omega arith) ∙ ground (arith, one.stack)) in
    record {
      rsp = omega (arith, more.rsp, one.rsp);
      stack =
          words-last c'.memory c'.rsp (length vs) ∙ rw (more.stack, last) (sym (reverse-cons v vs));
      above = λ a h. more.above a (omega (arith, one.rsp)) ∙ one.above a h;
    }

pub push_words-regs : (vs : List ℕ) (c : Cpu) → (push_words vs c).regs ≡ c.regs
push_words-regs [] c = refl
push_words-regs (v ∷ vs) c = push_words-regs vs (push_word v c) ∙ unfold push_word in refl

pub push_words-control : (vs : List ℕ) (c : Cpu) → (push_words vs c).control ≡ c.control
push_words-control [] c = refl
push_words-control (v ∷ vs) c = push_words-control vs (push_word v c) ∙ unfold push_word in refl

-- The registers `rs` in turn are set to `vs`.
abbrev pub assign : List Reg → List ℕ → (Reg → ℕ) → Reg → ℕ
assign [] vs regs = regs
assign (r ∷ rs) [] regs = regs
assign (r ∷ rs) (v ∷ vs) regs = assign rs vs (set_reg r v regs)

module _ (helper : Cpu → Cpu) (next : ℕ) (is : List Instruction) where
  -- Instructions that push the registers `rs` push their values.
  pub run-push :
      (rs : List Reg) (c : Cpu)
      → run helper next (map push rs ++ is) c ≡ run helper next is (push_words (map c.regs rs) c)
  unfolding run
  run-push [] c = refl
  run-push (r ∷ rs) c = run-push rs (push_word (c.regs r) c) ∙ unfold push_word in refl

  -- Instructions that pop the registers `rs` set them to the words on the stack.
  pub run-pop :
      (rs : List Reg) (c : Cpu)
      → c.rsp + 8 * length rs < 2 ^ 64
      → run helper next (map pop rs ++ is) c
        ≡ run helper next is (record c {
          regs = assign rs (words c.memory c.rsp (length rs)) c.regs;
          rsp = c.rsp + 8 * length rs;
        })
  unfolding run
  run-pop [] c room =
      let e : c.rsp + 8 * 0 ≡ c.rsp = omega arith in
      ap (λ (at : ℕ). run helper next is (record c { rsp = at })) (sym e)
  run-pop (r ∷ rs) c room =
      let e : (c.rsp + 8) % 2 ^ 64 ≡ c.rsp + 8 = omega arith in
      let e' : c.rsp + 8 + 8 * length rs ≡ c.rsp + 8 * suc (length rs) = omega arith in
      ap (run helper next (map pop rs ++ is)) (
        unfold pop_reg in
        ap (λ (at : ℕ). record c { regs = set_reg r (c.memory c.rsp) c.regs; rsp = at }) e)
      ∙ run-pop rs (record c { regs = set_reg r (c.memory c.rsp) c.regs; rsp = c.rsp + 8 })
          (omega arith)
      ∙ ap
          (λ (at : ℕ). run helper next is (record c {
            regs =
                assign rs (words c.memory (c.rsp + 8) (length rs))
                  (set_reg r (c.memory c.rsp) c.regs);
            rsp = at;
          }))
          e'
