-- ===== src/Kernel/Entry/Serves.antt =====
-- Interrupts of the timer and the keyboard in any order, with the processor that takes them.
use sbuoperating_system.Prelude.{ℕ, ◌+◌, ◌%◌, ◌≡◌, ◌∙◌, refl, ap, some, ◌==◌, if◌then◌else◌, arith}
use sbuoperating_system.Kernel.Ports.{Device}
use sbuoperating_system.Kernel.Interrupts.{
  Machine, on_timer, on_keyboard, Runs, idle, timer_next, key_next,
}
use sbuoperating_system.Kernel.Entry.{
  Reg, Cpu, interrupt_flag, enter, serve, pit_interrupt_service_routine,
  keyboard_interrupt_service_routine,
}
use sbuoperating_system.Kernel.Entry.Call.{IsCallee}
use sbuoperating_system.Kernel.Entry.Resume.{
  mirror, Resumed, IsRunning, HasRoom, routine, serve-Resumed, mirror-mirror, mirror-is_saved,
}

-- `Serves depth c m n k c' m'`: the processor at `c` and the machine at `m` come to `c'` and `m'` by `n`
-- interrupts of the timer and `k` of the keyboard, in some order, while the program is an endless loop that
-- uses no register. An interrupt comes in while the interrupt flag is set. A helper needs at most `depth` bytes of stack and follows the convention of a call;
-- what else it does to the processor may differ each time.
pub data Serves (depth : ℕ) (c : Cpu) (m : Machine) : ℕ → ℕ → Cpu → Machine → Type 0 where
  waiting : {n k : ℕ} → n ≡ 0 → k ≡ 0 → Serves depth c m n k c m
  timer_served :
      {n n' k : ℕ} {c' c'' : Cpu} {m' m'' : Machine} (helper : Cpu → Cpu) (next handler : ℕ)
      → Serves depth c m n k c' m'
      → interrupt_flag c'.rflags ≡ 1
      → IsCallee depth helper
      → on_timer m' ≡ some m''
      → c'' ≡ serve helper next handler pit_interrupt_service_routine c'
      → n' ≡ n + 1
      → Serves depth c m n' k c'' m''
  key_served :
      {n k k' : ℕ} {c' c'' : Cpu} {m' m'' : Machine} (helper : Cpu → Cpu) (next handler : ℕ)
      (device : Device)
      → Serves depth c m n k c' m'
      → interrupt_flag c'.rflags ≡ 1
      → IsCallee depth helper
      → m'' ≡ on_keyboard device m'
      → c'' ≡ serve helper next handler keyboard_interrupt_service_routine c'
      → k' ≡ k + 1
      → Serves depth c m n k' c'' m''

-- No routine is interrupted: the flag is off when it begins.
enter-off : (handler : ℕ) (c : Cpu) → interrupt_flag (enter handler c).rflags ≡ 0
unfolding enter
enter-off handler c = omega arith

-- The registers behind a number of interrupts.
abbrev pub turned : ℕ → Cpu → Reg → ℕ
turned n c r = if n % 2 == 0 then c.regs r else c.regs (mirror r)

turned-mirror : (n n' : ℕ) (c : Cpu) (r : Reg) → n' ≡ n + 1 → turned n c (mirror r) ≡ turned n' c r
turned-mirror n n' c r e = ground (arith, ap c.regs (mirror-mirror r))

still : {c c' : Cpu} {held : Reg → ℕ} → IsRunning c → Resumed c held c' → IsRunning c'
still live was = record {
  code = rw was.cs live.code;
  stack = rw was.ss live.stack;
  accepted = rw (was.control, was.cs, was.ss) live.accepted;
  flags = rw (was.control, was.rflags) live.flags;
  going = rw was.control live.going;
}

Resumed-next :
    (depth n n' : ℕ) (helper : Cpu → Cpu) (next handler : ℕ) (c c' c'' : Cpu)
    → IsCallee depth helper
    → HasRoom depth c
    → IsRunning c
    → Resumed c (turned n c) c'
    → c'' ≡ serve helper next handler routine c'
    → n' ≡ n + 1
    → Resumed c (turned n' c) c''
Resumed-next depth n n' helper next handler c c' c'' callee (room, small) live was e count =
    let now : Resumed c' (λ r. c'.regs (mirror r)) c'' = rw e (
      serve-Resumed depth next helper callee handler c'
        (omega (arith, was.rsp), omega (arith, was.rsp)) (still live was)) in
    record {
      rip = now.rip ∙ was.rip;
      cs = now.cs ∙ was.cs;
      rflags = now.rflags ∙ was.rflags;
      rsp = now.rsp ∙ was.rsp;
      ss = now.ss ∙ was.ss;
      control = now.control ∙ was.control;
      above = λ a h. now.above a (omega (arith, was.rsp)) ∙ was.above a h;
      regs = λ r h.
          now.regs r h ∙ was.regs (mirror r) (mirror-is_saved r ∙ h) ∙ turned-mirror n n' c r count;
    }

-- Whatever the order in which `n` interrupts of the timer and `k` of the keyboard come in, and whatever the
-- compiled helpers leave in the registers: the devices go through a run of `n` and `k` interrupts, and the
-- interrupted loop goes on at its instruction, with its flags, segments, stack pointer and stack, and no
-- return is refused. Its registers but `r8` and `r9` hold what they held if `n + k` is even. If it is odd,
-- `r10` holds what it held, and these pairs have changed places: `rax` and `rbp`, `rcx` and `r15`, `rdx` and
-- `r14`, `rbx` and `r13`, `rsi` and `r12`, `rdi` and `r11`. The stack has room for the frame, the saved
-- registers and a helper, and the processor lets its own selectors and flags be loaded again.
pub Serves-resumes :
    {depth : ℕ} {c : Cpu} {m : Machine} {n k : ℕ} {c' : Cpu} {m' : Machine}
    → HasRoom depth c
    → IsRunning c
    → Serves depth c m n k c' m'
    → Runs m n k m' × Resumed c (turned (n + k) c) c'
Serves-resumes {c = c} {n = n} {k = k} room live (waiting e₁ e₂) =
    let even : (n + k) % 2 ≡ 0 = omega arith in
    (
      idle e₁ e₂,
      record {
        rip = refl;
        cs = refl;
        rflags = refl;
        rsp = refl;
        ss = refl;
        control = refl;
        above = λ a h. refl;
        regs = λ r h. rw even refl;
      },
    )
Serves-resumes {depth = depth} {c = c} {n = n'} {k = k} {c' = c''} room live
      (timer_served {n = n} {c' = c'} helper next handler before on callee stepped e count) =
    let (run, was) = Serves-resumes room live before in
    (
      timer_next run stepped count,
      Resumed-next depth (n + k) (n' + k) helper next handler c c' c'' callee room live was
          (e ∙ unfold pit_interrupt_service_routine in refl) (omega arith),
    )
Serves-resumes {depth = depth} {c = c} {n = n} {k = k'} {c' = c''} room live
      (key_served {k = k} {c' = c'} helper next handler device before on callee stepped e count) =
    let (run, was) = Serves-resumes room live before in
    (
      key_next device run stepped count,
      Resumed-next depth (n + k) (n + k') helper next handler c c' c'' callee room live was
          (e ∙ unfold keyboard_interrupt_service_routine in refl) (omega arith),
    )
