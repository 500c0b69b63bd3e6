-- ===== src/Kernel/Entry/Tests.antt =====
-- Interrupts of a processor at concrete ones.
use sbuoperating_system.Prelude.{◌+◌, ◌%◌, ◌^◌, ◌&&◌, ◌==◌, ◌≡◌, ◌⊎◌, refl, [], true, false, arith}
use sbuoperating_system.Kernel.Ports.{Device}
use sbuoperating_system.Kernel.Interrupts.{Machine, on_keyboard, Runs}
use sbuoperating_system.Kernel.Entry.{
  rax, rbp, r8, r13, index, set_reg, Control, Cpu, serve, serve_default,
  keyboard_interrupt_service_routine,
}
use sbuoperating_system.Kernel.Entry.Call.{IsCallee}
use sbuoperating_system.Kernel.Entry.Resume.{IsRunning, Resumed}
use sbuoperating_system.Kernel.Entry.Serves.{Serves, waiting, key_served, turned, Serves-resumes}
use sbuoperating_system.Kernel.Entry.Default.{GoesOn, serve_default-escapes}

-- The two selectors of the system are accepted, and the flags are loaded as they are.
abbrev control : Control
control = record {
  accepts = λ cs ss. cs == 8 && ss == 16;
  flags_of = λ flags. flags;
  faulted = false;
}

-- Each register holds its number.
abbrev cpu : Cpu
cpu = record {
  regs = index;
  rsp = 4096;
  rip = 100;
  cs = 8;
  ss = 16;
  rflags = 0x202;
  memory = λ a. 0;
  control = control;
}

-- A helper that only changes `r8`.
abbrev helper : Cpu → Cpu
helper c = record c { regs = set_reg r8 7 c.regs }

cpu-IsRunning : IsRunning cpu
cpu-IsRunning = record {
  code = omega arith;
  stack = omega arith;
  accepted = refl;
  flags = refl;
  going = refl;
}

helper-IsCallee : IsCallee 8 helper
helper-IsCallee = record { rsp = λ c h. refl; above = λ c a h k. refl; control = λ c. refl }

abbrev machine : Machine
machine = record {
  timer = record {
    pit_count = 0;
    time_in_sec = 1;
    console = record { current_height = 0; current_width = 0; memory = λ a. 0 };
    log = [];
  };
  uppercase = false;
  ctrl_key = false;
}

abbrev keyboard : Device
keyboard log port = 0x1E

abbrev typed : Machine
typed = on_keyboard keyboard machine

abbrev resumed : Cpu
resumed = serve helper 200 300 keyboard_interrupt_service_routine cpu

resumed_rax : resumed.regs rax ≡ 5
unfolding serve keyboard_interrupt_service_routine
resumed_rax = refl

one_key : Serves 8 cpu machine 0 1 resumed typed
one_key = key_served helper 200 300 keyboard (waiting refl refl) refl helper-IsCallee refl refl refl

Serves-resumes_example : Runs machine 0 1 typed × Resumed cpu (turned (0 + 1) cpu) resumed
Serves-resumes_example = Serves-resumes (omega arith, omega arith) cpu-IsRunning one_key

serve_default-escapes_example :
    let c' = serve_default 200 300 cpu in
    let accepted = cpu.control.accepts (cpu.regs rbp % 2 ^ 16) (cpu.regs r13 % 2 ^ 16) in
    ((accepted ≡ true) × GoesOn 200 cpu c') ⊎ ((accepted ≡ false) × (c'.control.faulted ≡ true))
serve_default-escapes_example = serve_default-escapes 200 300 cpu (omega arith) (omega arith)
