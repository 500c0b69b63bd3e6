-- ===== src/Kernel/Boot/Installed.antt =====
-- What the calls in front of `start` set up: the vectors, the table's register, the segment and the timer.
use sbuoperating_system.Prelude.{
  ℕ, ◌+◌, ◌-◌, ◌*◌, ◌%◌, ◌^◌, ◌<◌, ◌≡◌, refl, ap, List, [], ◌∷◌, some, ◌==◌, if◌then◌else◌, arith,
  ltb, inl, inr, Bool-cases,
}
use sbuoperating_system.Kernel.Ports.{Device}
use sbuoperating_system.Kernel.Console.{Console}
use sbuoperating_system.Kernel.Kprintf.{Arg, number, kprintf}
use sbuoperating_system.Kernel.Gdt.{init_gdt}
use sbuoperating_system.Kernel.Gdt.Descriptor.{segment_base, init_gdt_lem}
use sbuoperating_system.Kernel.Idt.{
  Idtr, Table, idtr_message, init_idt, get_ir_from_idt, gate_for, interrupt_gate_type_attr,
  max_num_interrupts, idtd_size,
}
use sbuoperating_system.Kernel.Idt.Gates.{set_ir-reads, init_table-reads, gate-read, gate-none}
use sbuoperating_system.Kernel.Pic.{init_pic}
use sbuoperating_system.Kernel.Boot.{boot_screen}
use sbuoperating_system.Kernel.Pit.{Timer}
use sbuoperating_system.Kernel.Pit.Ticks.{init_pit-reads}
use sbuoperating_system.Kernel.Keyboard.{init_ps2_controller}
use sbuoperating_system.Kernel.Boot.Start.{Image}
use sbuoperating_system.Kernel.Boot.Setup.{System, set_up}

-- The three handlers are not null, and the addresses have 64 bits.
pub record IsLinked (image : Image) : Type 0 where
  pub tss : image.tss < 2 ^ 64
  pub s_idtd : image.s_idtd < 2 ^ 64
  pub default_nonzero : 0 < image.default_interrupt_service_routine
  pub default_word : image.default_interrupt_service_routine < 2 ^ 64
  pub pit_nonzero : 0 < image.pit_interrupt_service_routine
  pub pit_word : image.pit_interrupt_service_routine < 2 ^ 64
  pub keyboard_nonzero : 0 < image.keyboard_interrupt_service_routine
  pub keyboard_word : image.keyboard_interrupt_service_routine < 2 ^ 64

-- The handler of each vector.
abbrev pub handler_of : Image → ℕ → ℕ
handler_of image m =
    if m == 32
    then image.pit_interrupt_service_routine
    else if m == 33
    then image.keyboard_interrupt_service_routine
    else image.default_interrupt_service_routine

abbrev pub register : ℕ → Idtr
register s_idtd = record {
  limit = (idtd_size * max_num_interrupts - 1) % 2 ^ 16;
  base = s_idtd % 2 ^ 64;
}

-- What the message on the table tells.
abbrev pub told : ℕ → List Arg
told s_idtd = number (register s_idtd).limit ∷ number (register s_idtd).base ∷ []

init_idt-reads :
    (s_idtd handler : ℕ) (t : Table) (c c' : Console)
    → 0 < handler
    → handler < 2 ^ 64
    → kprintf idtr_message (told s_idtd) c ≡ some c'
    → (t' : Table) × (init_idt s_idtd handler t c ≡ some (register s_idtd, (t', c')))
      × ((n : ℕ) → get_ir_from_idt n t' ≡ (if ltb n 256 then handler else 0))
unfolding init_idt
init_idt-reads s_idtd handler t c c' p q printed =
    let (t', wrote, gates) = init_table-reads handler t p in
    (t', rw (init_idt, printed, wrote), reads t' gates)
  where
    reads :
        (t' : Table)
        → ((n : ℕ) → n < 256 → t' n ≡ gate_for interrupt_gate_type_attr handler)
        → (n : ℕ) → get_ir_from_idt n t' ≡ (if ltb n 256 then handler else 0)
    reads t' gates n = elim (Bool-cases (ltb n 256)) [
      | inl low ↦
          let h : n < 256 = ground (arith, low) in rw low (gate-read handler n t' h q (gates n h))
      | inr high ↦ rw high (gate-none n t' (ground (arith, high)))
    ]

-- What the boot has set up: every vector, the table's register, the segment, and the counters.
pub record Ready (image : Image) (s s' : System) : Type 0 where
  pub vectors : (m : ℕ) → get_ir_from_idt m s'.table ≡ (if ltb m 256 then handler_of image m else 0)
  pub base : s'.idtr.base ≡ image.s_idtd
  pub limit : s'.idtr.limit + 1 ≡ idtd_size * max_num_interrupts
  pub segment : segment_base s'.segment ≡ image.tss
  pub count : s'.machine.timer.pit_count ≡ 0
  pub time : s'.machine.timer.time_in_sec ≡ s.machine.timer.time_in_sec

three_reads :
    (image : Image) (m a b c : ℕ)
    → a ≡ (if ltb m 256 then image.default_interrupt_service_routine else 0)
    → b ≡ (if m == 32 then image.pit_interrupt_service_routine else a)
    → c ≡ (if m == 33 then image.keyboard_interrupt_service_routine else b)
    → c ≡ (if ltb m 256 then handler_of image m else 0)
three_reads image m a b c p q r = ground (arith, p, q, r)

-- The screen behind the loop over its attributes.
abbrev pub coloured : System → Console
coloured s = record s.machine.timer.console { memory = boot_screen s.machine.timer.console.memory }

pub set_up-Ready :
    (device : Device) (image : Image) (s : System) (c₁ : Console)
    → IsLinked image
    → kprintf idtr_message (told image.s_idtd) (coloured s) ≡ some c₁
    → (s' : System) × (set_up device image s ≡ some s')
      × Ready image s s'
      × (s'.dev_count ≡ s.dev_count)
      × (s'.machine.timer.console ≡ c₁)
unfolding set_up init_ps2_controller
set_up-Ready device image s c₁ linked printed =
    let t = s.machine.timer in
    let (t₁, ran₁, reads₁) =
      init_idt-reads image.s_idtd image.default_interrupt_service_routine s.table (coloured s) c₁
        linked.default_nonzero linked.default_word printed in
    let at = record t { console = c₁; log = init_pic device 0x20 0x28 t.log } in
    let (t₂, timer, ran₂, reads₂, same) =
      init_pit-reads image.pit_interrupt_service_routine t₁ at linked.pit_nonzero linked.pit_word in
    let (t₃, ran₃, reads₃) =
      set_ir-reads 33 image.keyboard_interrupt_service_routine t₂ (omega arith)
        linked.keyboard_nonzero linked.keyboard_word in
    let (based, limited, kind, present, level, gran) =
      init_gdt_lem image.tss s.segment linked.tss in
    (
      record s {
        segment = init_gdt image.tss s.segment;
        idtr = register image.s_idtd;
        table = t₃;
        machine = record s.machine { timer = timer };
      },
      rw (set_up, ran₁, ran₂, ran₃),
      record {
        vectors = λ m. three_reads image m _ _ _ (reads₁ m) (reads₂ m) (reads₃ m);
        base = ground (arith, linked.s_idtd);
        limit = refl;
        segment = based;
        count = ap Timer.pit_count same;
        time = ap Timer.time_in_sec same;
      },
      refl,
      ap Timer.console same,
    )
