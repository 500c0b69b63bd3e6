-- ===== src/Kernel/Boot/Vectors.antt =====
-- The system behind `boot`: the interrupt vectors, the descriptor, the timer and the devices.
use sbuoperating_system.Prelude.{ℕ, ◌<◌, ◌≤◌, ◌≡◌, refl, ap, ◌∙◌, List, Option, some, arith, length}
use sbuoperating_system.Kernel.Ports.{Device}
use sbuoperating_system.Kernel.Console.{Console}
use sbuoperating_system.Kernel.Kprintf.Total.{kprintf-Fits}
use sbuoperating_system.Kernel.Kprintf.{kprintf}
use sbuoperating_system.Kernel.Idt.{idtr_message}
use sbuoperating_system.Kernel.Pci.{PciDevInfo, Pci}
use sbuoperating_system.Kernel.Pci.Scan.{
  Answers, Outcome, stored, overrun, found_buses, init_pci-Outcome,
}
use sbuoperating_system.Kernel.Boot.Start.{Image, start_screen}
use sbuoperating_system.Kernel.Boot.Messages.{idtr_message-Fits, Leads, start_screen-Returns}
use sbuoperating_system.Kernel.Boot.Installed.{
  IsLinked, told, register, coloured, Ready, set_up-Ready,
}
use sbuoperating_system.Kernel.Boot.Setup.{System, start, boot}

recorded :
    {r : Option Pci} (p : Pci) (ds : List PciDevInfo)
    → p.dev_count ≡ 0
    → length ds ≤ 8
    → Outcome p ds r
    → (q : Pci) × (r ≡ some q) × (q.dev_count ≡ length ds)
recorded p ds z few (stored {q = q} fits x) = (q, refl, omega (arith, x.count))
recorded p ds z few (overrun over) = let never : 1 ≤ 0 = omega arith in elim never [ ]

-- With the screens that the messages lead to.
pub boot_screens-Ready :
    (device : Device) (config words : ℕ → ℕ) (image : Image) (s : System) (fuel : ℕ)
    (c₁ c : Console)
    → Answers config device
    → IsLinked image
    → s.dev_count ≡ 0
    → length (found_buses config 256 0) ≤ 8
    → kprintf idtr_message (told image.s_idtd) (coloured s) ≡ some c₁
    → start_screen words fuel image c₁ ≡ some c
    → (s' : System) × (boot device image words fuel s ≡ some s')
      × Ready image s s'
      × (s'.dev_count ≡ length (found_buses config 256 0))
      × (s'.machine.timer.console ≡ c)
unfolding boot start
boot_screens-Ready device config words image s fuel c₁ c answers linked none_yet few printed shown =
    let (s₁, ran, ready, devices, screen) = set_up-Ready device image s c₁ linked printed in
    let started : start_screen words fuel image s₁.machine.timer.console ≡ some c =
      ap (start_screen words fuel image) screen ∙ shown in
    let p : Pci = record {
      dev_info = s₁.dev_info;
      dev_count = s₁.dev_count;
      log = s₁.machine.timer.log;
    } in
    let (pci, scanned, count) =
      recorded p (found_buses config 256 0) (devices ∙ none_yet) few
        (init_pci-Outcome config device answers p (devices ∙ none_yet)) in
    (
      record s₁ {
        machine = record s₁.machine {
          timer = record s₁.machine.timer { console = c; log = pci.log };
        };
        dev_info = pci.dev_info;
        dev_count = pci.dev_count;
      },
      rw (boot, ran, start, started, scanned),
      record {
        vectors = ready.vectors;
        base = ready.base;
        limit = ready.limit;
        segment = ready.segment;
        count = ready.count;
        time = ready.time;
      },
      count,
      refl,
    )

-- For an image whose three handlers are not null, a loader whose modules lead to 0x9001, and a bus of at
-- most 8 devices, `boot` reaches its endless loop: the timer's handler stands on vector 32, the keyboard's
-- on 33, the default one on every other of the 256; the register of the table holds its address and its
-- size less one; the processor finds the task state segment; the count of the timer is 0 and the time as
-- it was; and as many devices are recorded as the bus has.
pub boot-Ready :
    (device : Device) (config words : ℕ → ℕ) (image : Image) (s : System) {q n : ℕ} (fuel : ℕ)
    → Answers config device
    → IsLinked image
    → Leads words q 0 n
    → n < fuel
    → s.dev_count ≡ 0
    → length (found_buses config 256 0) ≤ 8
    → (s' : System) × (boot device image words fuel s ≡ some s')
      × Ready image s s'
      × (s'.dev_count ≡ length (found_buses config 256 0))
boot-Ready device config words image s fuel answers linked leads h none_yet few =
    let (c₁, printed) =
      kprintf-Fits (idtr_message-Fits (register image.s_idtd).limit (register image.s_idtd).base)
        (coloured s) in
    let (c, shown) = start_screen-Returns words {fuel = fuel} image c₁ leads h in
    let (s', ran, ready, count, screen) =
      boot_screens-Ready device config words image s fuel c₁ c answers linked none_yet few printed
        shown in
    (s', ran, ready, count)
