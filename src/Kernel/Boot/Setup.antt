-- ===== src/Kernel/Boot/Setup.antt =====
-- `boot` of sys/main.c: the order in which the parts of the kernel are set up.
use sbuoperating_system.Prelude.{ℕ, Option, none, some}
use sbuoperating_system.Kernel.Ports.{Device}
use sbuoperating_system.Kernel.Console.{Console}
use sbuoperating_system.Kernel.Gdt.{SysSegmentDescriptor, init_gdt}
use sbuoperating_system.Kernel.Idt.{Idtr, Table, init_idt}
use sbuoperating_system.Kernel.Pic.{init_pic}
use sbuoperating_system.Kernel.Pit.{Timer, init_pit}
use sbuoperating_system.Kernel.Keyboard.{init_ps2_controller}
use sbuoperating_system.Kernel.Pci.{PciDevInfo, init_pci_dev_info}
use sbuoperating_system.Kernel.Interrupts.{Machine}
use sbuoperating_system.Kernel.Boot.{boot_screen}
use sbuoperating_system.Kernel.Boot.Start.{Image, start_screen}

-- The state that the parts of the kernel keep in global variables, with the screen and the ports.
pub record System : Type 0 where
  pub segment : SysSegmentDescriptor
  pub idtr : Idtr
  pub table : Table
  pub machine : Machine
  pub dev_info : ℕ → PciDevInfo
  pub dev_count : ℕ

abbrev pub with_console : Timer → Console → Timer
with_console t c = record t { console = c }

module _ (device : Device) (image : Image) where
  -- The calls of `boot` before `start`: `init_gdt`, `init_Idt`, `init_pic`, `init_pit` and
  -- `init_ps2_controller`, behind the loop over the screen.
  unfoldable pub set_up : System → Option System
  set_up s =
      let t = s.machine.timer in
      let c = record t.console { memory = boot_screen t.console.memory } in
      let segment = init_gdt image.tss s.segment in
      elim (init_idt image.s_idtd image.default_interrupt_service_routine s.table c) [
        | none ↦ none
        | some (idtr, (table, c)) ↦
            let log = init_pic device 0x20 0x28 t.log in
            elim (init_pit image.pit_interrupt_service_routine table
              (record t { console = c; log = log })) [
                | none ↦ none
                | some (table, t) ↦
                    elim (init_ps2_controller image.keyboard_interrupt_service_routine table) [
                      | none ↦ none
                      | some table ↦ some (record s {
                        segment = segment;
                        idtr = idtr;
                        table = table;
                        machine = record s.machine { timer = t };
                      })
                    ]
              ]
      ]

  -- `start` up to `enable_Interrupts`, for the modules of the loader.
  unfoldable pub start : (ℕ → ℕ) → ℕ → System → Option System
  start words fuel s =
      let t = s.machine.timer in
      elim (start_screen words fuel image t.console) [
        | none ↦ none
        | some c ↦
            elim (init_pci_dev_info device
              (record { dev_info = s.dev_info; dev_count = s.dev_count; log = t.log })) [
                | none ↦ none
                | some pci ↦ some (record s {
                  machine = record s.machine { timer = record t { console = c; log = pci.log } };
                  dev_info = pci.dev_info;
                  dev_count = pci.dev_count;
                })
              ]
      ]

  unfoldable pub boot : (ℕ → ℕ) → ℕ → System → Option System
  boot words fuel s = elim (set_up s) [ none ↦ none | some s ↦ start words fuel s ]
