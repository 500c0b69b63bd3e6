-- ===== src/Kernel/Interrupts/Tests.antt =====
-- The machine under interrupts at concrete ones.
use sbuoperating_system.Prelude.{◌+◌, ◌/◌, ◌≡◌, refl, [], ◌++◌, true, false, arith, replicate}
use sbuoperating_system.Kernel.Ports.{Device, writes_to}
use sbuoperating_system.Kernel.Kprintf.Clock.{SameText}
use sbuoperating_system.Kernel.Interrupts.{Machine, on_keyboard, Runs, idle, key_next}
use sbuoperating_system.Kernel.Interrupts.Service.{Runs-served}

abbrev machine : Machine
machine = record {
  timer = record {
    pit_count = 0;
    time_in_sec = 1;
    console = record { current_height = 0; current_width = 0; memory = λ a. 0 };
    log = [];
  };
  uppercase = true;
  ctrl_key = false;
}

-- A keyboard with the scan code of the letter a.
abbrev keyboard : Device
keyboard log port = 0x1E

abbrev typed : Machine
typed = on_keyboard keyboard machine

one_key : Runs machine 0 1 typed
one_key = key_next keyboard (idle refl refl) refl refl

Runs-served_example :
    (typed.timer.pit_count ≡ 0)
    × (typed.timer.time_in_sec ≡ 1 + 0 / 35)
    × (writes_to 0x20 typed.timer.log ≡ replicate (0 + 1) 0x20 ++ writes_to 0x20 machine.timer.log)
    × SameText machine.timer.console typed.timer.console
Runs-served_example = Runs-served refl refl (omega arith) one_key
