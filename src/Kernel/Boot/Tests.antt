-- ===== src/Kernel/Boot/Tests.antt =====
-- The screen at concrete bytes.
use sbuoperating_system.Prelude.{
  ℕ, zero, suc, List, some, false, get_or, length, [], ◌∷◌, ◌≤◌, ◌+◌, ◌≡◌, refl, arith,
}
use sbuoperating_system.Kernel.Ports.{Device}
use sbuoperating_system.Kernel.Idt.{gate_for}
use sbuoperating_system.Kernel.Pci.{decode}
use sbuoperating_system.Kernel.Pci.Scan.{found_slots, found_buses, found_at, registers_of}
use sbuoperating_system.Kernel.Boot.Start.{Image}
use sbuoperating_system.Kernel.Boot.Messages.{Leads, here, next}
use sbuoperating_system.Kernel.Boot.Setup.{System, boot}
use sbuoperating_system.Kernel.Boot.Installed.{IsLinked, Ready}
use sbuoperating_system.Kernel.Boot.Vectors.{boot-Ready}
use sbuoperating_system.Kernel.Boot.Welcome.{IsBootText, boot-Types}
use sbuoperating_system.Kernel.Kprintf.Terminal.{Terminal, Shows}
use sbuoperating_system.Kernel.Kprintf.Lines.{type_all}
use sbuoperating_system.Kernel.Console.{Memory}

abbrev mem : Memory
mem a = 0

-- One module of two words, then the one with the map of the memory, which has one entry.
abbrev words : ℕ → ℕ
words i = get_or (1 ∷ 2 ∷ 0 ∷ 0 ∷ 0x9001 ∷ 20 ∷ 0x10_0000 ∷ 0 ∷ 0x700_0000 ∷ 0 ∷ 1 ∷ []) i 0

words_lead : Leads words 4 0 1
words_lead = next (omega arith) (here refl refl)

abbrev no_devices : ℕ → ℕ
no_devices address = 0xffff_ffff

abbrev device : Device
device log port = 0xffff_ffff

empty_slots : (k bus slot : ℕ) → found_slots no_devices k bus slot ≡ []
unfolding found_slots found_at
empty_slots zero bus slot = refl
empty_slots (suc k) bus slot = empty_slots k bus (slot + 1)

empty_buses : (k bus : ℕ) → found_buses no_devices k bus ≡ []
unfolding found_buses
empty_buses zero bus = refl
empty_buses (suc k) bus = rw (empty_slots 32 bus 0) (empty_buses k (bus + 1))

few_devices : length (found_buses no_devices 256 0) ≤ 8
few_devices = rw (empty_buses 256 0) (omega arith)

abbrev image : Image
image = record {
  tss = 0x20_0000;
  s_idtd = 0x20_1000;
  default_interrupt_service_routine = 0x20_2000;
  pit_interrupt_service_routine = 0x20_3000;
  keyboard_interrupt_service_routine = 0x20_4000;
  physfree = 0x21_0000;
  tarfs_start = 0x20_8000;
  tarfs_end = 0x20_9000;
}

image-IsLinked : IsLinked image
image-IsLinked = record {
  tss = omega arith;
  s_idtd = omega arith;
  default_nonzero = omega arith;
  default_word = omega arith;
  pit_nonzero = omega arith;
  pit_word = omega arith;
  keyboard_nonzero = omega arith;
  keyboard_word = omega arith;
}

-- The variables as the image starts with them.
abbrev system : System
system = record {
  segment = record {
    sd_lolimit = 0;
    sd_lobase = 0;
    sd_type = 0;
    sd_dpl = 0;
    sd_p = 0;
    sd_hilimit = 0;
    sd_xx1 = 0;
    sd_gran = 0;
    sd_hibase = 0;
    sd_xx2 = 0;
    sd_zero = 0;
    sd_xx3 = 0;
  };
  idtr = record { limit = 0; base = 0 };
  table = λ n. gate_for 0 0;
  machine = record {
    timer = record {
      pit_count = 0;
      time_in_sec = 1;
      console = record { current_height = 0; current_width = 0; memory = mem };
      log = [];
    };
    uppercase = false;
    ctrl_key = false;
  };
  dev_info = λ i. decode (registers_of no_devices 0 0);
  dev_count = 0;
}

boot-Ready_example :
    (s' : System) × (boot device image words 2 system ≡ some s')
    × Ready image system s'
    × (s'.dev_count ≡ length (found_buses no_devices 256 0))
boot-Ready_example =
    boot-Ready device no_devices words image system 2 (λ address log. refl) image-IsLinked
      words_lead (omega arith) refl few_devices

abbrev blank : Terminal
blank = record { cells = λ r k. 0; row = 0; column = 0 }

system-Shows : Shows system.machine.timer.console blank
system-Shows = record {
  height = refl;
  width = refl;
  on_row = omega arith;
  on_screen = omega arith;
  below = λ e. refl;
  cells = λ r k p q. refl;
}

boot-Types_example :
    (text : List ℕ) × (s' : System) × IsBootText words 4 image text
    × (boot device image words 2 system ≡ some s')
    × Shows s'.machine.timer.console (type_all text blank)
boot-Types_example =
    boot-Types device no_devices words image system 2 blank (λ address log. refl) image-IsLinked
      words_lead (omega arith) refl few_devices system-Shows refl
