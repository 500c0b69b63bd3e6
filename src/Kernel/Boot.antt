-- ===== src/Kernel/Boot.antt =====
-- The status row that sys/main.c sets up, and the attributes that `boot` gives the screen.
pub mod Screen
pub mod Start
pub mod Setup
pub mod Messages
pub mod Lines
pub mod Typed
pub mod Welcome
pub mod Installed
pub mod Vectors
mod Tests
use sbuoperating_system.Prelude.{ℕ, zero, suc, ◌+◌, ◌-◌, List}
use sbuoperating_system.Memory.{codes}
use sbuoperating_system.Kernel.Console.{Memory, poke, time_address, keypress_banner, write_cells}

abbrev pub time_string : List ℕ
time_string = codes "Time :"

abbrev pub keypress_string : List ℕ
keypress_string = codes "Key Press :"

pub set_up_welcome_screen : Memory → Memory
set_up_welcome_screen mem =
    let mem = (write_cells time_string (time_address - 16) mem).1 in
    (write_cells keypress_string keypress_banner mem).1

-- The loop of `boot` over every second byte, with `k` rounds left.
pub fill_attributes : ℕ → ℕ → Memory → Memory
fill_attributes zero temp2 mem = mem
fill_attributes (suc k) temp2 mem = fill_attributes k (temp2 + 2) (poke temp2 7 mem)

-- From 0xb8001 below 0xb8000 + 160 * 25, in steps of 2: 2000 rounds.
pub boot_screen : Memory → Memory
unfolding fill_attributes
boot_screen mem = fill_attributes 2000 0xb8001 mem
