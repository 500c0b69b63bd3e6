-- ===== src/Kernel/Pit.antt =====
-- The interval timer, sys/pit.c. `none` is a fault of a callee.
pub mod Ticks
mod Tests
use sbuoperating_system.Prelude.{
  ℕ, zero, suc, ◌+◌, ◌-◌, ◌*◌, ◌/◌, ◌%◌, ◌^◌, Bool, true, false, List, [], ◌∷◌, Option, none, some,
  ◌==◌, if◌then◌else◌,
}
use sbuoperating_system.Prelude.Bits.{◌>>>◌}
use sbuoperating_system.Kernel.Ports.{Log, outportb}
use sbuoperating_system.Kernel.Idt.{Table, set_ir_in_idt}
use sbuoperating_system.Kernel.Console.{Console}
use sbuoperating_system.Kernel.Kprintf.{print_time}

abbrev pub pit_channel_0 : ℕ
pit_channel_0 = 0x40

abbrev pub pit_command : ℕ
pit_command = 0x43

abbrev pub pit_square_wave_command_value : ℕ
pit_square_wave_command_value = 0x34

-- `g_pit_count` and `time_in_sec`, with the screen and the ports that the handler reaches.
pub record Timer : Type 0 where
  pub pit_count : ℕ
  pub time_in_sec : ℕ
  pub console : Console
  pub log : Log

unfoldable pub get_pit_count : Timer → ℕ
get_pit_count t = t.pit_count

unfoldable pub helper_calculate_timer : Timer → Option Timer
unfolding outportb
helper_calculate_timer t =
    let count = (t.pit_count + 1) % 2 ^ 32 in
    let time = (t.time_in_sec + 1) % 2 ^ 64 in
    let done = outportb 0x20 0x20 t.log in
    if count % 35 == 0
    then elim (print_time (time / 100) t.console) [
      | none ↦ none
      | some c ↦ some (record { pit_count = count; time_in_sec = time; console = c; log = done })
    ]
    else some (record t { pit_count = count; log = done })

abbrev pub base_frequency : ℕ
base_frequency = 4000

abbrev pub max_frequency : ℕ
max_frequency = 1193181

-- The divisor, a `uint16_t`.
abbrev pub frequency : ℕ
frequency = max_frequency / base_frequency % 2 ^ 16

-- `handler` is the address of `pit_interrupt_service_routine`.
unfoldable pub init_pit : ℕ → Table → Timer → Option (Table × Timer)
unfolding outportb
init_pit handler table t = elim (set_ir_in_idt 32 handler table) [
  | none ↦ none
  | some table' ↦
      let log = outportb pit_command pit_square_wave_command_value t.log in
      let log = outportb pit_channel_0 (frequency % 2 ^ 8) log in
      let log = outportb pit_channel_0 ((frequency >>> 8) % 2 ^ 8) log in
      some (table', record t { pit_count = 0; log = log })
]
