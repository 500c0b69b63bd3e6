-- ===== src/Kernel/Interrupts.antt =====
-- The kernel behind `start` of sys/main.c: interrupts are on, the processor idles, and the timer and the
-- keyboard interrupt it in any order. Both handlers write the one screen and the one log of the ports.
pub mod Service
mod Tests
use sbuoperating_system.Prelude.{ℕ, zero, ◌+◌, ◌≡◌, Bool, Option, none, some}
use sbuoperating_system.Kernel.Ports.{Log, Device}
use sbuoperating_system.Kernel.Pit.{Timer, helper_calculate_timer}
use sbuoperating_system.Kernel.Keyboard.{Keyboard, helper_keyboard_handler}

pub record Machine : Type 0 where
  pub timer : Timer
  pub uppercase : Bool
  pub ctrl_key : Bool

abbrev pub keyboard_of : Machine → Keyboard
keyboard_of m = record {
  uppercase = m.uppercase;
  ctrl_key = m.ctrl_key;
  memory = m.timer.console.memory;
}

pub on_timer : Machine → Option Machine
on_timer m = elim (helper_calculate_timer m.timer) [
  | none ↦ none
  | some t ↦ some (record m { timer = t })
]

-- The machine behind a run of the keyboard handler.
abbrev pub with_keyboard : Machine → Keyboard → Log → Machine
with_keyboard m k log = record {
  timer = record m.timer { console = record m.timer.console { memory = k.memory }; log = log };
  uppercase = k.uppercase;
  ctrl_key = k.ctrl_key;
}

pub on_keyboard : Device → Machine → Machine
on_keyboard device m =
    let (k, log) = helper_keyboard_handler device (keyboard_of m) m.timer.log in
    with_keyboard m k log

-- `Runs m n k m'`: from `m`, `n` interrupts of the timer and `k` of the keyboard, in some order, lead
-- to `m'`.
pub data Runs (m : Machine) : ℕ → ℕ → Machine → Type 0 where
  idle : {n k : ℕ} → n ≡ 0 → k ≡ 0 → Runs m n k m
  timer_next :
      {n n' k : ℕ} {m' m'' : Machine}
      → Runs m n k m'
      → on_timer m' ≡ some m''
      → n' ≡ n + 1
      → Runs m n' k m''
  key_next :
      {n k k' : ℕ} {m' m'' : Machine} (device : Device)
      → Runs m n k m'
      → m'' ≡ on_keyboard device m'
      → k' ≡ k + 1
      → Runs m n k' m''
